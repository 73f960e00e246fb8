-- ===== src/ChatTree.antt =====
-- The chat tree of a session (src/projection/chat-tree.ts, src/projection/chat-tree-graph.ts).
-- A session entry is the coding agent's; what the adapter reads of it is kept.
pub mod Graph
pub mod Projection
use openwebui_gjc_adapter.Prelude.{ℕ, List, Option, Text, Bool, is_some}

-- A part of a message's content: a text part, or a value that is none.
pub data Part : Type 0 where
  text_part : Text → Part
  other_part : Part

-- `message.content`: missing, a string, an array, or something else.
pub data Content : Type 0 where
  missing : Content
  plain : Text → Content
  parts : List Part → Content
  other : Content

pub record Message : Type 0 where
  pub role : Text
  pub content : Content
  pub timestamp : ℕ

-- `type === "message"` holds of the entries that carry a message.
pub record Entry : Type 0 where
  pub id : Text
  pub parent_id : Option Text
  pub message : Option Message

abbrev pub is_message : Entry → Bool
is_message e = is_some e.message
