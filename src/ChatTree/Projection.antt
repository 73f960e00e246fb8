-- ===== src/ChatTree/Projection.antt =====
-- `projectGjcSessionToOpenWebUIChat` (src/projection/chat-tree.ts). `messages` is an object there:
-- it is read by ID only, and an ID that names a property of `Object.prototype` is not modelled.
pub mod Tree
mod Parents
mod Family
mod Messages
pub mod Made
pub mod Chat
pub mod Total
pub mod Tests
use openwebui_gjc_adapter.ChatTree.{
  Part, Content, Message, Entry, text_part, other_part, missing, plain, parts, other, is_message,
}
use openwebui_gjc_adapter.ChatTree.Graph.{
  Entries, Diagnostic, Error, Validation, Index, parent_cycle, out_of_fuel,
  validate_session_entry_graph,
}
use openwebui_gjc_adapter.Metadata.{Runtime, build_lineage_hash}
use openwebui_gjc_adapter.Prelude.{
  ℕ, zero, suc, ◌+◌, ◌-◌, Bool, true, false, ◌||◌, codes, List, [], ◌∷◌, ◌++◌, Option, none, some,
  Text, Result, ok, err, ◌>>=◌, if◌then◌else◌, contains, length, get_or,
}
use openwebui_gjc_adapter.Prelude.Dict
use openwebui_gjc_adapter.Prelude.Dict.{Dict}

pub record Header : Type 0 where
  pub id : Text
  pub title : Option Text

pub record Session : Type 0 where
  pub session_file : Text
  pub header : Header
  pub entries : List Entry

pub record MessageMetadata : Type 0 where
  pub projection_version : ℕ
  pub session_file_name : Text
  pub gjc_session_id : Text
  pub gjc_entry_id : Text
  pub lineage_hash : Text

pub record ProjectedMessage : Type 0 where
  pub id : Text
  pub parent_id : Option Text
  pub children_ids : List Text
  pub role : Text
  pub content : Text
  pub timestamp : ℕ
  pub metadata : MessageMetadata

pub record ChatMetadata : Type 0 where
  pub projection_version : ℕ
  pub session_file_name : Text
  pub gjc_session_id : Text
  pub gjc_entry_id : Option Text
  pub lineage_hash : Text
  pub entry_count : ℕ
  pub message_entry_count : ℕ
  pub non_message_entry_count : ℕ
  pub diagnostics : List Diagnostic

pub record ProjectedChat : Type 0 where
  pub id : Text
  pub title : Option Text
  pub messages : Dict ProjectedMessage
  pub current_id : Option Text
  pub metadata : ChatMetadata

abbrev projection_version : ℕ
projection_version = 0

text_of_parts : List Part → Text
text_of_parts [] = []
text_of_parts (text_part t ∷ ps) = t ++ text_of_parts ps
text_of_parts (other_part ∷ ps) = text_of_parts ps

content_text : Content → Text
unfolding text_of_parts
content_text missing = []
content_text (plain t) = t
content_text (parts ps) = text_of_parts ps
content_text other = []

pub extract_message_text : Message → Text
unfolding content_text
extract_message_text m = content_text m.content

-- The loop of `findNearestMessageAncestor`: the parent that is read from an entry is the next cursor.
nearest_at : Entry → Result Error (Option Text) → Result Error (Option Text)
nearest_at e above = if is_message e then ok (some e.id) else above

nearest : ℕ → Entries → Option Text → List Text → Result Error (Option Text)
unfolding nearest_at
nearest fuel entries none seen = ok none
nearest zero entries (some cursor) seen = err out_of_fuel
nearest (suc fuel) entries (some cursor) seen =
    if contains cursor seen then err (parent_cycle cursor) else elim (Dict.get cursor entries) [
      | none ↦ ok none
      | some e ↦ let above = nearest fuel entries e.parent_id (cursor ∷ seen) in nearest_at e above
    ]

pub find_nearest_message_ancestor : Entries → Option Text → Result Error (Option Text)
unfolding nearest
find_nearest_message_ancestor entries parent_id = nearest (length entries + 1) entries parent_id []

-- `visibleParentByMessageId`, in the order of the entries.
visible_parent : Entries → Entry → Dict (Option Text) → Result Error (Dict (Option Text))
visible_parent entries e seen =
    if is_message e
    then (do
      parent ← find_nearest_message_ancestor entries e.parent_id
      ok (Dict.set e.id parent seen))
    else ok seen

pub visible_parents : Entries → List Entry → Dict (Option Text) → Result Error (Dict (Option Text))
unfolding visible_parent
visible_parents entries [] seen = ok seen
visible_parents entries (e ∷ es) seen = do
  seen' ← visible_parent entries e seen
  visible_parents entries es seen'

pub no_children : List Entry → Dict (List Text) → Dict (List Text)
no_children [] c = c
no_children (e ∷ es) c = no_children es (if is_message e then Dict.set e.id [] c else c)

-- `messageChildrenById.get(parent)?.push(id)`
push_child : Text → Text → Option (List Text) → Dict (List Text) → Dict (List Text)
push_child id parent none c = c
push_child id parent (some ids) c = Dict.set parent (ids ++ (id ∷ [])) c

add_child : Text → Option Text → Dict (List Text) → Dict (List Text)
unfolding push_child
add_child id none c = c
add_child id (some parent) c = push_child id parent (Dict.get parent c) c

pub add_children : Dict (Option Text) → Dict (List Text) → Dict (List Text)
unfolding add_child
add_children [] c = c
add_children ((id, parent) ∷ ps) c = add_children ps (add_child id parent c)

module _ (rt : Runtime) (session : Session) where
  pub project_message_entry : Entry → Message → Option Text → List Text → ProjectedMessage
  unfolding extract_message_text
  project_message_entry e m parent_id children_ids = record {
    id = e.id;
    parent_id = parent_id;
    children_ids = children_ids;
    role = m.role;
    content = extract_message_text m;
    timestamp = m.timestamp;
    metadata = record {
      projection_version = projection_version;
      session_file_name = rt.basename session.session_file;
      gjc_session_id = session.header.id;
      gjc_entry_id = e.id;
      lineage_hash =
          build_lineage_hash rt
            (session.session_file ∷ session.header.id ∷ e.id ∷ get_or parent_id [] ∷ []);
    };
  }

  add_message :
      Dict (Option Text)
      → Dict (List Text)
      → Entry
      → Option Message
      → Dict ProjectedMessage
      → Dict ProjectedMessage
  add_message parents children e none messages = messages
  add_message parents children e (some m) messages =
      Dict.set e.id
        (project_message_entry e m (get_or (Dict.get e.id parents) none)
          (get_or (Dict.get e.id children) []))
        messages

  pub project_messages :
      Dict (Option Text)
      → Dict (List Text)
      → List Entry
      → Dict ProjectedMessage
      → Dict ProjectedMessage
  unfolding add_message
  project_messages parents children [] messages = messages
  project_messages parents children (e ∷ es) messages =
      project_messages parents children es (add_message parents children e e.message messages)

parent_at : Option Entry → Option Text
parent_at none = none
parent_at (some e) = e.parent_id

-- The properties that an object has from Object.prototype.
abbrev pub inherited_names : List Text
inherited_names =
    codes "constructor"
    ∷ codes "toString"
    ∷ codes "toLocaleString"
    ∷ codes "valueOf"
    ∷ codes "hasOwnProperty"
    ∷ codes "isPrototypeOf"
    ∷ codes "propertyIsEnumerable"
    ∷ codes "__proto__"
    ∷ codes "__defineGetter__"
    ∷ codes "__defineSetter__"
    ∷ codes "__lookupGetter__"
    ∷ codes "__lookupSetter__"
    ∷ []

-- `messages[cursor] !== undefined`, which an inherited property satisfies too.
is_defined : Text → Dict ProjectedMessage → Bool
unfolding contains
is_defined cursor messages = Dict.has cursor messages || contains cursor inherited_names

-- The loop of `findProjectedCurrentId`.
projected_current : ℕ → Entries → Dict ProjectedMessage → Option Text → Result Error (Option Text)
unfolding parent_at is_defined
projected_current fuel entries messages none = ok none
projected_current zero entries messages (some cursor) = err out_of_fuel
projected_current (suc fuel) entries messages (some cursor) =
    let above = projected_current fuel entries messages (parent_at (Dict.get cursor entries)) in
    if is_defined cursor messages then ok (some cursor) else above

pub find_projected_current_id :
    Entries → Dict ProjectedMessage → Option Text → Result Error (Option Text)
unfolding projected_current
find_projected_current_id entries messages current_id =
    projected_current (length entries + 1) entries messages current_id

count_messages : List Entry → ℕ
count_messages [] = 0
count_messages (e ∷ es) = let rest = count_messages es in if is_message e then rest + 1 else rest

-- The links between the messages: their parents, and their children.
pub record Links : Type 0 where
  pub parents : Dict (Option Text)
  pub children : Dict (List Text)

pub link_messages : Entries → Result Error Links
unfolding visible_parents no_children add_children
link_messages entries = do
  parents ← visible_parents entries (Dict.values entries) []
  ok (record {
    parents = parents;
    children = add_children parents (no_children (Dict.values entries) []);
  })

messages_of : Runtime → Session → Validation → Links → Dict ProjectedMessage
unfolding project_messages
messages_of rt session v links =
    project_messages rt session links.parents links.children (Dict.values v.index.entries) []

-- The object that is returned.
chat_of : Runtime → Session → Validation → Dict ProjectedMessage → Option Text → ProjectedChat
unfolding count_messages
chat_of rt session v messages current_id =
    let count = count_messages (Dict.values v.index.entries) in
    record {
      id = session.header.id;
      title = session.header.title;
      messages = messages;
      current_id = current_id;
      metadata = record {
        projection_version = projection_version;
        session_file_name = rt.basename session.session_file;
        gjc_session_id = session.header.id;
        gjc_entry_id = current_id;
        lineage_hash =
            build_lineage_hash rt
              (session.session_file ∷ session.header.id ∷ get_or current_id [] ∷ []);
        entry_count = length v.index.entries;
        message_entry_count = count;
        non_message_entry_count = length v.index.entries - count;
        diagnostics = v.index.diagnostics;
      };
    }

project_after : Runtime → Session → Validation → Result Error ProjectedChat
unfolding messages_of chat_of
project_after rt session v = do
  links ← link_messages v.index.entries
  let messages = messages_of rt session v links
  current_id ← find_projected_current_id v.index.entries messages v.current_id
  ok (chat_of rt session v messages current_id)

pub project_session : Runtime → Session → Result Error ProjectedChat
unfolding project_after
project_session rt session = do
  v ← validate_session_entry_graph session.entries
  project_after rt session v
