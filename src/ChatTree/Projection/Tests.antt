-- ===== src/ChatTree/Projection/Tests.antt =====
-- The projection of a session of two messages (src/projection/chat-tree.ts).
use openwebui_gjc_adapter.ChatTree.{Entry, Message, plain, missing}
use openwebui_gjc_adapter.ChatTree.Graph.{parent_cycle}
use openwebui_gjc_adapter.ChatTree.Graph.Visit.{Ends}
use openwebui_gjc_adapter.ChatTree.Graph.Tests.{
  question, answer, two_entries, two_indexed, two_validated, two-valid, two-end, two_index,
}
use openwebui_gjc_adapter.ChatTree.Projection.{
  Session, ProjectedMessage, ProjectedChat, project_session, project_after, chat_of, messages_of,
  find_nearest_message_ancestor, extract_message_text, project_message_entry, link_messages,
  find_projected_current_id, inherited_names,
}
use openwebui_gjc_adapter.ChatTree.Projection.Tree.{Nearest, find_nearest-Nearest}
use openwebui_gjc_adapter.ChatTree.Projection.Made.{entries_of}
use openwebui_gjc_adapter.ChatTree.Projection.Chat.{
  project_family, project_faithful, project_covers,
}
use openwebui_gjc_adapter.ChatTree.Projection.Total.{project_current, project_decides}
use openwebui_gjc_adapter.Metadata.{Runtime}
use openwebui_gjc_adapter.Prelude.{
  ◌≡◌, ◌↔◌, refl, ◌⊎◌, [], ◌∷◌, Option, none, some, true, false, Text, codes, ok, err, contains,
  text_eq,
}
use openwebui_gjc_adapter.Prelude.Dict
use openwebui_gjc_adapter.Prelude.Dict.{Dict}

abbrev runtime : Runtime
runtime = record { iso = λ n. n ∷ []; sha256_hex = λ t. t; basename = λ t. t }

abbrev session : Session
session = record {
  session_file = codes "s.jsonl";
  header = record { id = codes "s"; title = none };
  entries = two_entries;
}

abbrev question_message : ProjectedMessage
question_message =
    project_message_entry runtime session question
      (record { role = codes "user"; content = plain (codes "Hi"); timestamp = 1 }) none
      (codes "b" ∷ [])

abbrev answer_message : ProjectedMessage
answer_message =
    project_message_entry runtime session answer
      (record { role = codes "assistant"; content = missing; timestamp = 2 }) (some (codes "a")) []

abbrev two_messages : Dict ProjectedMessage
two_messages = (codes "a", question_message) ∷ (codes "b", answer_message) ∷ []

abbrev two_chat : ProjectedChat
two_chat = chat_of runtime session two_validated two_messages (some (codes "b"))

projected : project_session runtime session ≡ ok two_chat
unfolding project_session project_after link_messages messages_of Dict.get Dict.set text_eq contains
    find_projected_current_id find_nearest_message_ancestor
projected = rw two-valid refl

has_question : Dict.get (codes "a") two_chat.messages ≡ some question_message
unfolding chat_of Dict.get text_eq
has_question = refl

has_answer : Dict.get (codes "b") two_chat.messages ≡ some answer_message
unfolding chat_of Dict.get text_eq
has_answer = refl

project_family_example :
    contains (codes "b") question_message.children_ids ≡ true
    ↔ answer_message.parent_id ≡ some (codes "a")
project_family_example =
    project_family runtime session two_chat (codes "a") (codes "b") question_message answer_message
      projected has_question has_answer

project_faithful_example :
    (e : Entry) × (m : Message) × (Dict.get (codes "b") (entries_of session) ≡ some e)
    × (e.message ≡ some m)
    × (answer_message.id ≡ codes "b")
    × (answer_message.role ≡ m.role)
    × (answer_message.content ≡ extract_message_text m)
    × (answer_message.timestamp ≡ m.timestamp)
    × Nearest (entries_of session) e.parent_id answer_message.parent_id
project_faithful_example =
    project_faithful runtime session two_chat (codes "b") answer_message projected has_answer

indexed_answer : Dict.get (codes "b") (entries_of session) ≡ some answer
unfolding Dict.get text_eq
indexed_answer = rw two_index refl

project_covers_example : Dict.has (codes "b") two_chat.messages ≡ true
project_covers_example =
    project_covers runtime session two_chat (codes "b") answer projected indexed_answer refl

current_answer : two_chat.current_id ≡ some (codes "b")
unfolding chat_of
current_answer = refl

not_inherited : contains (codes "b") inherited_names ≡ false
unfolding contains text_eq
not_inherited = refl

project_current_example : Dict.has (codes "b") two_chat.messages ≡ true
project_current_example =
    project_current runtime session two_chat (codes "b") projected current_answer not_inherited

project_decides_example :
    ((chat : ProjectedChat) × (project_session runtime session ≡ ok chat)
      × ((id : Text) → Ends (entries_of session) id))
    ⊎ ((id : Text) × (project_session runtime session ≡ err (parent_cycle id))
        × (¬ Ends (entries_of session) id))
project_decides_example = project_decides runtime session

find_nearest-Nearest_example :
    (r : Option Text) × (find_nearest_message_ancestor two_indexed (some (codes "a")) ≡ ok r)
    × Nearest two_indexed (some (codes "a")) r
find_nearest-Nearest_example = find_nearest-Nearest two_indexed (some (codes "a")) two-end
