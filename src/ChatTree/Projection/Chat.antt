-- ===== src/ChatTree/Projection/Chat.antt =====
-- What a projected chat (`projectGjcSessionToOpenWebUIChat`) holds.
use openwebui_gjc_adapter.ChatTree.{Entry, Message, is_message}
use openwebui_gjc_adapter.ChatTree.Projection.{
  Session, ProjectedMessage, ProjectedChat, project_message_entry, project_session,
  project_messages, extract_message_text,
}
use openwebui_gjc_adapter.ChatTree.Projection.Tree.{Nearest}
use openwebui_gjc_adapter.ChatTree.Projection.Parents.{IsParent}
use openwebui_gjc_adapter.ChatTree.Projection.Messages.{project_messages-covers}
use openwebui_gjc_adapter.ChatTree.Projection.Family.{contains-children_of}
use openwebui_gjc_adapter.ChatTree.Projection.Made.{
  entries_of, parts, parents_lem, made, own, parent_lem, children_lem, some_same,
}
use openwebui_gjc_adapter.Metadata.{Runtime}
use openwebui_gjc_adapter.Prelude.{
  ◌≡◌, ◌↔◌, sym, ap, ◌∙◌, subst, true, [], some, Text, ok, contains,
}
use openwebui_gjc_adapter.Prelude.Dict
use openwebui_gjc_adapter.Prelude.Dict.{Dict, All-get, All-value}

-- In a chat that the projection returns, for two of its messages, the second's ID is among the
-- first's children exactly if the first is the second's parent.
pub project_family :
    (rt : Runtime) (session : Session) (chat : ProjectedChat) (a b : Text) (m n : ProjectedMessage)
    → project_session rt session ≡ ok chat
    → Dict.get a chat.messages ≡ some m
    → Dict.get b chat.messages ≡ some n
    → contains b m.children_ids ≡ true ↔ n.parent_id ≡ some a
project_family rt session chat a b m n h ga gb =
    let parents = (parts rt session chat h).links.parents in
    let (there, back) = contains-children_of a b parents (parents_lem rt session chat h).distinct in
    let mine = children_lem rt session chat h a m ga in
    let above = parent_lem rt session chat h b n gb in
    (λ c. some_same (cc (above, there (rw mine at c))), λ c. rw mine (back (above ∙ ap some c)))

-- In a chat that the projection returns, a message stands under its own ID and is made of a
-- message entry of the index: it has the role, the text and the time of the entry's message, and
-- its parent is the nearest message above the entry.
pub project_faithful :
    (rt : Runtime) (session : Session) (chat : ProjectedChat) (b : Text) (n : ProjectedMessage)
    → project_session rt session ≡ ok chat
    → Dict.get b chat.messages ≡ some n
    → (e : Entry) × (m : Message) × (Dict.get b (entries_of session) ≡ some e)
      × (e.message ≡ some m)
      × (n.id ≡ b)
      × (n.role ≡ m.role)
      × (n.content ≡ extract_message_text m)
      × (n.timestamp ≡ m.timestamp)
      × Nearest (entries_of session) e.parent_id n.parent_id
unfolding project_message_entry
project_faithful rt session chat b n h g =
    let x = made rt session chat h b n g in
    let mine = own rt session chat h b x.entry x.found in
    let y =
      All-get (IsParent (entries_of session)) b n.parent_id (parts rt session chat h).links.parents
        (parents_lem rt session chat h).each (parent_lem rt session chat h b n g) in
    let same : y.entry ≡ x.entry = cc (y.found, x.found) in
    (
      x.entry,
      x.message,
      x.found,
      x.carries,
      ap (λ (m : ProjectedMessage). m.id) x.made ∙ sym mine,
      ap (λ (m : ProjectedMessage). m.role) x.made,
      ap (λ (m : ProjectedMessage). m.content) x.made,
      ap (λ (m : ProjectedMessage). m.timestamp) x.made,
      subst (λ (e : Entry). Nearest (entries_of session) e.parent_id n.parent_id) same y.nearest,
    )

-- In a chat that the projection returns, every message entry of the index is projected.
pub project_covers :
    (rt : Runtime) (session : Session) (chat : ProjectedChat) (id : Text) (e : Entry)
    → project_session rt session ≡ ok chat
    → Dict.get id (entries_of session) ≡ some e
    → is_message e ≡ true
    → Dict.has id chat.messages ≡ true
project_covers rt session chat id e h g m =
    let p = parts rt session chat h in
    let there =
      All-value
        (λ e.
          is_message e ≡ true
          → Dict.has e.id (
              project_messages rt session p.links.parents p.links.children
                (Dict.values (entries_of session)) [])
            ≡ true)
        id e (entries_of session)
        (project_messages-covers rt session p.links.parents p.links.children
          (Dict.values (entries_of session)) [])
        g m in
    rw (p.messages) (
      subst
        (λ k.
          Dict.has k (
            project_messages rt session p.links.parents p.links.children
              (Dict.values (entries_of session)) [])
          ≡ true)
        (sym (own rt session chat h id e g)) there)
