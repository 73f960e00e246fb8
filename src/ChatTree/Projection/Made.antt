-- ===== src/ChatTree/Projection/Made.antt =====
-- What a projection that returns (`projectGjcSessionToOpenWebUIChat`) is made of.
use openwebui_gjc_adapter.ChatTree.{Entry, Message, is_message}
use openwebui_gjc_adapter.ChatTree.Graph.{Entries, Error, index_of, find_current_id}
use openwebui_gjc_adapter.ChatTree.Graph.Visit.{Ends, IsIndexed}
use openwebui_gjc_adapter.ChatTree.Graph.Acyclic.{Known, values-get}
use openwebui_gjc_adapter.ChatTree.Graph.Indexed.{index_of-IsIndexed, validated, validate_decides}
use openwebui_gjc_adapter.ChatTree.Projection.{
  Session, ProjectedMessage, ProjectedChat, Links, link_messages, project_messages,
  project_message_entry, project_session, project_after, messages_of, chat_of,
  find_projected_current_id, no_children, add_children,
}
use openwebui_gjc_adapter.ChatTree.Projection.Parents.{IsParents, Adds, visible_parents-Adds}
use openwebui_gjc_adapter.ChatTree.Projection.Messages.{IsProjected, project_messages-IsProjected}
use openwebui_gjc_adapter.ChatTree.Projection.Family.{
  children_of, get-no_children, get-add_children, pushed,
}
use openwebui_gjc_adapter.Metadata.{Runtime}
use openwebui_gjc_adapter.Prelude.{
  ◌≡◌, refl, sym, ap, ◌∙◌, subst, true, inl, inr, [], Option, some, Text, Result, ok, >>=-eq-ok,
  All, Option-cases,
}
use openwebui_gjc_adapter.Prelude.Dict
use openwebui_gjc_adapter.Prelude.Dict.{
  Dict, Distinct, All-set, All-get, All-value, get-set, has-set, has-set_self,
}

-- The entries that a session's index keeps: of those with one ID, the first.
abbrev pub entries_of : Session → Entries
entries_of session = (index_of session.entries).entries

-- What a projection that returns is made of.
pub record Parts (rt : Runtime) (session : Session) (chat : ProjectedChat) : Type 0 where
  pub links : Links
  pub linked : link_messages (entries_of session) ≡ ok links
  pub messages :
      chat.messages
      ≡ project_messages rt session links.parents links.children
          (Dict.values (entries_of session))
          []
  pub current :
      find_projected_current_id
        (entries_of session)
        chat.messages
        (find_current_id (entries_of session) (index_of session.entries).children)
      ≡ ok chat.current_id
  pub ends : (id : Text) → Ends (entries_of session) id

chat_same : {a b : ProjectedChat} → ◌≡◌ {A = Result Error ProjectedChat} (ok a) (ok b) → a ≡ b
chat_same h = cc h

parts_after :
    (rt : Runtime) (session : Session) (chat : ProjectedChat)
    → ((id : Text) → Ends (entries_of session) id)
    → project_after rt session (validated session.entries) ≡ ok chat
    → Parts rt session chat
unfolding project_after
parts_after rt session chat ends h =
    let v = validated session.entries in
    let (links, linked, h2) = >>=-eq-ok (link_messages v.index.entries) _ h in
    let messages = messages_of rt session v links in
    let (current, found, h3) =
      >>=-eq-ok (find_projected_current_id v.index.entries messages v.current_id) _ h2 in
    let made = chat_same h3 in
    let same_messages : messages ≡ chat.messages =
      unfold chat_of in ap (λ (c : ProjectedChat). c.messages) made in
    let same_current : current ≡ chat.current_id =
      unfold chat_of in ap (λ (c : ProjectedChat). c.current_id) made in
    record {
      links = links;
      linked = linked;
      messages = unfold messages_of in sym same_messages;
      current = rw (← same_messages) (rw (← same_current) found);
      ends = ends;
    }

project_returns :
    (rt : Runtime) (session : Session) (chat : ProjectedChat)
    → project_session rt session ≡ ok chat
    → (project_after rt session (validated session.entries) ≡ ok chat)
      × ((id : Text) → Ends (entries_of session) id)
unfolding project_session
project_returns rt session chat h = elim (validate_decides session.entries) [
  | inl (valid, ends) ↦ (rw valid at h, ends)
  | inr (id, invalid, _) ↦ cc (invalid, h)
]

pub some_same : {p q : Option Text} → ◌≡◌ {A = Option (Option Text)} (some p) (some q) → p ≡ q
some_same h = cc h

links_same : {a b : Links} → ◌≡◌ {A = Result Error Links} (ok a) (ok b) → a ≡ b
links_same h = cc h

module _ (rt : Runtime) (session : Session) (chat : ProjectedChat)
    (h : project_session rt session ≡ ok chat) where
  abbrev pub entries : Entries
  entries = entries_of session

  indexed : IsIndexed entries
  indexed = index_of-IsIndexed session.entries

  known : Known entries (Dict.values entries)
  known = values-get entries entries (λ k e g. g) indexed

  pub parts : Parts rt session chat
  parts =
      let (after, ends) = project_returns rt session chat h in
      parts_after rt session chat ends after

  pub adds : Adds entries (Dict.values entries) []
  adds =
      visible_parents-Adds entries (Dict.values entries) [] (parts.ends) known
        (record { distinct = tt; each = tt })

  pub links_lem :
      (parts.links.parents ≡ adds.result)
      × (parts.links.children ≡ add_children adds.result (no_children (Dict.values entries) []))
  unfolding link_messages
  links_lem =
      let same = links_same (sym (rw (adds.returns) at parts.linked)) in
      (ap (λ (l : Links). l.parents) same, ap (λ (l : Links). l.children) same)

  pub parents_lem : IsParents entries parts.links.parents
  parents_lem = rw (links_lem.0) (adds.parents)

  abbrev pub IsMade : Text × ProjectedMessage → Type 0
  IsMade = IsProjected rt session parts.links.parents parts.links.children entries

  each : All IsMade chat.messages
  each = rw (parts.messages) (
      project_messages-IsProjected rt session parts.links.parents parts.links.children entries
        (Dict.values entries) [] known tt)

  pub made :
      (id : Text) (m : ProjectedMessage) → Dict.get id chat.messages ≡ some m → IsMade (id, m)
  made id m g = All-get IsMade id m chat.messages each g

  pub own : (id : Text) (e : Entry) → Dict.get id entries ≡ some e → id ≡ e.id
  own id e g = All-get (λ x. x.0 ≡ x.1.id) id e entries indexed.own_key g

  pub carries_message : (e : Entry) (m : Message) → e.message ≡ some m → is_message e ≡ true
  carries_message e m c = rw c refl

  -- The messages above a message and below it, as the two tables have them.
  pub parent_lem :
      (id : Text) (m : ProjectedMessage)
      → Dict.get id chat.messages ≡ some m
      → Dict.get id parts.links.parents ≡ some m.parent_id
  unfolding project_message_entry
  parent_lem id m g =
      let x = made id m g in
      let mine = own id x.entry x.found in
      let covered : Dict.has x.entry.id adds.result ≡ true =
        All-value (λ e. is_message e ≡ true → Dict.has e.id adds.result ≡ true) id x.entry entries
          adds.covered x.found (carries_message x.entry x.message x.carries) in
      let has : Dict.has id parts.links.parents ≡ true =
        rw (links_lem.0) (subst (λ k. Dict.has k adds.result ≡ true) (sym mine) covered) in
      elim (Option-cases (Dict.get id parts.links.parents)) [
        | inl none_there ↦ cc (rw none_there at has)
        | inr (q, there) ↦
            there
            ∙ ap some (sym (ap (λ (m : ProjectedMessage). m.parent_id) x.made ∙ rw there refl))
      ]

  pub children_lem :
      (id : Text) (m : ProjectedMessage)
      → Dict.get id chat.messages ≡ some m
      → m.children_ids ≡ children_of id parts.links.parents
  unfolding project_message_entry
  children_lem id m g =
      let x = made id m g in
      let mine = own id x.entry x.found in
      let fresh =
        All-value
          (λ e.
            is_message e ≡ true → Dict.get e.id (no_children (Dict.values entries) []) ≡ some [])
          id x.entry entries (get-no_children (Dict.values entries) []) x.found
          (carries_message x.entry x.message x.carries) in
      let there : Dict.get id parts.links.children ≡ some (children_of id parts.links.parents) =
        rw (links_lem.1) (
          rw (links_lem.0) (
            get-add_children id adds.result _
            ∙ ap (λ o. pushed o (children_of id adds.result)) (rw (← mine) at fresh))) in
      ap (λ (m : ProjectedMessage). m.children_ids) x.made ∙ rw there refl
