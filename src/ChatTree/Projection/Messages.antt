-- ===== src/ChatTree/Projection/Messages.antt =====
-- The projected messages, as the last loop of the projection makes them.
use openwebui_gjc_adapter.ChatTree.{Entry, Message, is_message}
use openwebui_gjc_adapter.ChatTree.Graph.{Entries}
use openwebui_gjc_adapter.ChatTree.Graph.Acyclic.{Known}
use openwebui_gjc_adapter.ChatTree.Projection.{
  Session, ProjectedMessage, project_messages, add_message, project_message_entry,
}
use openwebui_gjc_adapter.Metadata.{Runtime}
use openwebui_gjc_adapter.Prelude.{
  ◌≡◌, refl, true, List, [], ◌∷◌, Option, none, some, Text, All, get_or, is_some,
}
use openwebui_gjc_adapter.Prelude.Dict
use openwebui_gjc_adapter.Prelude.Dict.{Dict, All-set, has-set, has-set_self}

module _ (rt : Runtime) (session : Session) (parents : Dict (Option Text))
    (children : Dict (List Text)) where
  -- A projected message is made of a message entry, and of the two tables.
  pub record IsProjected (entries : Entries) (x : Text × ProjectedMessage) : Type 0 where
    pub entry : Entry
    pub message : Message
    pub found : Dict.get x.0 entries ≡ some entry
    pub carries : entry.message ≡ some message
    pub made :
        x.1
        ≡ project_message_entry rt session entry message
            (get_or (Dict.get x.0 parents) none)
            (get_or (Dict.get x.0 children) [])

  add_message-IsProjected :
      (entries : Entries) (e : Entry) (o : Option Message) (messages : Dict ProjectedMessage)
      → Dict.get e.id entries ≡ some e
      → e.message ≡ o
      → All (IsProjected entries) messages
      → All (IsProjected entries) (add_message rt session parents children e o messages)
  unfolding add_message
  add_message-IsProjected entries e none messages k c h = h
  add_message-IsProjected entries e (some m) messages k c h =
      All-set (IsProjected entries) e.id _ messages h
        (record { entry = e; message = m; found = k; carries = c; made = refl })

  pub project_messages-IsProjected :
      (entries : Entries) (es : List Entry) (messages : Dict ProjectedMessage)
      → Known entries es
      → All (IsProjected entries) messages
      → All (IsProjected entries) (project_messages rt session parents children es messages)
  unfolding project_messages
  project_messages-IsProjected entries [] messages k h = h
  project_messages-IsProjected entries (e ∷ es) messages k h =
      project_messages-IsProjected entries es _ k.1
        (add_message-IsProjected entries e e.message messages k.0 refl h)

  add_message-kept :
      (k : Text) (e : Entry) (o : Option Message) (messages : Dict ProjectedMessage)
      → Dict.has k messages ≡ true
      → Dict.has k (add_message rt session parents children e o messages) ≡ true
  unfolding add_message
  add_message-kept k e none messages h = h
  add_message-kept k e (some m) messages h = has-set e.id k _ messages h

  project_messages-kept :
      (k : Text) (es : List Entry) (messages : Dict ProjectedMessage)
      → Dict.has k messages ≡ true
      → Dict.has k (project_messages rt session parents children es messages) ≡ true
  unfolding project_messages
  project_messages-kept k [] messages h = h
  project_messages-kept k (e ∷ es) messages h =
      project_messages-kept k es _ (add_message-kept k e e.message messages h)

  add_message-added :
      (e : Entry) (o : Option Message) (messages : Dict ProjectedMessage)
      → is_some o ≡ true
      → Dict.has e.id (add_message rt session parents children e o messages) ≡ true
  unfolding add_message
  add_message-added e none messages h = cc h
  add_message-added e (some m) messages h = has-set_self e.id _ messages

  -- Every message entry is projected.
  pub project_messages-covers :
      (es : List Entry) (messages : Dict ProjectedMessage)
      → All
          (λ e.
            is_message e ≡ true
            → Dict.has e.id (project_messages rt session parents children es messages) ≡ true)
          es
  unfolding project_messages
  project_messages-covers [] messages = tt
  project_messages-covers (e ∷ es) messages = (
    λ m. project_messages-kept e.id es _ (add_message-added e e.message messages m),
    project_messages-covers es _,
  )
