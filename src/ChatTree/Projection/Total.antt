-- ===== src/ChatTree/Projection/Total.antt =====
-- The search for the projected current message (`findProjectedCurrentId`), and the outcomes of
-- `projectGjcSessionToOpenWebUIChat`.
use openwebui_gjc_adapter.ChatTree.Graph.{Entries, Error, parent_cycle}
use openwebui_gjc_adapter.ChatTree.Graph.Depth.{HasDepth, absent, top, below, HasDepth-le}
use openwebui_gjc_adapter.ChatTree.Graph.Visit.{Ends}
use openwebui_gjc_adapter.ChatTree.Graph.Indexed.{index_of-IsIndexed, validated, validate_decides}
use openwebui_gjc_adapter.ChatTree.Projection.{
  Session, ProjectedMessage, ProjectedChat, Links, link_messages, project_session, parent_at,
  project_after, add_children, no_children, messages_of, chat_of, find_projected_current_id,
  projected_current, is_defined, inherited_names,
}
use openwebui_gjc_adapter.ChatTree.Projection.Parents.{visible_parents-Adds}
use openwebui_gjc_adapter.ChatTree.Projection.Made.{entries_of, parts}
use openwebui_gjc_adapter.ChatTree.Graph.Acyclic.{values-get}
use openwebui_gjc_adapter.Metadata.{Runtime}
use openwebui_gjc_adapter.Prelude.{
  ℕ, zero, suc, ◌+◌, ◌<◌, ◌≡◌, refl, ◌∙◌, true, ◌⊎◌, inl, inr, [], Option, none, some, Text, Result,
  ok, err, arith, length, Bool-cases, if◌then◌else◌, if_true, if_false, Bool, false, ◌||◌, contains,
}
use openwebui_gjc_adapter.Prelude.Dict
use openwebui_gjc_adapter.Prelude.Dict.{Dict}

ok_option : {r s : Option Text} → ◌≡◌ {A = Result Error (Option Text)} (ok r) (ok s) → r ≡ s
ok_option h = cc h

some_text : {a b : Text} → ◌≡◌ {A = Option Text} (some a) (some b) → a ≡ b
some_text h = cc h

or-left : (a b : Bool) → (a || b) ≡ true → b ≡ false → a ≡ true
or-left true b h n = refl
or-left false b h n = cc (h, n)

own_message :
    (c : Text) (messages : Dict ProjectedMessage)
    → is_defined c messages ≡ true
    → contains c inherited_names ≡ false
    → Dict.has c messages ≡ true
unfolding is_defined
own_message c messages h n = or-left _ _ h n

current_is :
    (fuel : ℕ) (entries : Entries) (messages : Dict ProjectedMessage) (cursor : Option Text)
    {r : Option Text} (c : Text)
    → projected_current fuel entries messages cursor ≡ ok r
    → r ≡ some c
    → is_defined c messages ≡ true
unfolding projected_current
current_is fuel entries messages none c h s = cc (h, s)
current_is zero entries messages (some cursor) c h s = cc h
current_is (suc fuel) entries messages (some cursor) {r} c h s =
    elim (Bool-cases (is_defined cursor messages)) [
      | inl t ↦
          let same : ◌≡◌ {A = Option Text} (some cursor) (some c) =
            ok_option (if_true _ (ok (some cursor)) _ t h) ∙ s in
          rw (← some_text same) t
      | inr t ↦
          current_is fuel entries messages (parent_at (Dict.get cursor entries)) c
            (if_false _ (ok (some cursor)) _ t h) s
    ]

-- With more fuel than the chain is long, the loop returns.
current_returns :
    (fuel : ℕ) (entries : Entries) (messages : Dict ProjectedMessage) (cursor : Text) (n : ℕ)
    → HasDepth entries cursor n
    → n < fuel
    → (r : Option Text) × (projected_current fuel entries messages (some cursor) ≡ ok r)
unfolding projected_current parent_at
current_returns zero entries messages cursor n d f = absurd (omega arith)
current_returns (suc fuel) entries messages _ _ (absent cursor g) f =
    (if is_defined cursor messages then some cursor else none, rw g (ground arith))
current_returns (suc fuel) entries messages _ _ (top cursor e g p) f =
    (if is_defined cursor messages then some cursor else none, rw g (rw p (ground arith)))
current_returns (suc fuel) entries messages _ _ (below cursor e parent n g p d) f =
    let (r, h) = current_returns fuel entries messages parent n d (omega arith) in
    (if is_defined cursor messages then some cursor else r, rw g (rw p (rw h (ground arith))))

find_projected-returns :
    (entries : Entries) (messages : Dict ProjectedMessage) (cursor : Option Text)
    → ((id : Text) → Ends entries id)
    → (r : Option Text) × (find_projected_current_id entries messages cursor ≡ ok r)
unfolding find_projected_current_id
find_projected-returns entries messages none ends = (none, unfold projected_current in refl)
find_projected-returns entries messages (some cursor) ends =
    let (n, d) = ends cursor in
    current_returns (length entries + 1) entries messages cursor n d (omega (arith, HasDepth-le d))

-- In a chat that the projection returns, the current message, if there is one and its ID is not
-- the name of a property that objects inherit from Object.prototype, is one of the chat's
-- messages.
pub project_current :
    (rt : Runtime) (session : Session) (chat : ProjectedChat) (c : Text)
    → project_session rt session ≡ ok chat
    → chat.current_id ≡ some c
    → contains c inherited_names ≡ false
    → Dict.has c chat.messages ≡ true
unfolding find_projected_current_id
project_current rt session chat c h current n =
    own_message c chat.messages
      (current_is _ (entries_of session) chat.messages _ c (parts rt session chat h).current
        current)
      n

project_after-returns :
    (rt : Runtime) (session : Session)
    → ((id : Text) → Ends (entries_of session) id)
    → (chat : ProjectedChat) × (project_after rt session (validated session.entries) ≡ ok chat)
unfolding project_after link_messages
project_after-returns rt session ends =
    let v = validated session.entries in
    let x = index_of-IsIndexed session.entries in
    let known = values-get (entries_of session) (entries_of session) (λ k e g. g) x in
    let adds =
      visible_parents-Adds (entries_of session) (Dict.values (entries_of session)) [] ends known
        (record { distinct = tt; each = tt }) in
    let links : Links = record {
      parents = adds.result;
      children = add_children adds.result (no_children (Dict.values (entries_of session)) []);
    } in
    let (r, found) =
      find_projected-returns (entries_of session) (messages_of rt session v links) v.current_id
        ends in
    (chat_of rt session v (messages_of rt session v links) r, rw (adds.returns) (rw found refl))

-- A projection returns a chat and every chain of parents in the index ends, or it throws the
-- parent-cycle error at an ID whose chain of parents does not end; it never runs out of fuel.
pub project_decides :
    (rt : Runtime) (session : Session)
    → ((chat : ProjectedChat) × (project_session rt session ≡ ok chat)
        × ((id : Text) → Ends (entries_of session) id))
      ⊎ ((id : Text) × (project_session rt session ≡ err (parent_cycle id))
          × (¬ Ends (entries_of session) id))
unfolding project_session
project_decides rt session = elim (validate_decides session.entries) [
  | inl (valid, ends) ↦
      let (chat, h) = project_after-returns rt session ends in inl (chat, rw valid h, ends)
  | inr (id, invalid, round) ↦ inr (id, rw invalid refl, round)
]
