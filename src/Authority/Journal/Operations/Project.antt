-- ===== src/Authority/Journal/Operations/Project.antt =====
-- The project of a chat's record (`store`, src/gjc/session-authority-journal.ts).
use openwebui_gjc_adapter.Authority.{Error, Input, Record}
use openwebui_gjc_adapter.Authority.Codec.{
  Clock, append_journal, is_named, create_authority_identity, update_authority_identity,
  is_unsettled,
}
use openwebui_gjc_adapter.Authority.Journal.{Encoding, Journal, set_record, journal_for}
use openwebui_gjc_adapter.Authority.Journal.Operations.{
  store, next_record, is_other_project, conflicts_with, reassignment_of,
  assert_input_identity_fence,
}
use openwebui_gjc_adapter.Authority.Journal.Writes.{
  throw_if-false, set_record-get_self, set_record-get_ne,
}
use openwebui_gjc_adapter.Prelude.{
  ◌≡◌, sym, ap, ◌∙◌, subst, false, [], ◌≢◌, Option, none, some, Text, Result, ok, >>=-eq-ok,
  throw_if, find, any, arith, text_eq_iff, get_or,
}
use openwebui_gjc_adapter.Prelude.Dict
use openwebui_gjc_adapter.Prelude.Dict.{get-set}
use openwebui_gjc_adapter.Authority.Journal.Operations.Identities.{
  record_ok, record_some, journal_ok,
}

record_of :
    {j k : Journal} {r s : Record}
    → ◌≡◌ {A = Result Error (Journal × Record)} (ok (j, r)) (ok (k, s))
    → r ≡ s
record_of h = cc h

stored_journal :
    (enc : Encoding) (next : Record) (chat_id : Text) (j j' : Journal) (r : Record)
    → next.chat_id ≡ chat_id
    → ◌≡◌ {A = Result Error (Journal × Record)}
        (ok (set_record enc next.chat_id next j, next))
        (ok (j', r))
    → (Dict.get chat_id j'.records ≡ some r)
      × ((k : Text) → k ≢ chat_id → Dict.get k j'.records ≡ Dict.get k j.records)
stored_journal enc next chat_id j j' r same h =
    let written = ap (λ (j : Journal). j.records) (journal_ok h) in
    let stored : Dict.get next.chat_id (set_record enc next.chat_id next j).records ≡ some next =
      set_record-get_self enc next.chat_id next j in
    (
      ap (Dict.get chat_id) (sym written)
          ∙ subst (λ k. Dict.get k (set_record enc next.chat_id next j).records ≡ some next) same
              stored
          ∙ ap some (record_of h),
      λ k apart.
          ap (Dict.get k) (sym written)
          ∙ set_record-get_ne enc next.chat_id k next j (λ e. apart (e ∙ same)),
    )

is_other_project-false :
    (project_id : Text) (existing : Option Record) (q : Record)
    → is_other_project project_id existing ≡ false
    → existing ≡ some q
    → q.project_id ≡ project_id
unfolding is_other_project
is_other_project-false project_id none q h g = cc g
is_other_project-false project_id (some r) q h g =
    let same = record_some g in
    ap (λ (r : Record). r.project_id) (sym same)
    ∙ (text_eq_iff r.project_id project_id).0 (ground arith)

next_record-project :
    (clock : Clock) (input : Input) (existing : Option Record) (r : Record)
    → next_record clock input existing ≡ ok r
    → (r.project_id ≡ input.project_id) × (r.chat_id ≡ input.chat_id)
unfolding next_record create_authority_identity update_authority_identity
next_record-project clock input none r h =
    let (os, appended, made) = >>=-eq-ok (append_journal [] (get_or input.journal [])) _ h in
    let same = record_ok made in
    (ap (λ (r : Record). r.project_id) (sym same), ap (λ (r : Record). r.chat_id) (sym same))
next_record-project clock input (some q) r h =
    let (os, appended, rest) = >>=-eq-ok (append_journal q.journal (get_or input.journal [])) _ h in
    let (_, _, made) =
      >>=-eq-ok (throw_if (is_unsettled (find (λ o. is_named input.operation_id o) os)) _) _ rest in
    let same = record_ok made in
    (ap (λ (r : Record). r.project_id) (sym same), ap (λ (r : Record). r.chat_id) (sym same))

-- Storing an input, when it returns, stores the record that it returns under the input's chat, in
-- the input's project, which is the project that the chat's record had if there was one, and
-- leaves every other chat's record as it is.
pub store-project :
    (enc : Encoding) (clock : Clock) (input : Input) (j j' : Journal) (r : Record)
    → store enc clock input j ≡ ok (j', r)
    → (Dict.get input.chat_id j'.records ≡ some r)
      × (r.project_id ≡ input.project_id)
      × ((q : Record) → Dict.get input.chat_id j.records ≡ some q → q.project_id ≡ r.project_id)
      × ((k : Text) → k ≢ input.chat_id → Dict.get k j'.records ≡ Dict.get k j.records)
unfolding store
store-project enc clock input j j' r h =
    let existing = Dict.get input.chat_id j.records in
    let (_, same_project, h1) =
      >>=-eq-ok (throw_if (is_other_project input.project_id existing) _) _ h in
    let (_, _, h2) =
      >>=-eq-ok
        (throw_if
          (any (λ o. conflicts_with input (reassignment_of existing) o) (Dict.values j.provisional))
          _)
        _ h1 in
    let (_, _, h3) =
      >>=-eq-ok (assert_input_identity_fence (get_or input.journal []) (journal_for existing)) _
        h2 in
    let (next, made, h4) = >>=-eq-ok (next_record clock input existing) _ h3 in
    let (project, chat) = next_record-project clock input existing next made in
    let own = throw_if-false _ _ same_project in
    let written = stored_journal enc next input.chat_id j j' r chat h4 in
    let project' = ap (λ (r : Record). r.project_id) (sym (record_of h4)) ∙ project in
    (
      written.0,
      project',
      λ q g. is_other_project-false input.project_id existing q own g ∙ sym project',
      written.1,
    )
