-- ===== src/Authority/Journal/Operations/Writes.antt =====
-- The one record that a method writes when it returns (src/gjc/session-authority-journal.ts).
use openwebui_gjc_adapter.Authority.{Input, Intent, Operation, Record}
use openwebui_gjc_adapter.Authority.Identity.{name_of, shares, assert_beginable_identity}
use openwebui_gjc_adapter.Authority.Codec.{Clock}
use openwebui_gjc_adapter.Authority.Journal.{Encoding, Journal, require, set_record, journal_for}
use openwebui_gjc_adapter.Authority.Journal.Operations.{
  begin, begin_with, store, next_record, is_other_project, conflicts_with, reassignment_of,
  assert_input_identity_fence, is_same_operation, is_awaited_reassignment, provisional_names,
}
use openwebui_gjc_adapter.Authority.Journal.Operations.Identities.{journal_ok}
use openwebui_gjc_adapter.Prelude.{
  ◌≡◌, ◌⊎◌, inl, inr, [], Option, none, some, Text, ok, >>=-eq-ok, throw_if, any, find, get_or, not,
}
use openwebui_gjc_adapter.Prelude.Dict

-- The journal is as it was, or one record was written.
abbrev pub HasWritten : Encoding → Journal → Journal → Type 0
HasWritten enc j j' = (j ≡ j') ⊎ ((k : Text) × (r : Record) × (set_record enc k r j ≡ j'))

pub store-HasWritten :
    (enc : Encoding) (clock : Clock) (input : Input) (j j' : Journal) (r : Record)
    → store enc clock input j ≡ ok (j', r)
    → HasWritten enc j j'
unfolding store
store-HasWritten enc clock input j j' r h =
    let existing = Dict.get input.chat_id j.records in
    let (_, _, h1) = >>=-eq-ok (throw_if (is_other_project input.project_id existing) _) _ h in
    let (_, _, h2) =
      >>=-eq-ok
        (throw_if
          (any (λ o. conflicts_with input (reassignment_of existing) o) (Dict.values j.provisional))
          _)
        _ h1 in
    let (_, _, h3) =
      >>=-eq-ok (assert_input_identity_fence (get_or input.journal []) (journal_for existing)) _
        h2 in
    let (next, _, h4) = >>=-eq-ok (next_record clock input existing) _ h3 in
    inr (next.chat_id, next, journal_ok h4)

begin_with-HasWritten :
    (enc : Encoding) (clock : Clock) (chat_id : Text) (operation : Intent) (r : Record)
    (found : Option Operation) (j j' : Journal) (r' : Record)
    → begin_with enc clock chat_id operation r found j ≡ ok (j', r')
    → HasWritten enc j j'
unfolding begin_with
begin_with-HasWritten enc clock chat_id operation r none j j' r' h =
    let (_, _, h1) = >>=-eq-ok (throw_if (is_awaited_reassignment r.reassignment) _) _ h in
    let (_, _, h2) =
      >>=-eq-ok (assert_beginable_identity (name_of operation) (provisional_names j.provisional)) _
        h1 in
    inr (chat_id, _, journal_ok h2)
begin_with-HasWritten enc clock chat_id operation r (some prior) j j' r' h =
    let (_, _, h1) = >>=-eq-ok (throw_if (not (is_same_operation operation prior)) _) _ h in
    inl (journal_ok h1)

pub begin-HasWritten :
    (enc : Encoding) (clock : Clock) (chat_id : Text) (operation : Intent) (j j' : Journal)
    (r' : Record)
    → begin enc clock chat_id operation j ≡ ok (j', r')
    → HasWritten enc j j'
unfolding begin
begin-HasWritten enc clock chat_id operation j j' r' h =
    let (r, _, rest) = >>=-eq-ok (require chat_id j) _ h in
    begin_with-HasWritten enc clock chat_id operation r
      (find (λ o. shares (name_of operation) (name_of o.intent)) r.journal) j j' r' rest
