-- ===== src/Authority/Journal/Access.antt =====
-- The checks of an operation against the authority of its chat, and the state of an operation without
-- its record (src/gjc/session-authority-journal.ts).
use openwebui_gjc_adapter.Authority.{
  Error, Operation, OperationResult, Provisional, Record, Retired, State, not_authorized,
  another_project, ingress_conflict, unknown_or_cross_project,
}
use openwebui_gjc_adapter.Authority.Identity.{
  Named, name_of, names_of, ingress, shares, has_identity_overlap,
}
use openwebui_gjc_adapter.Authority.Codec.{Clock, is_named, or_else}
use openwebui_gjc_adapter.Authority.Journal.{
  Encoding, Journal, Holder, held_by_record, held_by_tombstone, journal_for, require,
  tombstone_roots, chain_journal, lookup_operation, lookup_operation_authority,
}
use openwebui_gjc_adapter.Authority.Journal.Lookup.{lookup_operation_flat, find-append}
use openwebui_gjc_adapter.Authority.Journal.Reassign.{begin_project_reassignment}
use openwebui_gjc_adapter.Prelude.{
  ◌≡◌, refl, sym, ap, ◌∙◌, Bool, true, false, not, ◌&&◌, ◌||◌, List, [], ◌∷◌, Option, none, some,
  Text, Result, ok, err, ◌>>=◌, ◌>>◌, throw_if, text_eq, find, any, inl, inr, Option-cases,
}
use openwebui_gjc_adapter.Prelude.Dict

pub record StateReference : Type 0 where
  pub state : State
  pub result_operation_id : Option Text

-- The operation that the result is bound to.
bound_operation : Option OperationResult → Option Text
bound_operation none = none
bound_operation (some r) = some r.mapping.operation_id

reference_of : Operation → StateReference
unfolding bound_operation
reference_of o = record { state = o.state; result_operation_id = bound_operation o.intent.result }

found_reference : Option Operation → Option StateReference → Option StateReference
unfolding reference_of
found_reference none rest = rest
found_reference (some o) rest = some (reference_of o)

-- The walk through a chain of tombstones.
retired_reference : Text → List Retired → Option StateReference
unfolding is_named found_reference
retired_reference id [] = none
retired_reference id (t ∷ ts) =
    found_reference (find (λ o. is_named id o) t.journal) (retired_reference id ts)

reference_in : Text → Option Record → Option StateReference
unfolding is_named retired_reference found_reference
reference_in id none = none
reference_in id (some r) =
    found_reference (find (λ o. is_named id o) r.journal)
      (retired_reference id (tombstone_roots r.reassignment))

pub operation_state_reference : Text → Text → Journal → Option StateReference
unfolding reference_in
operation_state_reference chat_id operation_id j =
    reference_in operation_id (Dict.get chat_id j.records)

holder_project : Holder → Text
holder_project (held_by_record r) = r.project_id
holder_project (held_by_tombstone t) = t.project_id

is_held_for : Text → Option Holder → Bool
unfolding holder_project
is_held_for project_id none = false
is_held_for project_id (some h) = text_eq (holder_project h) project_id

pub assert_operation_project : Text → Text → Text → Journal → Result Error (Unit {0})
unfolding is_held_for
assert_operation_project chat_id project_id operation_id j =
    throw_if (not (is_held_for project_id (lookup_operation_authority chat_id operation_id j)))
      (not_authorized operation_id project_id)

-- A provisional operation of the chat that has an identifier of the one that comes in.
shares_in_chat : Text → Named → Provisional → Bool
unfolding shares
shares_in_chat chat_id incoming o =
    text_eq o.chat_id chat_id && shares incoming (name_of o.reservation.intent)

pub assert_operation_identity : Text → Text → Named → Journal → Result Error (Unit {0})
unfolding shares_in_chat has_identity_overlap
assert_operation_identity chat_id project_id operation j = do
  r ← require chat_id j
  throw_if (not (text_eq r.project_id project_id)) (another_project chat_id)
  throw_if
      (has_identity_overlap operation (names_of (journal_for (some r)))
        || any (λ o. shares_in_chat chat_id operation o) (Dict.values j.provisional))
      (ingress_conflict (ingress operation))

-- Only an unknown or cross-project authority is reported as `false`; another error is thrown.
reassigned : Journal → Result Error (Journal × Record) → Result Error (Journal × Bool)
reassigned j (ok (j', r)) = ok (j', true)
reassigned j (err (unknown_or_cross_project chat_id)) = ok (j, false)
reassigned j (err e) = err e

pub reassign_project :
    Encoding → Clock → Text → Text → Text → Journal → Result Error (Journal × Bool)
unfolding reassigned
reassign_project enc clock chat_id current next j =
    reassigned j (begin_project_reassignment enc clock chat_id current next none j)

-- The reference to an operation that was found.
pub referred : Option Operation → Option StateReference
unfolding reference_of
referred none = none
referred (some o) = some (reference_of o)

found-referred : (a b : Option Operation) → found_reference a (referred b) ≡ referred (or_else a b)
unfolding found_reference referred
found-referred none b = refl
found-referred (some o) b = refl

retired_reference-referred :
    (id : Text) (chain : List Retired)
    → retired_reference id chain ≡ referred (find (λ o. is_named id o) (chain_journal chain))
unfolding retired_reference chain_journal referred
retired_reference-referred id [] = unfold find in refl
retired_reference-referred id (t ∷ ts) =
    ap (found_reference (find (λ o. is_named id o) t.journal)) (retired_reference-referred id ts)
    ∙ found-referred (find (λ o. is_named id o) t.journal)
        (find (λ o. is_named id o) (chain_journal ts))
    ∙ ap referred (sym (find-append (λ o. is_named id o) t.journal (chain_journal ts)))

-- The state reference of an operation ID, which is read without the operation, is that of the
-- operation that the lookup returns; there is none where the lookup finds nothing.
pub state_reference_agrees :
    (chat_id id : Text) (j : Journal)
    → operation_state_reference chat_id id j ≡ referred (lookup_operation chat_id id j)
unfolding operation_state_reference reference_in journal_for find referred
state_reference_agrees chat_id id j = elim (Option-cases (Dict.get chat_id j.records)) [
  | inl g ↦
      ap (reference_in id) g
      ∙ sym (
          ap referred (
            lookup_operation_flat chat_id id j
            ∙ ap (λ r. find (λ o. is_named id o) (journal_for r)) g))
  | inr (r, g) ↦
      let chain = tombstone_roots r.reassignment in
      ap (reference_in id) g
      ∙ ap (found_reference (find (λ o. is_named id o) r.journal))
          (retired_reference-referred id chain)
      ∙ found-referred (find (λ o. is_named id o) r.journal)
          (find (λ o. is_named id o) (chain_journal chain))
      ∙ ap referred (sym (find-append (λ o. is_named id o) r.journal (chain_journal chain)))
      ∙ sym (
          ap referred (
            lookup_operation_flat chat_id id j
            ∙ ap (λ r. find (λ o. is_named id o) (journal_for r)) g))
]
