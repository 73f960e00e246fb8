-- ===== src/Authority/Journal/Operations.antt =====
-- The methods of `SessionAuthorityJournal` that write operations and records
-- (src/gjc/session-authority-journal.ts).
pub mod Identities
pub mod Project
pub mod Writes
pub mod Tests
use openwebui_gjc_adapter.Authority.{
  Attachment, Error, Input, Intent, Kind, Operation, OperationResult, Provisional, Reassignment,
  Record, Reservation, Retired, State, Successor, Target, another_project, ingress_conflict,
  requires_reconciliation, conflicting_successor, unknown_operation, completed_immutable,
  result_required, result_unexpected, unknown_provisional, proof_required, pending_reassignment,
  provisional_conflict, not_exact_target, pending, complete, uncertain, conflict, create, branch,
  prompt, turn, control, committed, ResultKind, is_pending, is_complete, is_uncertain, is_conflict,
  is_awaiting, is_rolled_back, kind_eq,
}
use openwebui_gjc_adapter.Authority.Identity.{
  Named, name_of, names_of, ingress, provisional_key, operation_identity, shares,
  assert_reservable_identity, assert_publishable_identity, assert_beginable_identity,
}
use openwebui_gjc_adapter.Authority.Codec.{
  Clock, or_else, is_named, operation_result, create_authority_identity, update_authority_identity,
}
use openwebui_gjc_adapter.Authority.Journal.{
  Encoding, Journal, set_record, set_provisional, journal_for, require, chain_contains_project,
  tombstone_roots, same_text,
}
use openwebui_gjc_adapter.Prelude.{
  ℕ, suc, ◌+◌, Bool, true, false, not, ◌&&◌, ◌||◌, List, [], ◌∷◌, ◌++◌, Option, none, some, Text,
  codes, Result, ok, err, ◌>>=◌, ◌>>◌, throw_if, text_eq, option_eq, find, any, all, filter, get_or,
  is_some, if◌then◌else◌, map,
}
use openwebui_gjc_adapter.Prelude.Dict
use openwebui_gjc_adapter.Prelude.Dict.{Dict}

-- The names of the provisional operations.
abbrev pub provisional_names : Dict Provisional → List Named
provisional_names d = map (λ (e : Text × Provisional). name_of e.1.reservation.intent) d

unfoldable pub same_target : Intent → Target → Bool
unfolding kind_eq
same_target operation target =
    text_eq operation.id target.id
    && (text_eq (get_or operation.ingress_id operation.id) (get_or target.ingress_id target.id)
        && (kind_eq operation.kind target.kind && option_eq operation.detail target.detail))

-- The first operation of a journal that satisfies the test, changed: `journal[index] = …`.
unfoldable pub change_first :
    (Operation → Bool) → (Operation → Operation) → List Operation → List Operation
change_first p f [] = []
change_first p f (o ∷ os) = let rest = change_first p f os in if p o then f o ∷ os else o ∷ rest

unfoldable pub with_journal : List Operation → Record → Record
with_journal journal r = record r { source = record r.source { journal = journal } }

is_target : Provisional → Option Target → Bool
unfolding same_target
is_target operation none = false
is_target operation (some target) = same_target operation.reservation.intent target

is_rolled_back_target : Provisional → Option Reassignment → Bool
unfolding is_target
is_rolled_back_target operation none = false
is_rolled_back_target operation (some r) =
    is_rolled_back r.state
    && (text_eq r.target_project_id operation.project_id
        && (is_target operation r.target
            && (is_uncertain operation.state || is_conflict operation.state)))

reassignment_of : Option Record → Option Reassignment
reassignment_of none = none
reassignment_of (some r) = r.reassignment

-- A provisional operation of the chat that holds it for another project.
conflicts_with : Input → Option Reassignment → Provisional → Bool
unfolding is_rolled_back_target chain_contains_project tombstone_roots
conflicts_with input reassignment operation =
    text_eq operation.chat_id input.chat_id
    && (not (text_eq operation.project_id input.project_id)
        && (not (
              is_complete operation.state
              && chain_contains_project (tombstone_roots reassignment) operation.project_id)
            && not (is_rolled_back_target operation reassignment)))

is_other_project : Text → Option Record → Bool
is_other_project project_id none = false
is_other_project project_id (some r) = not (text_eq r.project_id project_id)

-- `assertInputIdentityFence`
fence_operation : Operation → Option Operation → Result Error (Unit {0})
unfolding operation_identity
fence_operation operation none = ok tt
fence_operation operation (some collision) =
    throw_if
      (not (
        text_eq (operation_identity (name_of collision.intent))
          (operation_identity (name_of operation.intent))))
      (ingress_conflict (ingress (name_of operation.intent)))

unfoldable pub assert_input_identity_fence :
    List Operation → List Operation → Result Error (Unit {0})
unfolding fence_operation shares
assert_input_identity_fence [] prior = ok tt
assert_input_identity_fence (o ∷ os) prior = do
  fence_operation o (find (λ c. shares (name_of o.intent) (name_of c.intent)) prior)
  assert_input_identity_fence os prior

next_record : Clock → Input → Option Record → Result Error Record
next_record clock input none = create_authority_identity clock input
next_record clock input (some existing) = update_authority_identity clock input existing

pub store : Encoding → Clock → Input → Journal → Result Error (Journal × Record)
unfolding is_other_project conflicts_with assert_input_identity_fence next_record reassignment_of
store enc clock input j = do
  let existing = Dict.get input.chat_id j.records
  throw_if (is_other_project input.project_id existing) (another_project input.chat_id)
  throw_if
      (any (λ o. conflicts_with input (reassignment_of existing) o) (Dict.values j.provisional))
      (another_project input.chat_id)
  assert_input_identity_fence (get_or input.journal []) (journal_for existing)
  next ← next_record clock input existing
  ok (set_record enc next.chat_id next j, next)

started : Clock → Intent → Operation
started clock intent = record {
  intent = intent;
  state = pending;
  started_at = clock 0;
  completed_at = none;
}

is_awaited_reassignment : Option Reassignment → Bool
is_awaited_reassignment none = false
is_awaited_reassignment (some r) = is_awaiting r.state

is_same_operation : Intent → Operation → Bool
unfolding kind_eq
is_same_operation operation prior =
    text_eq prior.id operation.id
    && (option_eq prior.ingress_id operation.ingress_id && kind_eq prior.kind operation.kind)

begin_with :
    Encoding
    → Clock
    → Text
    → Intent
    → Record
    → Option Operation
    → Journal
    → Result Error (Journal × Record)
unfolding is_same_operation is_awaited_reassignment started with_journal
begin_with enc clock chat_id operation r (some prior) j = do
  throw_if (not (is_same_operation operation prior))
      (ingress_conflict (ingress (name_of operation)))
  ok (j, r)
begin_with enc clock chat_id operation r none j = do
  throw_if (is_awaited_reassignment r.reassignment) (pending_reassignment chat_id)
  assert_beginable_identity (name_of operation) (provisional_names j.provisional)
  let next = with_journal (r.journal ++ (started clock operation ∷ [])) r
  ok (set_record enc chat_id next j, next)

pub begin : Encoding → Clock → Text → Intent → Journal → Result Error (Journal × Record)
unfolding begin_with shares
begin enc clock chat_id operation j = do
  r ← require chat_id j
  let prior = find (λ o. shares (name_of operation) (name_of o.intent)) r.journal
  begin_with enc clock chat_id operation r prior j
