-- ===== src/Authority/Journal/Reassign.antt =====
-- The reassignment of a chat to another project, and the reservation and publication of its target
-- (src/gjc/session-authority-journal.ts).
pub mod History
pub mod Tests
use openwebui_gjc_adapter.Authority.{
  Error, Input, Intent, Operation, OperationResult, Provisional, Reassignment, Record, Reservation,
  Retired, Target, another_project, requires_reconciliation, provisional_conflict, not_exact_target,
  unknown_or_cross_project, same_projects, unrelated_reassignment, unknown_reassignment,
  invalid_target, pending, complete, uncertain, prompt, turn, committed, awaiting, rolled_back,
  ReassignmentState, is_pending, is_complete, is_awaiting, kind_eq,
}
use openwebui_gjc_adapter.Authority.Identity.{
  Named, name_of, names_of, ingress, provisional_key, assert_reservable_identity,
  assert_publishable_identity,
}
use openwebui_gjc_adapter.Authority.Codec.{Clock, operation_result, create_authority_identity}
use openwebui_gjc_adapter.Authority.Journal.{
  Encoding, Journal, set_record, set_provisional, journal_for, tombstone_roots,
}
use openwebui_gjc_adapter.Authority.Journal.Operations.{
  provisional_names, same_target, store, assert_input_identity_fence,
}
use openwebui_gjc_adapter.Prelude.{
  ℕ, suc, ◌+◌, Bool, true, false, not, ◌&&◌, ◌||◌, List, [], ◌∷◌, ◌++◌, Option, none, some, Text,
  codes, Result, ok, err, ◌>>=◌, ◌>>◌, throw_if, text_eq, option_eq, find, any, filter, get_or,
  is_some, if◌then◌else◌, length, ◌==◌,
}
use openwebui_gjc_adapter.Prelude.Dict
use openwebui_gjc_adapter.Prelude.Dict.{Dict}

is_open_in : Text → Provisional → Bool
is_open_in chat_id operation =
    text_eq operation.chat_id chat_id && not (is_complete operation.state)

open_name : Option Provisional → Option Operation → Option Named
open_name (some o) _ = some (name_of o.reservation.intent)
open_name none (some o) = some (name_of o.intent)
open_name none none = none

refuse_open : Option Named → Result Error (Unit {0})
refuse_open none = ok tt
refuse_open (some n) = err (requires_reconciliation (ingress n))

retained_tombstone : Option Reassignment → List Retired
retained_tombstone none = []
retained_tombstone (some r) = elim r.state [
  | committed ↦ r.source_tombstone
  | rolled_back ↦ r.prior_tombstone
  | awaiting ↦ []
]

is_unrelated : Text → Text → Option Reassignment → Bool
is_unrelated current next none = false
is_unrelated current next (some r) =
    is_awaiting r.state
    && (not (text_eq r.source_project_id current) || not (text_eq r.target_project_id next))

is_invalid_target : Option Target → Bool
is_invalid_target none = false
is_invalid_target (some t) = length t.id == 0 || length (get_or t.ingress_id t.id) == 0

require_project : Text → Text → Option Record → Result Error Record
require_project chat_id project_id none = err (unknown_or_cross_project chat_id)
require_project chat_id project_id (some r) =
    if text_eq r.project_id project_id then ok r else err (unknown_or_cross_project chat_id)

pub begin_project_reassignment :
    Encoding
    → Clock
    → Text
    → Text
    → Text
    → Option Target
    → Journal
    → Result Error (Journal × Record)
unfolding require_project open_name refuse_open is_open_in is_unrelated is_invalid_target
    retained_tombstone
begin_project_reassignment enc clock chat_id current_project_id next_project_id target j = do
  existing ← require_project chat_id current_project_id (Dict.get chat_id j.records)
  throw_if (text_eq current_project_id next_project_id) same_projects
  refuse_open (
      open_name (find (λ o. is_open_in chat_id o) (Dict.values j.provisional))
        (find (λ (o : Operation). not (is_complete o.state)) existing.journal))
  throw_if (is_unrelated current_project_id next_project_id existing.reassignment)
      (unrelated_reassignment chat_id)
  throw_if (is_invalid_target target) invalid_target
  let next : Record = record existing {
    reassignment = some (record {
      state = awaiting;
      source_project_id = current_project_id;
      target_project_id = next_project_id;
      started_at = clock 0;
      completed_at = none;
      target = target;
      source_tombstone = [];
      prior_tombstone = retained_tombstone existing.reassignment;
    });
  }
  ok (set_record enc chat_id next j, next)

require_reassignment : Text → Text → Option Reassignment → Result Error Reassignment
require_reassignment chat_id project_id none = err (unknown_reassignment chat_id)
require_reassignment chat_id project_id (some r) =
    if is_awaiting r.state && text_eq r.source_project_id project_id
    then ok r
    else err (unknown_reassignment chat_id)

require_source : Text → Text → Option Record → Result Error Record
require_source chat_id project_id none = err (unknown_reassignment chat_id)
require_source chat_id project_id (some r) =
    if text_eq r.project_id project_id then ok r else err (unknown_reassignment chat_id)

-- The evidence of the target's effects is kept: a target that is pending becomes uncertain.
retain_target : Encoding → Text → Option Provisional → Journal → Journal
retain_target enc key none j = j
retain_target enc key (some o) j =
    if is_pending o.state
    then set_provisional enc key
        (record o {
          state = uncertain;
          reservation = record o.reservation {
            intent = record o.reservation.intent {
              detail =
                  some
                    (codes "project reassignment rolled back; external effect evidence retained");
            };
          };
        })
        j
    else j

release_target : Encoding → Text → Option Target → Journal → Journal
unfolding retain_target
release_target enc chat_id none j = j
release_target enc chat_id (some t) j =
    let key = provisional_key chat_id (get_or t.ingress_id t.id) in
    retain_target enc key (Dict.get key j.provisional) j

pub rollback_project_reassignment :
    Encoding → Clock → Text → Text → Journal → Result Error (Journal × Record)
unfolding require_source require_reassignment release_target
rollback_project_reassignment enc clock chat_id current_project_id j = do
  existing ← require_source chat_id current_project_id (Dict.get chat_id j.records)
  r ← require_reassignment chat_id current_project_id existing.reassignment
  let next : Record = record existing {
    reassignment = some (record r { state = rolled_back; completed_at = some (clock 0) });
  }
  ok (set_record enc chat_id next (release_target enc chat_id r.target j), next)

target_of : Intent → Target
target_of i = record { id = i.id; ingress_id = i.ingress_id; kind = i.kind; detail = i.detail }

-- What the reservation for another project does to the reassignment: it binds the target, or throws.
bind_target : Reservation → Option Reassignment → Result Error (Option Reassignment)
unfolding target_of same_target
bind_target operation none = err (another_project operation.chat_id)
bind_target operation (some r) =
    if is_awaiting r.state && text_eq r.target_project_id operation.project_id
    then elim r.target [
      | none ↦ ok (some (record r { target = some (target_of operation.intent) }))
      | some t ↦
          if same_target operation.intent t
          then ok none
          else err (another_project operation.chat_id)
    ]
    else err (another_project operation.chat_id)

bound : Encoding → Text → Record → Option Reassignment → Journal → Journal
bound enc chat_id r none j = j
bound enc chat_id r (some reassignment) j =
    set_record enc chat_id (record r { reassignment = some reassignment }) j

-- The journal once the target of a reassignment is bound.
bind_reservation : Encoding → Reservation → Option Record → Journal → Result Error Journal
unfolding bind_target bound
bind_reservation enc operation none j = ok j
bind_reservation enc operation (some r) j =
    if text_eq r.project_id operation.project_id
    then ok j
    else (bind_target operation r.reassignment >>= λ b. ok (bound enc operation.chat_id r b j))

refuse_prior : Reservation → Option Provisional → Result Error (Unit {0})
unfolding kind_eq
refuse_prior operation none = ok tt
refuse_prior operation (some prior) =
    if kind_eq prior.kind operation.kind
      && (text_eq prior.project_id operation.project_id && option_eq prior.detail operation.detail)
    then err (requires_reconciliation (ingress (name_of operation.intent)))
    else err (provisional_conflict (ingress (name_of operation.intent)))

reserved : Clock → Reservation → Provisional
reserved clock operation = record {
  reservation = operation;
  state = pending;
  started_at = clock 0;
  completed_at = none;
}

reserve_in :
    Encoding → Clock → Reservation → Option Record → Journal → Result Error (Journal × Provisional)
unfolding refuse_prior reserved
reserve_in enc clock operation r j = do
  let key = provisional_key operation.chat_id (ingress (name_of operation.intent))
  refuse_prior operation (Dict.get key j.provisional)
  assert_reservable_identity (name_of operation.intent) (names_of (journal_for r))
      (provisional_names j.provisional)
  ok (set_provisional enc key (reserved clock operation) j, reserved clock operation)

-- The journal after a call that may have thrown.
written {ℓ} : {A : Type ℓ} → Journal → Result Error (Journal × A) → Journal × Result Error A
written j (ok (j', a)) = (j', ok a)
written j (err e) = (j, err e)

reserve_bound :
    Encoding
    → Clock
    → Reservation
    → Option Record
    → Journal
    → Result Error Journal
    → Journal × Result Error Provisional
unfolding reserve_in written
reserve_bound enc clock operation r j (ok j') = written j' (reserve_in enc clock operation r j')
reserve_bound enc clock operation r j (err e) = (j, err e)

-- The target is bound before the reservation is checked, and stays bound if that throws.
pub reserve : Encoding → Clock → Reservation → Journal → Journal × Result Error Provisional
unfolding bind_reservation reserve_bound
reserve enc clock operation j =
    let r = Dict.get operation.chat_id j.records in
    reserve_bound enc clock operation r j (bind_reservation enc operation r j)
