-- ===== src/Authority/Journal/Publish.antt =====
-- `publish` (src/gjc/session-authority-journal.ts): a reserved operation becomes the record of its
-- chat, and commits a reassignment that awaits it.
pub mod Commit
pub mod Tests
use openwebui_gjc_adapter.Authority.{
  Error, Input, Intent, Operation, OperationResult, Provisional, Reassignment, Record, Reservation,
  Retired, Target, another_project, not_exact_target, complete, prompt, turn, committed,
  is_awaiting,
}
use openwebui_gjc_adapter.Authority.Identity.{
  name_of, names_of, ingress, provisional_key, assert_publishable_identity, Named,
}
use openwebui_gjc_adapter.Authority.Codec.{Clock, operation_result, create_authority_identity}
use openwebui_gjc_adapter.Authority.Journal.{
  Encoding, Journal, set_record, set_provisional, journal_for,
}
use openwebui_gjc_adapter.Authority.Journal.Operations.{
  provisional_names, same_target, store, assert_input_identity_fence,
}
use openwebui_gjc_adapter.Prelude.{
  ℕ, suc, ◌+◌, Bool, true, false, not, ◌&&◌, ◌||◌, List, [], ◌∷◌, Option, none, some, Text, Result,
  ok, err, ◌>>=◌, ◌>>◌, throw_if, text_eq, filter, if◌then◌else◌,
}
use openwebui_gjc_adapter.Prelude.Dict
use openwebui_gjc_adapter.Prelude.Dict.{Dict}

prior_of : Option Reassignment → List Retired
prior_of none = []
prior_of (some r) = r.prior_tombstone

-- `toTombstone`: the record without its events, before the chain that it kept.
pub to_tombstone : Record → Text → List Retired
unfolding prior_of
to_tombstone r retired_at =
    record { source = r.source; events = none; retired_at = retired_at } ∷ prior_of r.reassignment

awaited : Option Reassignment → Option Reassignment
awaited none = none
awaited (some r) = if is_awaiting r.state then some r else none

awaited_of : Option Record → Option Reassignment
unfolding awaited
awaited_of none = none
awaited_of (some r) = awaited r.reassignment

is_exact_target : Input → Reservation → Reassignment → Bool
unfolding same_target
is_exact_target mapping operation r =
    text_eq mapping.project_id r.target_project_id
    && elim r.target [ none ↦ false | some t ↦ same_target operation.intent t ]

-- The two checks of the project, on the reassignment that is awaited.
check_project : Reservation → Input → Option Record → Option Reassignment → Result Error (Unit {0})
unfolding is_exact_target
check_project operation mapping none reassignment = ok tt
check_project operation mapping (some r) none =
    throw_if (not (text_eq mapping.project_id r.project_id)) (another_project operation.chat_id)
check_project operation mapping (some r) (some reassignment) =
    throw_if
      (not (text_eq mapping.project_id r.project_id)
        && not (is_exact_target mapping operation reassignment))
      not_exact_target

published : Clock → Reservation → Input → Provisional → Operation
published clock operation mapping reserved = record {
  intent = record {
    id = operation.id;
    kind = prompt;
    ingress_id = operation.ingress_id;
    detail = operation.detail;
    result = some (operation_result turn mapping none);
    acknowledged_successor = none;
  };
  state = complete;
  started_at = reserved.started_at;
  completed_at = some (clock 0);
}

completed : Clock → Provisional → Provisional
completed clock o = record o { state = complete; completed_at = some (clock 0) }

commits : Input → Option Record → Option Reassignment → Option (Record × Reassignment)
commits mapping none reassignment = none
commits mapping (some r) none = none
commits mapping (some r) (some reassignment) =
    if text_eq mapping.project_id reassignment.target_project_id
    then some (r, reassignment)
    else none

commit :
    Encoding
    → Clock
    → Reservation
    → Input
    → Text
    → Provisional
    → Option (Record × Reassignment)
    → Journal
    → Result Error (Journal × Record)
unfolding to_tombstone published completed
commit enc clock operation mapping key reserved (some (r, reassignment)) j = do
  let input : Input = record mapping {
    journal = some (published clock operation mapping reserved ∷ []);
  }
  target ← create_authority_identity (λ n. clock (suc n)) input
  let next : Record = record target {
    reassignment = some (record reassignment {
      state = committed;
      completed_at = some (clock 0);
      source_tombstone = to_tombstone r (clock 0);
    });
  }
  assert_input_identity_fence next.journal (journal_for none)
  ok (
    set_provisional enc key (completed clock reserved) (set_record enc operation.chat_id next j),
    next,
  )
commit enc clock operation mapping key reserved none j = do
  let input : Input = record mapping {
    journal = some (published clock operation mapping reserved ∷ []);
  }
  (j', next) ← store enc (λ n. clock (suc n)) input j
  ok (set_provisional enc key (completed clock reserved) j', next)

-- The provisional operations other than the one under the key.
others : Text → Dict Provisional → Dict Provisional
others key d = filter (λ e. not (text_eq e.0 key)) d

pub publish : Encoding → Clock → Reservation → Input → Journal → Result Error (Journal × Record)
unfolding check_project awaited_of commits commit others
publish enc clock operation mapping j = do
  let r = Dict.get operation.chat_id j.records
  let key = provisional_key operation.chat_id (ingress (name_of operation.intent))
  check_project operation mapping r (awaited_of r)
  reserved ←
      assert_publishable_identity operation (Dict.get key j.provisional) (names_of (journal_for r))
        (provisional_names (others key j.provisional))
  commit enc clock operation mapping key reserved (commits mapping r (awaited_of r)) j
