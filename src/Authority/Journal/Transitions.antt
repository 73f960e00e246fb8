-- ===== src/Authority/Journal/Transitions.antt =====
-- The methods of `SessionAuthorityJournal` that change an operation that is there
-- (src/gjc/session-authority-journal.ts).
pub mod Steps
pub mod Tests
use openwebui_gjc_adapter.Authority.{
  Attachment, Error, Input, Intent, Kind, Operation, OperationResult, Provisional, Reassignment,
  Record, Reservation, Retired, State, Successor, Target, another_project, ingress_conflict,
  requires_reconciliation, conflicting_successor, unknown_operation, completed_immutable,
  result_required, result_unexpected, unknown_provisional, proof_required, pending_reassignment,
  provisional_conflict, not_exact_target, pending, complete, uncertain, conflict, create, branch,
  prompt, turn, control, committed, ResultKind, is_pending, is_complete, is_uncertain, is_conflict,
  is_awaiting, is_rolled_back, kind_eq,
}
use openwebui_gjc_adapter.Authority.Identity.{
  Named, name_of, names_of, ingress, provisional_key, operation_identity, shares,
  assert_reservable_identity, assert_publishable_identity, assert_beginable_identity,
}
use openwebui_gjc_adapter.Authority.Codec.{
  Clock, or_else, is_named, operation_result, create_authority_identity, update_authority_identity,
}
use openwebui_gjc_adapter.Authority.Journal.{
  Encoding, Journal, set_record, set_provisional, journal_for, require, chain_contains_project,
  tombstone_roots, same_text,
}
use openwebui_gjc_adapter.Prelude.{
  ℕ, suc, ◌+◌, Bool, true, false, not, ◌&&◌, ◌||◌, List, [], ◌∷◌, ◌++◌, Option, none, some, Text,
  codes, Result, ok, err, ◌>>=◌, ◌>>◌, throw_if, text_eq, option_eq, find, any, all, filter, get_or,
  is_some, if◌then◌else◌, map,
}
use openwebui_gjc_adapter.Prelude.Dict
use openwebui_gjc_adapter.Prelude.Dict.{Dict}
use openwebui_gjc_adapter.Authority.Journal.Operations.{change_first, with_journal}

may_acknowledge : Text → Operation → Bool
unfolding kind_eq
may_acknowledge operation_hash current =
    (kind_eq current.kind create || kind_eq current.kind branch)
    && ((is_pending current.state || is_uncertain current.state)
        && option_eq current.detail (some operation_hash))

acknowledged : Successor → Operation → Operation
acknowledged successor o = record o {
  intent = record o.intent { acknowledged_successor = some successor };
}

acknowledge_at :
    Encoding
    → Text
    → Text
    → Successor
    → Record
    → Operation
    → Option Successor
    → Journal
    → Result Error (Journal × Operation)
unfolding acknowledged change_first with_journal is_named
acknowledge_at enc chat_id operation_id successor r current (some known) j = do
  throw_if (not (text_eq (enc.successor_json known) (enc.successor_json successor)))
      (conflicting_successor operation_id)
  ok (j, current)
acknowledge_at enc chat_id operation_id successor r current none j =
    let journal = change_first (λ o. is_named operation_id o) (acknowledged successor) r.journal in
    ok (set_record enc chat_id (with_journal journal r) j, acknowledged successor current)

acknowledge_found :
    Encoding
    → Text
    → Text
    → Text
    → Successor
    → Record
    → Option Operation
    → Journal
    → Result Error (Journal × Operation)
unfolding may_acknowledge acknowledge_at
acknowledge_found enc chat_id operation_id operation_hash successor r none j =
    err (requires_reconciliation operation_id)
acknowledge_found enc chat_id operation_id operation_hash successor r (some current) j = do
  throw_if (not (may_acknowledge operation_hash current)) (requires_reconciliation operation_id)
  acknowledge_at enc chat_id operation_id successor r current current.intent.acknowledged_successor
      j

pub acknowledge :
    Encoding → Text → Text → Text → Successor → Journal → Result Error (Journal × Operation)
unfolding acknowledge_found is_named
acknowledge enc chat_id operation_id operation_hash successor j = do
  r ← require chat_id j
  acknowledge_found enc chat_id operation_id operation_hash successor r
      (find (λ o. is_named operation_id o) r.journal) j

is_control : ResultKind → Bool
is_control control = true
is_control _ = false

same_attachment : Encoding → Option Attachment → Attachment → Bool
same_attachment enc none known = false
same_attachment enc (some a) known = text_eq (enc.attachment_json a) (enc.attachment_json known)

-- The completion of an uncertain creation is bound to the successor that was acknowledged for it.
completes_acknowledged :
    Encoding → Operation → Option Text → Option OperationResult → Option Successor → Bool
unfolding is_control same_attachment kind_eq
completes_acknowledged enc o detail none known = false
completes_acknowledged enc o detail (some result) none = false
completes_acknowledged enc o detail (some result) (some known) =
    kind_eq o.kind create
    && (option_eq detail o.detail
        && (is_control result.kind
            && (text_eq result.mapping.operation_id o.id
                && (text_eq result.mapping.session_id known.session_id
                    && (is_some result.mapping.session_file
                        && same_attachment enc result.mapping.attachment known.attachment)))))

pub requires_uncertain_reconciliation :
    Encoding → Operation → State → Option Text → Option OperationResult → Bool
unfolding completes_acknowledged
requires_uncertain_reconciliation enc o state detail result =
    is_uncertain o.state
    && (is_complete state
        && not (completes_acknowledged enc o detail result o.intent.acknowledged_successor))

pub transitioned : Clock → State → Option Text → Option OperationResult → Operation → Operation
transitioned clock state detail result o = record {
  intent = record {
    id = o.id;
    kind = o.kind;
    ingress_id = o.ingress_id;
    detail = or_else detail o.detail;
    result = or_else result o.intent.result;
    acknowledged_successor = if is_complete state then none else o.intent.acknowledged_successor;
  };
  state = state;
  started_at = o.started_at;
  completed_at = if is_complete state then some (clock 0) else o.completed_at;
}

may_transition :
    Encoding
    → Text
    → Operation
    → State
    → Option Text
    → Option OperationResult
    → Result Error (Unit {0})
unfolding requires_uncertain_reconciliation
may_transition enc operation_id current state detail result = do
  throw_if (requires_uncertain_reconciliation enc current state detail result)
      (requires_reconciliation operation_id)
  throw_if (is_complete current.state && not (is_complete state)) completed_immutable
  throw_if (is_complete state && (not (is_some result) && not (is_some current.intent.result)))
      result_required
  throw_if (not (is_complete state) && is_some result) result_unexpected

transition_found :
    Encoding
    → Clock
    → Text
    → Text
    → State
    → Option Text
    → Option OperationResult
    → Record
    → Option Operation
    → Journal
    → Result Error (Journal × Record)
unfolding may_transition transitioned change_first with_journal is_named
transition_found enc clock chat_id operation_id state detail result r none j =
    err (unknown_operation operation_id)
transition_found enc clock chat_id operation_id state detail result r (some current) j = do
  may_transition enc operation_id current state detail result
  let journal =
      change_first (λ o. is_named operation_id o) (transitioned clock state detail result) r.journal
  ok (set_record enc chat_id (with_journal journal r) j, with_journal journal r)

pub transition :
    Encoding
    → Clock
    → Text
    → Text
    → State
    → Option Text
    → Option OperationResult
    → Journal
    → Result Error (Journal × Record)
unfolding transition_found is_named
transition enc clock chat_id operation_id state detail result j = do
  r ← require chat_id j
  transition_found enc clock chat_id operation_id state detail result r
      (find (λ o. is_named operation_id o) r.journal) j

require_provisional : Error → Option Provisional → Result Error Provisional
require_provisional e none = err e
require_provisional e (some o) = ok o

provisional_transitioned : Clock → State → Option Text → Provisional → Provisional
provisional_transitioned clock state detail o = record o {
  reservation = record o.reservation {
    intent = record o.reservation.intent { detail = or_else detail o.detail };
  };
  state = state;
  completed_at = if is_complete state then some (clock 0) else o.completed_at;
}

pub transition_provisional :
    Encoding
    → Clock
    → Text
    → Text
    → State
    → Option Text
    → Journal
    → Result Error (Journal × Provisional)
unfolding require_provisional provisional_transitioned
transition_provisional enc clock chat_id ingress_id state detail j = do
  let key = provisional_key chat_id ingress_id
  current ← require_provisional (unknown_provisional ingress_id) (Dict.get key j.provisional)
  throw_if (is_complete current.state && not (is_complete state)) completed_immutable
  let next = provisional_transitioned clock state detail current
  ok (set_provisional enc key next j, next)

is_owned_pane : Option Attachment → Bool
is_owned_pane none = false
is_owned_pane (some a) =
    is_some a.tmux_socket
    && (is_some a.tmux_pane && (is_some a.tmux_pane_pid && is_some a.tmux_ownership_tag))

attached : Option Text → Option Text → Option Attachment → Provisional → Provisional
attached session_id session_file attachment o = record o {
  reservation = record o.reservation {
    session_id = or_else session_id o.reservation.session_id;
    session_file = or_else session_file o.reservation.session_file;
    attachment = or_else attachment o.reservation.attachment;
  };
}

pub attach :
    Encoding
    → Text
    → Text
    → Option Text
    → Option Text
    → Option Attachment
    → Journal
    → Result Error (Journal × Provisional)
unfolding require_provisional is_owned_pane attached
attach enc chat_id ingress_id session_id session_file attachment j = do
  let key = provisional_key chat_id ingress_id
  current ← require_provisional (requires_reconciliation ingress_id) (Dict.get key j.provisional)
  throw_if (not (is_pending current.state)) (requires_reconciliation ingress_id)
  throw_if (not (is_some session_id && is_owned_pane attachment)) proof_required
  let next = attached session_id session_file attachment current
  ok (set_provisional enc key next j, next)
