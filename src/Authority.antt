-- ===== src/Authority.antt =====
-- The data of the session authority (src/gjc/session-authority-types.ts). Two optional fields are not
-- told apart where one is missing and the other is set to `undefined`.
pub mod Identity
pub mod Codec
pub mod Journal
use openwebui_gjc_adapter.Prelude.{ℕ, Bool, true, false, List, Option, Text}
use openwebui_gjc_adapter.Prelude.Dict.{Dict}

pub data State : Type 0 where
  pending complete uncertain conflict : State

pub data Kind : Type 0 where
  create resume close prompt reply gate branch model thinking : Kind

pub record DescriptorStat : Type 0 where
  pub dev : ℕ
  pub ino : ℕ
  pub size : ℕ
  pub mtime_ms : ℕ

pub record Attachment : Type 0 where
  pub descriptor_path : Text
  pub descriptor_stat : DescriptorStat
  pub payload_digest : Text
  pub generation : ℕ
  pub expected_session_id : Text
  pub expected_cwd : Text
  pub tmux_socket : Option Text
  pub tmux_pane : Option Text
  pub tmux_pane_pid : Option ℕ
  pub tmux_ownership_tag : Option Text
  pub owned_at : Option Text

pub record Successor : Type 0 where
  pub session_id : Text
  pub attachment : Attachment

pub record GateBinding : Type 0 where
  pub gate_id : Text
  pub command_id : Option Text
  pub turn_id : Option Text
  pub session_id : Option Text

pub record ModelSelection : Type 0 where
  pub provider : Text
  pub model_id : Text
  pub thinking_level : Text

-- The payload of an event is kept as its JSON text.
pub record Event : Type 0 where
  pub type : Text
  pub text : Option Text
  pub id : Option Text
  pub payload : Option Text

pub data ResultKind : Type 0 where
  turn control closing : ResultKind

pub record ResultMapping : Type 0 where
  pub chat_id : Text
  pub project_id : Text
  pub session_id : Text
  pub session_file : Option Text
  pub active_leaf : Option Text
  pub raw_frame_cursor : ℕ
  pub event_cursor : ℕ
  pub operation_id : Text
  pub model_selection : Option ModelSelection
  pub attachment : Option Attachment

pub record OperationResult : Type 0 where
  pub kind : ResultKind
  pub assistant_text : Text
  pub events : Option (List Event)
  pub mapping : ResultMapping
  pub correlation : Option (Dict Text)
  pub gate : Option GateBinding

-- What an operation is before it has a state: `Omit<SessionOperation, "state" | "startedAt" | …>`.
pub record Intent : Type 0 where
  pub id : Text
  pub kind : Kind
  pub ingress_id : Option Text
  pub detail : Option Text
  pub result : Option OperationResult
  pub acknowledged_successor : Option Successor

pub record Operation : Type 0 where
  pub intent : Intent
  pub open intent use *
  pub state : State
  pub started_at : Text
  pub completed_at : Option Text

pub record Reservation : Type 0 where
  pub intent : Intent
  pub open intent use *
  pub chat_id : Text
  pub project_id : Text
  pub session_id : Option Text
  pub session_file : Option Text
  pub attachment : Option Attachment

pub record Provisional : Type 0 where
  pub reservation : Reservation
  pub open reservation use *
  pub state : State
  pub started_at : Text
  pub completed_at : Option Text

pub record Header : Type 0 where
  pub chat_id : Text
  pub project_id : Text
  pub session_id : Text

-- What a record and its tombstone have in common.
pub record Source : Type 0 where
  pub chat_id : Text
  pub project_id : Text
  pub session_id : Text
  pub created_at : Text
  pub header : Header
  pub session_file : Option Text
  pub active_leaf : Option Text
  pub raw_frame_cursor : ℕ
  pub event_cursor : ℕ
  pub operation_id : Text
  pub assistant_text : Option Text
  pub model_selection : Option ModelSelection
  pub observations : Option (Dict Text)
  pub attachment : Option Attachment
  pub journal : List Operation

-- A tombstone without its `prior`.
pub record Retired : Type 0 where
  pub source : Source
  pub open source use *
  pub events : Option (List Event)
  pub retired_at : Text

pub data ReassignmentState : Type 0 where
  awaiting rolled_back committed : ReassignmentState

pub record Target : Type 0 where
  pub id : Text
  pub ingress_id : Option Text
  pub kind : Kind
  pub detail : Option Text

-- A tombstone and the chain of its priors is a list; no tombstone is the empty list.
pub record Reassignment : Type 0 where
  pub state : ReassignmentState
  pub source_project_id : Text
  pub target_project_id : Text
  pub started_at : Text
  pub completed_at : Option Text
  pub target : Option Target
  pub source_tombstone : List Retired
  pub prior_tombstone : List Retired

pub record Record : Type 0 where
  pub source : Source
  pub open source use *
  pub events : Option (List Event)
  pub reassignment : Option Reassignment

pub record Input : Type 0 where
  pub chat_id : Text
  pub project_id : Text
  pub session_id : Text
  pub session_file : Option Text
  pub active_leaf : Option Text
  pub raw_frame_cursor : ℕ
  pub event_cursor : ℕ
  pub operation_id : Text
  pub assistant_text : Option Text
  pub events : Option (List Event)
  pub model_selection : Option ModelSelection
  pub observations : Option (Dict Text)
  pub attachment : Option Attachment
  pub reassignment : Option Reassignment
  pub created_at : Option Text
  pub header : Option Header
  pub journal : Option (List Operation)

pub data Error : Type 0 where
  another_project unknown_or_cross_project requires_reconciliation unrelated_reassignment
        unknown_reassignment unknown_authority ingress_conflict provisional_conflict
        unknown_provisional pending_reassignment conflicting_successor unknown_operation
        operation_conflict :
      Text → Error
  not_authorized : Text → Text → Error
  same_projects invalid_target not_exact_target completed_immutable proof_required result_required
        result_unexpected :
      Error
  completed_replay_invalid : Text → Error

-- `===` on kinds
unfoldable pub kind_eq : Kind → Kind → Bool
kind_eq create create = true
kind_eq resume resume = true
kind_eq close close = true
kind_eq prompt prompt = true
kind_eq reply reply = true
kind_eq gate gate = true
kind_eq branch branch = true
kind_eq model model = true
kind_eq thinking thinking = true
kind_eq _ _ = false

abbrev pub is_pending : State → Bool
is_pending pending = true
is_pending _ = false

abbrev pub is_complete : State → Bool
is_complete complete = true
is_complete _ = false

abbrev pub is_uncertain : State → Bool
is_uncertain uncertain = true
is_uncertain _ = false

abbrev pub is_conflict : State → Bool
is_conflict conflict = true
is_conflict _ = false

abbrev pub is_awaiting : ReassignmentState → Bool
is_awaiting awaiting = true
is_awaiting _ = false

abbrev pub is_rolled_back : ReassignmentState → Bool
is_rolled_back rolled_back = true
is_rolled_back _ = false
