-- ===== src/Authority/Codec.antt =====
-- Records made of inputs (src/gjc/session-operation-codec.ts). A clock gives, for each place of a call
-- where the time is read, what is read there.
use openwebui_gjc_adapter.Authority.{
  GateBinding, Header, Input, Operation, OperationResult, Record, ResultKind, Error, closing, turn,
  control, prompt, complete, operation_conflict, requires_reconciliation, is_conflict, is_uncertain,
}
use openwebui_gjc_adapter.Authority.Identity.{name_of, shares}
use openwebui_gjc_adapter.Prelude.{
  ℕ, Bool, false, ◌&&◌, ◌||◌, List, [], ◌∷◌, ◌++◌, Option, none, some, Text, codes, Result, ok, err,
  ◌>>=◌, ◌>>◌, throw_if, text_eq, option_eq, find, get_or, if◌then◌else◌,
}
use openwebui_gjc_adapter.Prelude.Dict.{Dict}

abbrev pub Clock : Type 0
Clock = ℕ → Text

-- `y` where `x` is undefined
abbrev pub or_else {ℓ} : {A : Type ℓ} → Option A → Option A → Option A
or_else none y = y
or_else (some x) y = some x

correlation_of : ResultKind → Option (Dict Text)
correlation_of closing = some ((codes "closeStatus", codes "closed") ∷ [])
correlation_of turn = none
correlation_of control = none

unfoldable pub operation_result : ResultKind → Input → Option GateBinding → OperationResult
unfolding correlation_of
operation_result kind mapping gate = record {
  kind = kind;
  assistant_text = get_or mapping.assistant_text [];
  events = some [];
  mapping = record {
    chat_id = mapping.chat_id;
    project_id = mapping.project_id;
    session_id = mapping.session_id;
    session_file = mapping.session_file;
    active_leaf = mapping.active_leaf;
    raw_frame_cursor = mapping.raw_frame_cursor;
    event_cursor = mapping.event_cursor;
    operation_id = mapping.operation_id;
    model_selection = mapping.model_selection;
    attachment = mapping.attachment;
  };
  correlation = correlation_of kind;
  gate = gate;
}

-- `operation.id === id || operation.ingressId === id`
unfoldable pub is_named : Text → Operation → Bool
is_named id o = text_eq o.id id || option_eq o.ingress_id (some id)

-- An operation of the journal with an identifier of the one to append.
unfoldable pub duplicate_in : Operation → List Operation → Option Operation
unfolding shares
duplicate_in operation journal =
    find (λ c. shares (name_of operation.intent) (name_of c.intent)) journal

unfoldable pub append_operation :
    Operation → Option Operation → List Operation → Result Error (List Operation)
append_operation operation none journal = ok (journal ++ (operation ∷ []))
append_operation operation (some duplicate) journal =
    if text_eq duplicate.id operation.id && option_eq duplicate.ingress_id operation.ingress_id
    then ok journal
    else err (operation_conflict operation.id)

unfoldable pub append_journal : List Operation → List Operation → Result Error (List Operation)
unfolding duplicate_in append_operation
append_journal journal [] = ok journal
append_journal journal (operation ∷ incoming) = do
  journal' ← append_operation operation (duplicate_in operation journal) journal
  append_journal journal' incoming

unfoldable pub implicit_operation : Text → Text → Text → Operation
implicit_operation operation_id started_at now = record {
  intent = record {
    id = operation_id;
    kind = prompt;
    ingress_id = some operation_id;
    detail = none;
    result = none;
    acknowledged_successor = none;
  };
  state = complete;
  started_at = started_at;
  completed_at = some now;
}

unfoldable pub with_implicit : Option Operation → Operation → List Operation → List Operation
with_implicit (some found) operation journal = journal
with_implicit none operation journal = journal ++ (operation ∷ [])

header_of : Input → Header
header_of input = record {
  chat_id = input.chat_id;
  project_id = input.project_id;
  session_id = input.session_id;
}

unfoldable pub create_authority_identity : Clock → Input → Result Error Record
unfolding append_journal is_named implicit_operation with_implicit header_of
create_authority_identity clock input = do
  let created_at = get_or input.created_at (clock 0)
  journal ← append_journal [] (get_or input.journal [])
  let operation = find (λ o. is_named input.operation_id o) journal
  ok (record {
    source = record {
      chat_id = input.chat_id;
      project_id = input.project_id;
      session_id = input.session_id;
      created_at = created_at;
      header = get_or input.header (header_of input);
      session_file = input.session_file;
      active_leaf = input.active_leaf;
      raw_frame_cursor = input.raw_frame_cursor;
      event_cursor = input.event_cursor;
      operation_id = input.operation_id;
      assistant_text = input.assistant_text;
      model_selection = input.model_selection;
      observations = input.observations;
      attachment = input.attachment;
      journal =
          with_implicit operation (implicit_operation input.operation_id created_at (clock 1))
            journal;
    };
    events = input.events;
    reassignment = input.reassignment;
  })

pub is_unsettled : Option Operation → Bool
is_unsettled none = false
is_unsettled (some o) = is_conflict o.state || is_uncertain o.state

-- A field that the input leaves out is kept.
unfoldable pub update_authority_identity : Clock → Input → Record → Result Error Record
unfolding append_journal is_named implicit_operation with_implicit header_of is_unsettled
update_authority_identity clock input existing = do
  journal ← append_journal existing.journal (get_or input.journal [])
  let operation = find (λ o. is_named input.operation_id o) journal
  throw_if (is_unsettled operation) (requires_reconciliation input.operation_id)
  ok (record {
    source = record {
      chat_id = input.chat_id;
      project_id = input.project_id;
      session_id = input.session_id;
      created_at = existing.created_at;
      header = header_of input;
      session_file = or_else input.session_file existing.session_file;
      active_leaf = or_else input.active_leaf existing.active_leaf;
      raw_frame_cursor = input.raw_frame_cursor;
      event_cursor = input.event_cursor;
      operation_id = input.operation_id;
      assistant_text = or_else input.assistant_text existing.assistant_text;
      model_selection = or_else input.model_selection existing.model_selection;
      observations = or_else input.observations existing.observations;
      attachment = or_else input.attachment existing.attachment;
      journal =
          with_implicit operation
            (implicit_operation input.operation_id existing.created_at (clock 0)) journal;
    };
    events = or_else input.events existing.events;
    reassignment = or_else input.reassignment existing.reassignment;
  })
