-- ===== src/Outbox.antt =====
-- The projection outbox: src/state/outbox-types.ts and the naming of operations in
-- src/state/metadata.ts. The stores are in the modules below.
pub mod Memory
pub mod Reconciler
pub mod Document
pub mod File
use openwebui_gjc_adapter.Metadata.{Runtime, Readings, create_operation_id}
use openwebui_gjc_adapter.Json.{stringify}
use openwebui_gjc_adapter.Prelude.{
  ℕ, ◌+◌, Bool, true, false, not, ◌&&◌, ◌||◌, List, [], ◌∷◌, ◌++◌, Option, none, some, map, Text,
  codes, ltb, leb, ◌==◌, if◌then◌else◌, text_eq, option_eq, Result, ok, err, ◌>>=◌, ◌>>◌, throw_if,
  length, get_or, trim,
}

pub data Kind : Type 0 where
  folder chat chat_message event session_mapping : Kind

pub data State : Type 0 where
  pending applying applied failed reconcile : State

pub record Operation : Type 0 where
  pub operation_id : Text
  pub principal_id : Option Text
  pub owner_user_id : Text
  pub project_id : Text
  pub chat_id : Text
  pub kind : Kind
  pub state : State
  pub payload_hash : Text
  pub attempts : ℕ
  pub created_at : Text
  pub updated_at : Text
  pub last_error : Option Text

pub record EnqueueInput : Type 0 where
  pub operation_id : Option Text
  pub principal_id : Option Text
  pub owner_user_id : Text
  pub project_id : Text
  pub chat_id : Text
  pub kind : Kind
  pub payload_hash : Text
  pub now : Option ℕ

-- A bare operation ID, or the three parts of an operation's identity.
pub data Reference : Type 0 where
  by_id : Text → Reference
  by_identity : Option Text → Text → Text → Reference

pub data Error : Type 0 where
  invalid_principal_id : Error
  id_conflict : Text → Error
  unknown_operation : Text → Error
  ambiguous_id : Text → Error

-- The message of the error that is thrown.
unfoldable pub error_message : Error → Text
error_message invalid_principal_id =
    codes "Projection operation principal ID must be a non-empty string."
error_message (id_conflict i) = codes "Projection operation ID conflict: " ++ i
error_message (unknown_operation i) = codes "Unknown projection operation: " ++ i
error_message (ambiguous_id i) = codes "Projection operation ID is ambiguous: " ++ i

is_folder : Kind → Bool
is_folder folder = true
is_folder _ = false

is_chat : Kind → Bool
is_chat chat = true
is_chat _ = false

is_chat_message : Kind → Bool
is_chat_message chat_message = true
is_chat_message _ = false

is_event : Kind → Bool
is_event event = true
is_event _ = false

is_session_mapping : Kind → Bool
is_session_mapping session_mapping = true
is_session_mapping _ = false

-- `===` on kinds
unfoldable pub kind_eq : Kind → Kind → Bool
unfolding is_folder is_chat is_chat_message is_event is_session_mapping
kind_eq folder k = is_folder k
kind_eq chat k = is_chat k
kind_eq chat_message k = is_chat_message k
kind_eq event k = is_event k
kind_eq session_mapping k = is_session_mapping k

-- The template `projection-${kind}`.
kind_name : Kind → Text
kind_name folder = codes "folder"
kind_name chat = codes "chat"
kind_name chat_message = codes "chat_message"
kind_name event = codes "event"
kind_name session_mapping = codes "session_mapping"

pub canonical_key : Option Text → Text → Text → Text
canonical_key principal_id chat_id operation_id =
    stringify (principal_id ∷ some chat_id ∷ some operation_id ∷ [])

-- The canonical key of a stored operation.
pub key_of : Operation → Text
unfolding canonical_key
key_of o = canonical_key o.principal_id o.chat_id o.operation_id

is_non_empty_principal_id : Text → Bool
is_non_empty_principal_id value = ltb 0 (length (trim value))

unfoldable pub normalize_principal_id : Option Text → Result Error (Option Text)
unfolding is_non_empty_principal_id
normalize_principal_id none = ok none
normalize_principal_id (some value) =
    if is_non_empty_principal_id value then ok (some (trim value)) else err invalid_principal_id

-- The five fields are compared in turn, and then the principal.
unfoldable pub same_enqueue_fields : Operation → EnqueueInput → Bool
unfolding kind_eq
same_enqueue_fields existing input =
    text_eq existing.owner_user_id input.owner_user_id
    && (text_eq existing.project_id input.project_id
        && (text_eq existing.chat_id input.chat_id
            && (kind_eq existing.kind input.kind
                && text_eq existing.payload_hash input.payload_hash)))

unfoldable pub assert_same_enqueue_identity : Operation → EnqueueInput → Result Error (Unit {0})
unfolding same_enqueue_fields
assert_same_enqueue_identity existing input = do
  throw_if (not (same_enqueue_fields existing input)) (id_conflict existing.operation_id)
  principal_id ← normalize_principal_id input.principal_id
  throw_if (not (option_eq existing.principal_id principal_id)) (id_conflict existing.operation_id)

unfoldable pub to_timestamp : Runtime → Readings → Option ℕ → Text
to_timestamp rt r now = rt.iso (get_or now r.clock)

-- The row that `enqueue` stores.
pub new_operation : Text → Option Text → EnqueueInput → Text → Operation
new_operation operation_id principal_id input timestamp = record {
  operation_id = operation_id;
  principal_id = principal_id;
  owner_user_id = input.owner_user_id;
  project_id = input.project_id;
  chat_id = input.chat_id;
  kind = input.kind;
  state = pending;
  payload_hash = input.payload_hash;
  attempts = 0;
  created_at = timestamp;
  updated_at = timestamp;
  last_error = none;
}

unfoldable pub operation_id_for : Runtime → Readings → EnqueueInput → Text
unfolding kind_name
operation_id_for rt r input =
    get_or input.operation_id
      (create_operation_id rt r (codes "projection-" ++ kind_name input.kind) input.now)
