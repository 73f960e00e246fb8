-- ===== src/Outbox/Document.antt =====
-- The check of a persisted outbox document (src/state/outbox-types.ts: parsePersistedOutboxDocument).
-- JSON.parse, and the ISO text of the date that a text is read as, are parameters.
mod Loaded
pub mod Written
mod Tests
use openwebui_gjc_adapter.Outbox.{
  Kind, State, Operation, folder, chat, chat_message, event, session_mapping, pending, applying,
  applied, failed, reconcile, key_of, normalize_principal_id,
}
use openwebui_gjc_adapter.Outbox
use openwebui_gjc_adapter.Prelude.{
  ℕ, ◌+◌, Bool, true, false, not, ◌&&◌, ◌||◌, List, [], ◌∷◌, ◌++◌, Option, none, some, Text, codes,
  ltb, leb, ◌==◌, if◌then◌else◌, text_eq, option_eq, Result, ok, err, ◌>>=◌, ◌>>◌, throw_if, length,
  contains,
}

mutual
  pub data Value : Type 0 where
    string : Text → Value
    -- an integer that is not negative
    natural : ℕ → Value
    array : Values → Value
    object : Fields → Value
    boolean : Bool → Value
    -- `null` or another number
    scalar : Value

  pub data Values : Type 0 where
    no_value : Values
    value : Value → Values → Values

  pub data Fields : Type 0 where
    no_field : Fields
    field : Text → Value → Fields → Fields

pub record Host : Type 0 where
  -- the value, or the message of the error that is thrown
  pub json_parse : Text → Result Text Value
  -- `new Date(value).toISOString()`, where `Date.parse(value)` is finite
  pub iso_of : Text → Option Text

pub data Error : Type 0 where
  invalid_json : Text → Error
  invalid_document : Error
  invalid_operation : ℕ → Error
  duplicate_identity : Text → Error

-- `value[key]`, of an object that JSON.parse made
unfoldable pub read : Text → Fields → Option Value
read k no_field = none
read k (field j v fs) = let rest = read k fs in if text_eq j k then some v else rest

has_only_keys : List Text → Fields → Bool
has_only_keys ks no_field = true
has_only_keys ks (field j v fs) = contains j ks && has_only_keys ks fs

-- `keys.some(key => !(key in value))`
lacks_some : List Text → Fields → Bool
unfolding read
lacks_some [] fs = false
lacks_some (k ∷ ks) fs = elim (read k fs) [ none ↦ true | some v ↦ lacks_some ks fs ]

-- The text of a value that is a string and not empty.
non_empty_string : Option Value → Option Text
non_empty_string (some (string [])) = none
non_empty_string (some (string (c ∷ s))) = some (c ∷ s)
non_empty_string _ = none

projection_kind_of : Text → Option Kind
projection_kind_of s =
    if text_eq s (codes "folder")
    then some folder
    else if text_eq s (codes "chat")
    then some chat
    else if text_eq s (codes "chat_message")
    then some chat_message
    else if text_eq s (codes "event")
    then some event
    else if text_eq s (codes "session_mapping")
    then some session_mapping
    else none

projection_kind : Option Value → Option Kind
unfolding projection_kind_of
projection_kind (some (string s)) = projection_kind_of s
projection_kind _ = none

projection_state_of : Text → Option State
projection_state_of s =
    if text_eq s (codes "pending")
    then some pending
    else if text_eq s (codes "applying")
    then some applying
    else if text_eq s (codes "applied")
    then some applied
    else if text_eq s (codes "failed")
    then some failed
    else if text_eq s (codes "reconcile")
    then some reconcile
    else none

projection_state : Option Value → Option State
unfolding projection_state_of
projection_state (some (string s)) = projection_state_of s
projection_state _ = none

-- A safe integer that is not negative.
safe_attempts : Option Value → Option ℕ
safe_attempts (some (natural n)) = if leb n 9007199254740991 then some n else none
safe_attempts _ = none

iso_timestamp : Host → Option Value → Option Text
iso_timestamp host (some (string s)) = if option_eq (host.iso_of s) (some s) then some s else none
iso_timestamp host _ = none

-- The `if` that throws where a field is not of its type.
field_or {ℓ} : {A : Type ℓ} → ℕ → Option A → Result Error A
field_or index none = err (invalid_operation index)
field_or index (some a) = ok a

-- The normalization throws exactly where the principal is blank, which is checked before it.
parsed_principal : ℕ → Option Value → Result Error (Option Text)
parsed_principal index none = ok none
parsed_principal index (some (string s)) = elim (normalize_principal_id (some s)) [
  | ok p ↦ ok p
  | err e ↦ err (invalid_operation index)
]
parsed_principal index (some _) = err (invalid_operation index)

parsed_last_error : ℕ → Option Value → Result Error (Option Text)
parsed_last_error index none = ok none
parsed_last_error index (some (string s)) = ok (some s)
parsed_last_error index (some _) = err (invalid_operation index)

abbrev required_keys : List Text
required_keys =
    codes "operationId"
    ∷ codes "ownerUserId"
    ∷ codes "projectId"
    ∷ codes "chatId"
    ∷ codes "kind"
    ∷ codes "state"
    ∷ codes "payloadHash"
    ∷ codes "attempts"
    ∷ codes "createdAt"
    ∷ codes "updatedAt"
    ∷ []

abbrev optional_keys : List Text
optional_keys = codes "principalId" ∷ codes "lastError" ∷ []

-- The ten fields that are required, of their types.
required_fields : Host → ℕ → Fields → Result Error Operation
unfolding read non_empty_string projection_kind projection_state safe_attempts iso_timestamp
    field_or
required_fields host index fs = do
  operation_id ← field_or index (non_empty_string (read (codes "operationId") fs))
  owner_user_id ← field_or index (non_empty_string (read (codes "ownerUserId") fs))
  project_id ← field_or index (non_empty_string (read (codes "projectId") fs))
  chat_id ← field_or index (non_empty_string (read (codes "chatId") fs))
  payload_hash ← field_or index (non_empty_string (read (codes "payloadHash") fs))
  kind ← field_or index (projection_kind (read (codes "kind") fs))
  state ← field_or index (projection_state (read (codes "state") fs))
  attempts ← field_or index (safe_attempts (read (codes "attempts") fs))
  created_at ← field_or index (iso_timestamp host (read (codes "createdAt") fs))
  updated_at ← field_or index (iso_timestamp host (read (codes "updatedAt") fs))
  ok (record {
    operation_id = operation_id;
    principal_id = none;
    owner_user_id = owner_user_id;
    project_id = project_id;
    chat_id = chat_id;
    kind = kind;
    state = state;
    payload_hash = payload_hash;
    attempts = attempts;
    created_at = created_at;
    updated_at = updated_at;
    last_error = none;
  })

parse_operation_fields : Host → ℕ → Fields → Result Error Operation
unfolding required_fields read parsed_principal parsed_last_error
parse_operation_fields host index fs = do
  operation ← required_fields host index fs
  principal_id ← parsed_principal index (read (codes "principalId") fs)
  last_error ← parsed_last_error index (read (codes "lastError") fs)
  ok (record operation { principal_id = principal_id; last_error = last_error })

-- The `if` on the keys of an operation.
has_wrong_keys : Fields → Bool
unfolding has_only_keys lacks_some
has_wrong_keys fs =
    not (has_only_keys (required_keys ++ optional_keys) fs) || lacks_some required_keys fs

parse_operation : Host → ℕ → Value → Result Error Operation
unfolding has_wrong_keys parse_operation_fields
parse_operation host index (object fs) = do
  throw_if (has_wrong_keys fs) (invalid_operation index)
  parse_operation_fields host index fs
parse_operation host index _ = err (invalid_operation index)

-- The `map` over the operations, with the set of the keys that it has met.
parse_operations : Host → ℕ → List Text → Values → Result Error (List Operation)
unfolding parse_operation
parse_operations host index operation_keys no_value = ok []
parse_operations host index operation_keys (value v vs) = do
  parsed ← parse_operation host index v
  throw_if (contains (key_of parsed) operation_keys) (duplicate_identity parsed.operation_id)
  rest ← parse_operations host (index + 1) (key_of parsed ∷ operation_keys) vs
  ok (parsed ∷ rest)

is_version : Option Value → Bool
is_version (some (natural n)) = n == 1
is_version _ = false

parse_array : Host → Option Value → Result Error (List Operation)
unfolding parse_operations
parse_array host (some (array vs)) = parse_operations host 0 [] vs
parse_array host _ = err invalid_document

-- The `if` on a document's keys and version.
is_other_document : Fields → Bool
unfolding read has_only_keys is_version
is_other_document fs =
    not (has_only_keys (codes "version" ∷ codes "operations" ∷ []) fs)
    || not (is_version (read (codes "version") fs))

parse_document : Host → Value → Result Error (List Operation)
unfolding read is_other_document parse_array
parse_document host (object fs) = do
  throw_if (is_other_document fs) invalid_document
  parse_array host (read (codes "operations") fs)
parse_document host _ = err invalid_document

pub parse_persisted_outbox_document : Host → Text → Result Error (List Operation)
unfolding parse_document
parse_persisted_outbox_document host serialized = elim (host.json_parse serialized) [
  | ok v ↦ parse_document host v
  | err message ↦ err (invalid_json message)
]
