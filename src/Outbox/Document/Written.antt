-- ===== src/Outbox/Document/Written.antt =====
-- The value that the file-backed outbox writes (src/state/file-outbox.ts: persist), and its check when
-- it is read again.
use openwebui_gjc_adapter.Outbox.{
  Kind, State, Operation, folder, chat, chat_message, event, session_mapping, pending, applying,
  applied, failed, reconcile, kind_name, key_of, normalize_principal_id,
}
use openwebui_gjc_adapter.Outbox.Document.{
  Host, Value, Values, Fields, string, natural, array, object, no_value, value, no_field, field,
  non_empty_string, projection_kind, projection_state, safe_attempts, iso_timestamp, has_wrong_keys,
  required_fields, parsed_principal, parsed_last_error, parse_operation_fields, parse_operation,
  parse_operations, parse_document, parse_persisted_outbox_document, read,
}
use mathlib.Core.Option
use openwebui_gjc_adapter.Prelude.{
  ◌≡◌, ◌≢◌, refl, ℕ, ◌+◌, ◌≤◌, false, List, [], ◌∷◌, Option, none, some, Text, codes, ok, arith,
  contains, text_eq, text_eq_refl, option_eq, All,
}

-- A state as it is written.
state_name : State → Text
state_name pending = codes "pending"
state_name applying = codes "applying"
state_name applied = codes "applied"
state_name failed = codes "failed"
state_name reconcile = codes "reconcile"

-- `JSON.stringify` leaves a property out that is undefined.
optional_field : Text → Option Text → Fields → Fields
optional_field k none fs = fs
optional_field k (some s) fs = field k (string s) fs

operation_fields : Operation → Option Text → Option Text → Fields
unfolding state_name optional_field kind_name
operation_fields o principal_id last_error = field (codes "operationId") (string o.operation_id) (
    optional_field (codes "principalId") principal_id (
      field (codes "ownerUserId") (string o.owner_user_id) (
        field (codes "projectId") (string o.project_id) (
          field (codes "chatId") (string o.chat_id) (
            field (codes "kind") (string (kind_name o.kind)) (
              field (codes "state") (string (state_name o.state)) (
                field (codes "payloadHash") (string o.payload_hash) (
                  field (codes "attempts") (natural o.attempts) (
                    field (codes "createdAt") (string o.created_at) (
                      field (codes "updatedAt") (string o.updated_at)
                        (optional_field (codes "lastError") last_error no_field)))))))))))

operation_value : Operation → Value
unfolding operation_fields
operation_value o = object (operation_fields o o.principal_id o.last_error)

operation_values : List Operation → Values
unfolding operation_value
operation_values [] = no_value
operation_values (o ∷ os) = value (operation_value o) (operation_values os)

pub document_value : List Operation → Value
unfolding operation_values
document_value os = object (
    field (codes "version") (natural 1)
      (field (codes "operations") (array (operation_values os)) no_field))

-- What the check asks of an operation.
pub record IsStorable (host : Host) (o : Operation) : Type 0 where
  pub operation_id : o.operation_id ≢ []
  pub owner_user_id : o.owner_user_id ≢ []
  pub project_id : o.project_id ≢ []
  pub chat_id : o.chat_id ≢ []
  pub payload_hash : o.payload_hash ≢ []
  pub attempts : o.attempts ≤ 9007199254740991
  pub created_at : host.iso_of o.created_at ≡ some o.created_at
  pub updated_at : host.iso_of o.updated_at ≡ some o.updated_at
  pub normal : normalize_principal_id o.principal_id ≡ ok o.principal_id

non_empty_lem : (s : Text) → s ≢ [] → non_empty_string (some (string s)) ≡ some s
unfolding non_empty_string
non_empty_lem [] h = absurd (h refl)
non_empty_lem (c ∷ s) h = refl

kind-name : (k : Kind) → projection_kind (some (string (kind_name k))) ≡ some k
unfolding projection_kind kind_name text_eq
kind-name folder = refl
kind-name chat = refl
kind-name chat_message = refl
kind-name event = refl
kind-name session_mapping = refl

state-name : (s : State) → projection_state (some (string (state_name s))) ≡ some s
unfolding projection_state state_name text_eq
state-name pending = refl
state-name applying = refl
state-name applied = refl
state-name failed = refl
state-name reconcile = refl

attempts_lem : (n : ℕ) → n ≤ 9007199254740991 → safe_attempts (some (natural n)) ≡ some n
unfolding safe_attempts
attempts_lem n h = ground arith

timestamp_lem :
    (host : Host) (s : Text)
    → host.iso_of s ≡ some s
    → iso_timestamp host (some (string s)) ≡ some s
unfolding iso_timestamp option_eq
timestamp_lem host s h = rw (h, text_eq_refl s)

has_wrong_keys-fields :
    (o : Operation) (p e : Option Text) → has_wrong_keys (operation_fields o p e) ≡ false
unfolding has_wrong_keys operation_fields contains text_eq
has_wrong_keys-fields o none none = refl
has_wrong_keys-fields o none (some e) = refl
has_wrong_keys-fields o (some p) none = refl
has_wrong_keys-fields o (some p) (some e) = refl

-- The two optional fields are not read among the required ones.
required_only :
    (host : Host) (index : ℕ) (o : Operation) (p e : Option Text)
    → required_fields host index (operation_fields o p e)
      ≡ required_fields host index (operation_fields o none none)
unfolding required_fields operation_fields text_eq
required_only host index o none none = refl
required_only host index o none (some e) = refl
required_only host index o (some p) none = refl
required_only host index o (some p) (some e) = refl

read_principal :
    (o : Operation) (p e : Option Text)
    → read (codes "principalId") (operation_fields o p e) ≡ Option.map string p
unfolding read operation_fields text_eq
read_principal o none none = refl
read_principal o none (some e) = refl
read_principal o (some p) e = refl

read_last_error :
    (o : Operation) (p e : Option Text)
    → read (codes "lastError") (operation_fields o p e) ≡ Option.map string e
unfolding read operation_fields text_eq
read_last_error o none none = refl
read_last_error o none (some e) = refl
read_last_error o (some p) none = refl
read_last_error o (some p) (some e) = refl

parsed_principal_lem :
    (index : ℕ) (p : Option Text)
    → normalize_principal_id p ≡ ok p
    → parsed_principal index (Option.map string p) ≡ ok p
unfolding parsed_principal
parsed_principal_lem index none h = refl
parsed_principal_lem index (some s) h = ground (arith, h)

parsed_last_error_lem :
    (index : ℕ) (e : Option Text) → parsed_last_error index (Option.map string e) ≡ ok e
unfolding parsed_last_error
parsed_last_error_lem index none = refl
parsed_last_error_lem index (some s) = refl

module _ (host : Host) (index : ℕ) (o : Operation) (s : IsStorable host o) where
  required_fields_lem :
      required_fields host index (operation_fields o none none)
      ≡ ok (record o { principal_id = none; last_error = none })
  unfolding required_fields operation_fields text_eq
  required_fields_lem = simp (
    non_empty_lem o.operation_id s.operation_id,
    non_empty_lem o.owner_user_id s.owner_user_id,
    non_empty_lem o.project_id s.project_id,
    non_empty_lem o.chat_id s.chat_id,
    non_empty_lem o.payload_hash s.payload_hash,
    kind-name,
    state-name,
    attempts_lem o.attempts s.attempts,
    timestamp_lem host o.created_at s.created_at,
    timestamp_lem host o.updated_at s.updated_at,
  )

  parse_operation-value : parse_operation host index (operation_value o) ≡ ok o
  unfolding parse_operation operation_value parse_operation_fields
  parse_operation-value =
      let p = o.principal_id in
      let e = o.last_error in
      simp (
        has_wrong_keys-fields o p e,
        required_only host index o p e,
        required_fields_lem,
        read_principal o p e,
        read_last_error o p e,
        parsed_principal_lem index p s.normal,
        parsed_last_error_lem index e,
      )

-- No key of an operation stands twice, nor in the list.
abbrev pub AreFresh : List Text → List Operation → Type 0
AreFresh keys [] = Unit
AreFresh keys (o ∷ os) = (contains (key_of o) keys ≡ false) × AreFresh (key_of o ∷ keys) os

parse_operations-values :
    (host : Host) (index : ℕ) (keys : List Text) (os : List Operation)
    → All (IsStorable host) os
    → AreFresh keys os
    → parse_operations host index keys (operation_values os) ≡ ok os
unfolding parse_operations operation_values
parse_operations-values host index keys [] a f = refl
parse_operations-values host index keys (o ∷ os) a f = simp (
  parse_operation-value host index o a.0,
  f.0,
  parse_operations-values host (index + 1) (key_of o ∷ keys) os a.1 f.1,
)

parse_document-value :
    (host : Host) (os : List Operation)
    → All (IsStorable host) os
    → AreFresh [] os
    → parse_document host (document_value os) ≡ ok os
unfolding parse_document document_value contains text_eq
parse_document-value host os a f = parse_operations-values host 0 [] os a f

-- A text that JSON reads as the value of a document is accepted as the operations that it holds.
pub parse-written :
    (host : Host) (text : Text) (os : List Operation)
    → host.json_parse text ≡ ok (document_value os)
    → All (IsStorable host) os
    → AreFresh [] os
    → parse_persisted_outbox_document host text ≡ ok os
unfolding parse_persisted_outbox_document
parse-written host text os j a f =
    rw (j, parse_persisted_outbox_document) (parse_document-value host os a f)
