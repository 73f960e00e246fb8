-- ===== src/Outbox/Memory.antt =====
-- The in-memory outbox (src/state/outbox.ts). A method returns the store beside its result, or the
-- error that it threw before anything was written.
pub mod Calls
pub mod Invariant
pub mod Rows
pub mod Enqueue
pub mod Tests
use openwebui_gjc_adapter.Outbox.{
  Kind, State, Operation, EnqueueInput, Reference, Error, pending, applying, applied, failed,
  reconcile, by_id, by_identity, unknown_operation, ambiguous_id, canonical_key,
  normalize_principal_id, assert_same_enqueue_identity, to_timestamp, new_operation,
  operation_id_for,
}
use openwebui_gjc_adapter.Metadata.{Runtime, Readings}
use openwebui_gjc_adapter.Prelude.{
  ℕ, ◌+◌, Bool, true, false, not, ◌||◌, List, [], ◌∷◌, Option, none, some, Text, Result, ok, err,
  ◌>>=◌, ◌>>◌, text_eq, option_eq, filter, map, if◌then◌else◌, is_some,
}
use openwebui_gjc_adapter.Prelude.Dict
use openwebui_gjc_adapter.Prelude.Dict.{Dict}

abbrev pub Store : Type 0
Store = Dict Operation

-- The keys of the rows with an operation ID.
matches : Text → Store → List (Text × Operation)
matches operation_id s = filter (λ e. text_eq e.1.operation_id operation_id) s

only_match : Text → List (Text × Operation) → Result Error (Option Text)
only_match operation_id [] = ok none
only_match operation_id ((k, o) ∷ []) = ok (some k)
only_match operation_id (_ ∷ _ ∷ _) = err (ambiguous_id operation_id)

unfoldable pub resolve_key : Reference → Store → Result Error (Option Text)
unfolding matches only_match
resolve_key (by_identity principal_id chat_id operation_id) s = do
  principal ← normalize_principal_id principal_id
  ok (some (canonical_key principal chat_id operation_id))
resolve_key (by_id operation_id) s = only_match operation_id (matches operation_id s)

reference_id : Reference → Text
reference_id (by_id operation_id) = operation_id
reference_id (by_identity _ _ operation_id) = operation_id

lookup_key : Option Text → Store → Option Operation
lookup_key none s = none
lookup_key (some key) s = Dict.get key s

-- The key of the row and the row.
require_found : Reference → Option Text → Option Operation → Result Error (Text × Operation)
unfolding reference_id
require_found reference (some key) (some operation) = ok (key, operation)
require_found reference _ _ = err (unknown_operation (reference_id reference))

unfoldable pub require_operation : Reference → Store → Result Error (Text × Operation)
unfolding lookup_key require_found
require_operation reference s = do
  key ← resolve_key reference s
  require_found reference key (lookup_key key s)

-- The methods that change one row write into the object that the map holds.
unfoldable pub update :
    Reference → (Operation → Operation) → Store → Result Error (Operation × Store)
update reference change s = do
  (key, operation) ← require_operation reference s
  ok (change operation, Dict.set key (change operation) s)

pub normalized_input : Option Text → EnqueueInput → EnqueueInput
normalized_input principal_id input =
    if option_eq principal_id input.principal_id
    then input
    else record input { principal_id = principal_id }

-- A row that is there must have been enqueued for the same purpose; it is returned as it is.
enqueue_existing : Operation → EnqueueInput → Store → Result Error (Operation × Store)
enqueue_existing existing input s = do assert_same_enqueue_identity existing input; ok (existing, s)

enqueue_new : Text → Operation → Store → Result Error (Operation × Store)
enqueue_new key operation s = ok (operation, Dict.set key operation s)

unfoldable pub enqueue_at :
    Text → Option Operation → Operation → EnqueueInput → Store → Result Error (Operation × Store)
unfolding enqueue_existing enqueue_new
enqueue_at key (some existing) operation input s = enqueue_existing existing input s
enqueue_at key none operation input s = enqueue_new key operation s

unfoldable pub enqueue :
    Runtime → Readings → EnqueueInput → Store → Result Error (Operation × Store)
unfolding normalized_input enqueue_at
enqueue rt r input s = do
  let operation_id = operation_id_for rt r input
  principal_id ← normalize_principal_id input.principal_id
  let key = canonical_key principal_id input.chat_id operation_id
  let operation = new_operation operation_id principal_id input (to_timestamp rt r input.now)
  enqueue_at key (Dict.get key s) operation (normalized_input principal_id input) s

abbrev pub as_applying : Text → Operation → Operation
as_applying timestamp o = record o {
  state = applying;
  attempts = o.attempts + 1;
  updated_at = timestamp;
  last_error = none;
}

abbrev pub as_applied : Text → Operation → Operation
as_applied timestamp o = record o { state = applied; updated_at = timestamp; last_error = none }

abbrev pub as_failed : Text → Text → Operation → Operation
as_failed error timestamp o = record o {
  state = failed;
  updated_at = timestamp;
  last_error = some error;
}

abbrev pub as_reconcile : Text → Operation → Operation
as_reconcile timestamp o = record o { state = reconcile; updated_at = timestamp }

module _ (rt : Runtime) (r : Readings) (reference : Reference) (now : Option ℕ) (s : Store) where
  unfoldable pub mark_applying : Result Error (Operation × Store)
  mark_applying = update reference (as_applying (to_timestamp rt r now)) s

  unfoldable pub mark_applied : Result Error (Operation × Store)
  mark_applied = update reference (as_applied (to_timestamp rt r now)) s

  unfoldable pub mark_failed : Text → Result Error (Operation × Store)
  mark_failed error = update reference (as_failed error (to_timestamp rt r now)) s

  unfoldable pub mark_reconcile : Result Error (Operation × Store)
  mark_reconcile = update reference (as_reconcile (to_timestamp rt r now)) s

-- `state === "pending" || state === "reconcile"`
abbrev pub is_pending_state : State → Bool
is_pending_state pending = true
is_pending_state reconcile = true
is_pending_state _ = false

abbrev pub is_applying_state : State → Bool
is_applying_state applying = true
is_applying_state _ = false

unfoldable pub list_pending : Store → List Operation
list_pending s = filter (λ o. is_pending_state o.state) (Dict.values s)

unfoldable pub list_applying : Store → List Operation
list_applying s = filter (λ o. is_applying_state o.state) (Dict.values s)

pub get : Reference → Store → Result Error (Option Operation)
get reference s = do key ← resolve_key reference s; ok (lookup_key key s)
