-- ===== src/Models/Policy.antt =====
-- Which model a request may select (src/live/model-selection-policy.ts: resolve).
pub mod Returns
pub mod Resolve
pub mod Listing
mod Tests
use openwebui_gjc_adapter.Uri.{code_points}
use openwebui_gjc_adapter.Models.{
  Level, Selection, Unicode, Failure, thinking_level, has_hex_escape, is_empty, split_slashes,
  some_dots, includes,
}
use openwebui_gjc_adapter.Models.Parse.{
  Classification, alias, canonical, malformed, foreign, classify_gjc_model_id,
}
use openwebui_gjc_adapter.Models.Current.{
  selection_from_state, is_authoritative_current, current_selection,
}
use openwebui_gjc_adapter.Models.Catalog.{level_eq, decode_strict_model_catalog}
use openwebui_gjc_adapter.Models.Picker.{string_property, ListFailure}
use openwebui_gjc_adapter.Outbox.Document.{
  Value, Values, Fields, array, object, no_value, value, read,
}
use openwebui_gjc_adapter.Prelude.{
  Bool, true, false, not, ◌&&◌, ◌||◌, List, [], ◌∷◌, Option, none, some, Text, codes, Result, ok,
  err, ◌>>=◌, ◌>>◌, throw_if, if◌then◌else◌, text_eq, any, contains, is_some,
}

-- The errors of model selection that the policy throws.
pub data ErrorCode : Type 0 where
  model_catalog_unavailable model_selection_invalid_id : ErrorCode
  model_not_found : Text → ErrorCode
  model_selection_not_available model_selection_default_read_failed : ErrorCode
  model_selection_default_unusable : ErrorCode

pub data Error : Type 0 where
  selection_error : ErrorCode → Error
  -- a ModelSelectionCleanupError: the primary error, whose code it has, and that of the cleanup
  cleanup_error : Error → Error → Error
  -- an SdkV3OperationError with its code
  sdk_error : Text → Error
  model_error : Failure → Error
  list_error : ListFailure → Error
  invalid_descriptor : Error
  other_error : Text → Error

-- What the calls of a reader give.
pub record Reader : Type 0 where
  pub available_models : Result Error Values
  pub active_providers : Result Error Values
  pub state : Result Error Value
  pub stop : Result Error (Unit {0})

abbrev from_models : {A : Type 0} → Result Failure A → Result Error A
from_models (ok a) = ok a
from_models (err thrown) = err (model_error thrown)

pub stopped :
    {A : Type 0} → (Error → Error) → Result Error A → Result Error (Unit {0}) → Result Error A
stopped map_error (ok a) (ok u) = ok a
stopped map_error (ok a) (err e) = err e
stopped map_error (err thrown) (ok u) = err (map_error thrown)
stopped map_error (err thrown) (err e) = err (cleanup_error (map_error thrown) e)

-- An error of creating the reader, too, is mapped; then there is nothing to stop.
pub with_reader :
    {A : Type 0}
    → Result Error Reader
    → (Reader → Result Error A)
    → (Error → Error)
    → Result Error A
unfolding stopped
with_reader (err thrown) operation map_error = err (map_error thrown)
with_reader (ok reader) operation map_error = stopped map_error (operation reader) reader.stop

active_provider : Option Text → Option Text → Result Error Text
active_provider (some (c ∷ provider)) (some kind) =
    if text_eq kind (codes "credential") || text_eq kind (codes "credentialless")
    then ok (c ∷ provider)
    else err invalid_descriptor
active_provider _ _ = err invalid_descriptor

active_provider_ids : Values → Result Error (List Text)
unfolding active_provider string_property
active_provider_ids no_value = ok []
active_provider_ids (value v vs) = do
  provider ←
      active_provider (string_property (codes "provider") v)
        (string_property (codes "connectionKind") v)
  providers ← active_provider_ids vs
  ok (provider ∷ providers)

-- The catch: an agent that does not own the operation shows no providers, and all are taken.
unless_not_owned : Bool → Result Error (List Text) → Result Error (Option (List Text))
unless_not_owned has_catalog (ok providers) = ok (some providers)
unless_not_owned true (err (sdk_error code)) =
    if text_eq code (codes "operation_not_session_owned") then ok none else err (sdk_error code)
unless_not_owned has_catalog (err thrown) = err thrown

available_provider_ids : Reader → Option (List Selection) → Result Error (Option (List Text))
unfolding active_provider_ids unless_not_owned
available_provider_ids reader catalog =
    unless_not_owned (is_some catalog) (reader.active_providers >>= active_provider_ids)

-- `activeProviders === undefined || activeProviders.has(provider)`
pub is_active : Option (List Text) → Text → Bool
unfolding contains
is_active none provider = true
is_active (some providers) provider = contains provider providers

pub same_selection : Selection → Selection → Bool
unfolding level_eq
same_selection a b =
    text_eq a.provider b.provider
    && text_eq a.model_id b.model_id
    && level_eq a.thinking_level b.thinking_level

pub is_current : Option (List Text) → Option Selection → Selection → Bool
unfolding is_active same_selection
is_current providers none selection = false
is_current providers (some current) selection =
    is_active providers current.provider && same_selection current selection

some_same : List Selection → Selection → Bool
unfolding same_selection
some_same catalog selection = any (λ candidate. same_selection candidate selection) catalog

-- The code of a ModelSelectionError.
code_of : Error → Option ErrorCode
code_of (selection_error code) = some code
code_of (cleanup_error primary cleanup) = code_of primary
code_of _ = none

-- `isCanonicalResolutionError(error) ? error : …`
kept_canonical : Option ErrorCode → Error → Error
kept_canonical (some model_selection_not_available) thrown = thrown
kept_canonical (some model_catalog_unavailable) thrown = thrown
kept_canonical _ thrown = selection_error model_selection_not_available

canonical_error : Error → Error
unfolding code_of kept_canonical
canonical_error thrown = kept_canonical (code_of thrown) thrown

-- `isDefaultUnusableError(error) ? error : …`
kept_alias : Option ErrorCode → Error → Error
kept_alias (some model_selection_default_unusable) thrown = thrown
kept_alias _ thrown = selection_error model_selection_default_read_failed

alias_error : Error → Error
unfolding code_of kept_alias
alias_error thrown = kept_alias (code_of thrown) thrown

module _ (u : Unicode) where
  canonical_by :
      Reader
      → Selection
      → Values
      → Option (List Text)
      → Option (List Selection)
      → Result Error Selection
  unfolding is_current is_active some_same current_selection
  canonical_by reader selection raw providers none = do
    state ← reader.state
    throw_if (not (is_current providers (current_selection u raw state) selection))
        (selection_error model_catalog_unavailable)
    ok selection
  canonical_by reader selection raw providers (some catalog) = do
    throw_if (not (is_active providers selection.provider) || not (some_same catalog selection))
        (selection_error model_selection_not_available)
    ok selection

  read_canonical : Selection → Reader → Result Error Selection
  unfolding decode_strict_model_catalog available_provider_ids canonical_by
  read_canonical selection reader = do
    raw ← reader.available_models
    catalog ← from_models (decode_strict_model_catalog u (array raw))
    providers ← available_provider_ids reader catalog
    canonical_by reader selection raw providers catalog

  resolve_canonical : Result Error Reader → Selection → Result Error Selection
  unfolding with_reader read_canonical canonical_error
  resolve_canonical create selection = with_reader create (read_canonical selection) canonical_error

  is_in : Values → Option (List Selection) → Selection → Bool
  unfolding is_authoritative_current some_same
  is_in raw none selection = is_authoritative_current raw selection
  is_in raw (some catalog) selection = some_same catalog selection

  usable :
      Values
      → Option (List Text)
      → Option (List Selection)
      → Option Selection
      → Result Error Selection
  unfolding is_active is_in
  usable raw providers catalog none = err (selection_error model_selection_default_unusable)
  usable raw providers catalog (some selection) = do
    throw_if (not (is_active providers selection.provider && is_in raw catalog selection))
        (selection_error model_selection_default_unusable)
    ok selection

  read_alias : Reader → Result Error Selection
  unfolding decode_strict_model_catalog available_provider_ids selection_from_state usable
  read_alias reader = do
    raw ← reader.available_models
    catalog ← from_models (decode_strict_model_catalog u (array raw))
    providers ← available_provider_ids reader catalog
    state ← reader.state
    usable raw providers catalog (selection_from_state u state)

  resolve_alias : Result Error Reader → Result Error Selection
  unfolding with_reader read_alias alias_error
  resolve_alias create = with_reader create read_alias alias_error

  resolve_classified : Result Error Reader → Text → Classification → Result Error Selection
  unfolding resolve_alias resolve_canonical
  resolve_classified create id alias = resolve_alias create
  resolve_classified create id (canonical selection) = resolve_canonical create selection
  resolve_classified create id malformed = err (selection_error model_selection_invalid_id)
  resolve_classified create id foreign = err (selection_error (model_not_found id))

  pub resolve : Result Error Reader → Text → Result Error Selection
  unfolding classify_gjc_model_id resolve_classified
  resolve create id = do
    classified ← from_models (classify_gjc_model_id u id)
    resolve_classified create id classified
