-- ===== src/Models/Policy/Listing.antt =====
-- The models that a request may select (src/live/model-selection-policy.ts: listModels).
use openwebui_gjc_adapter.Models.{Selection, Unicode, level_text}
use openwebui_gjc_adapter.Models.Catalog.{decode_strict_model_catalog}
use openwebui_gjc_adapter.Models.Picker.{ModelEntry, ListFailure, build_model_list}
use openwebui_gjc_adapter.Models.Current.{current_selection}
use openwebui_gjc_adapter.Models.Policy.{
  Error, Reader, selection_error, model_catalog_unavailable, list_error, from_models, code_of,
  with_reader, available_provider_ids, is_active,
}
use openwebui_gjc_adapter.Models.Policy
use openwebui_gjc_adapter.Outbox.Document.{Value, Values, string, array, object, no_field, field}
use openwebui_gjc_adapter.Prelude.{
  List, [], ◌∷◌, map, Option, none, some, Text, codes, Result, ok, err, ◌>>=◌, filter,
  if◌then◌else◌,
}

selection_value : Selection → Value
unfolding level_text
selection_value s = object (
    field (codes "provider") (string s.provider) (
      field (codes "modelId") (string s.model_id)
        (field (codes "thinkingLevel") (string (level_text s.thinking_level)) no_field)))

from_list : Result ListFailure (List ModelEntry) → Result Error (List ModelEntry)
from_list (ok entries) = ok entries
from_list (err thrown) = err (list_error thrown)

-- `isCatalogError(error) ? error : …`
kept_catalog : Option Policy.ErrorCode → Error → Error
kept_catalog (some model_catalog_unavailable) thrown = thrown
kept_catalog _ thrown = selection_error model_catalog_unavailable

catalog_error : Error → Error
unfolding code_of kept_catalog
catalog_error thrown = kept_catalog (code_of thrown) thrown

module _ (u : Unicode) where
  list_selections : List Selection → Result Error (List ModelEntry)
  unfolding selection_value from_list
  list_selections selections = from_list (build_model_list u (map selection_value selections))

  list_current : Option (List Text) → Option Selection → Result Error (List ModelEntry)
  unfolding is_active list_selections
  list_current providers none = err (selection_error model_catalog_unavailable)
  list_current providers (some current) =
      if is_active providers current.provider
      then list_selections (current ∷ [])
      else err (selection_error model_catalog_unavailable)

  list_catalog :
      Reader
      → Values
      → Option (List Text)
      → Option (List Selection)
      → Result Error (List ModelEntry)
  unfolding is_active list_selections list_current current_selection
  list_catalog reader raw providers (some catalog) =
      list_selections (filter (λ s. is_active providers s.provider) catalog)
  list_catalog reader raw providers none = do
    state ← reader.state
    list_current providers (current_selection u raw state)

  read_list : Reader → Result Error (List ModelEntry)
  unfolding available_provider_ids list_catalog
  read_list reader = do
    raw ← reader.available_models
    catalog ← from_models (decode_strict_model_catalog u (array raw))
    providers ← available_provider_ids reader catalog
    list_catalog reader raw providers catalog

  pub list_models : Result Error Reader → Result Error (List ModelEntry)
  unfolding with_reader read_list catalog_error
  list_models create = with_reader create read_list catalog_error
