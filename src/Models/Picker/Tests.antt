-- ===== src/Models/Picker/Tests.antt =====
-- A list that has a model three times.
use openwebui_gjc_adapter.Models.{Unicode}
use openwebui_gjc_adapter.Models.Picker.{ModelEntry, build_model_list, shown_selections}
use openwebui_gjc_adapter.Models.Picker.Formats.{HaveIds, build_model_list_total}
use openwebui_gjc_adapter.Outbox.Document.{Value, string, object, scalar, no_field, field}
use openwebui_gjc_adapter.Prelude.Pigeonhole.{NoRepeat}
use openwebui_gjc_adapter.Prelude.{◌≡◌, List, [], ◌∷◌, map, codes, ok, ◌||◌, ◌==◌, ltb}

abbrev ascii_only : Unicode
ascii_only = record {
  is_control_format_or_space = λ v. ltb v 33 || v == 127;
  is_control_or_space = λ v. ltb v 33 || v == 127;
}

abbrev model : Value
model = object (
    field (codes "provider") (string (codes "openai")) (
      field (codes "modelId") (string (codes "gpt"))
        (field (codes "thinkingLevel") (string (codes "low")) no_field)))

abbrev input : List Value
input = model ∷ model ∷ scalar ∷ model ∷ []

build_model_list_total_example :
    (listed : List ModelEntry) × (build_model_list ascii_only input ≡ ok listed)
    × HaveIds ascii_only (shown_selections ascii_only input) (map (λ m. m.id) listed)
    × NoRepeat (map (λ m. m.name) listed)
build_model_list_total_example = build_model_list_total ascii_only input
