-- ===== src/Models/Tests.antt =====
-- The ID of a model with a mark and with a letter that is not ASCII.
use openwebui_gjc_adapter.Models.{Selection, Unicode, high, format_canonical_model_id, level_text}
use openwebui_gjc_adapter.Models.Parse.{parse_canonical_model_id}
use openwebui_gjc_adapter.Uri.{code_points, encode_uri_component}
use openwebui_gjc_adapter.Models.Parse.Canonical.{format-parse}
use openwebui_gjc_adapter.Models.Parse.RoundTrip.{parse-format}
use openwebui_gjc_adapter.Prelude.{
  ◌≡◌, refl, ◌++◌, [], ◌∷◌, some, Text, codes, arith, ok, ◌||◌, ◌==◌, ltb, any, text_eq,
}

abbrev ascii_only : Unicode
ascii_only = record {
  is_control_format_or_space = λ v. ltb v 33 || v == 127;
  is_control_or_space = λ v. ltb v 33 || v == 127;
}

abbrev selection : Selection
selection = record {
  provider = codes "openai";
  model_id = codes "gpt(" ++ (233 ∷ []);
  thinking_level = high;
}

abbrev id : Text
id = codes "gjc/openai/gpt%28%C3%A9:high"

formatted : format_canonical_model_id ascii_only selection ≡ ok id
unfolding format_canonical_model_id code_points any text_eq encode_uri_component level_text
formatted = refl

parse-format_example : parse_canonical_model_id ascii_only id ≡ ok (some selection)
parse-format_example = parse-format ascii_only selection id (ground arith) (ground arith) formatted

format-parse_example : format_canonical_model_id ascii_only selection ≡ ok id
format-parse_example = format-parse ascii_only id selection parse-format_example
