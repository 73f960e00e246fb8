-- ===== src/Models/Policy/Tests.antt =====
-- A model of a catalog that is selected by its ID.
use openwebui_gjc_adapter.Uri.{encode_uri_component, decode_uri_component}
use openwebui_gjc_adapter.Models.{Selection, Unicode, low, level_among}
use openwebui_gjc_adapter.Models.Policy.{Error, Reader, resolve}
use openwebui_gjc_adapter.Models.Policy.Resolve.{Names, Offers, resolve-Offers}
use openwebui_gjc_adapter.Outbox.Document.{
  Value, string, array, object, boolean, scalar, no_value, value, no_field, field,
}
use openwebui_gjc_adapter.Prelude.{
  ◌≡◌, refl, true, codes, Result, ok, ◌||◌, ◌==◌, ltb, text_eq, any, filter,
}

abbrev ascii_only : Unicode
ascii_only = record {
  is_control_format_or_space = λ v. ltb v 33 || v == 127;
  is_control_or_space = λ v. ltb v 33 || v == 127;
}

abbrev model : Value
model = object (
    field (codes "provider") (string (codes "a")) (
      field (codes "id") (string (codes "b")) (
        field (codes "reasoning") (boolean true) (
          field (codes "thinking")
            (object (
              field (codes "validLevels")
                (array (value (string (codes "off")) (value (string (codes "low")) no_value)))
                no_field))
            no_field))))

abbrev provider : Value
provider = object (
    field (codes "provider") (string (codes "a"))
      (field (codes "connectionKind") (string (codes "credential")) no_field))

abbrev reader : Reader
reader = record {
  available_models = ok (value model no_value);
  active_providers = ok (value provider no_value);
  state = ok scalar;
  stop = ok tt;
}

abbrev selection : Selection
selection = record { provider = codes "a"; model_id = codes "b"; thinking_level = low }

resolved : resolve ascii_only (ok reader) (codes "gjc/a/b:low") ≡ ok selection
unfolding resolve text_eq level_among decode_uri_component any encode_uri_component filter
resolved = refl

resolve-Offers_example :
    (r : Reader) × (◌≡◌ {A = Result Error Reader} (ok reader) (ok r))
    × Names ascii_only (codes "gjc/a/b:low") selection
    × (r.stop ≡ ok tt)
    × Offers ascii_only r selection
resolve-Offers_example =
    resolve-Offers ascii_only (ok reader) (codes "gjc/a/b:low") selection resolved
