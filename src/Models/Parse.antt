-- ===== src/Models/Parse.antt =====
-- How the ID of a model is read (src/live/models.ts: parseCanonicalModelId, classifyGjcModelId and
-- normalizeOpenWebUIModelId).
pub mod Canonical
pub mod Classified
pub mod Encoded
pub mod RoundTrip
use openwebui_gjc_adapter.Metadata.{is_safe}
use openwebui_gjc_adapter.Models.{
  Level, Selection, Unicode, Failure, thinking_level, is_safe_provider, decode_canonical_component,
  split_once, after_prefix,
}
use openwebui_gjc_adapter.Prelude.{
  ℕ, Bool, true, false, not, ◌&&◌, ◌||◌, List, [], ◌∷◌, ◌++◌, Option, none, some, Text, codes,
  Result, ok, err, ◌>>=◌, ◌==◌, if◌then◌else◌, text_eq, all, is_some, get_or,
}

-- The three parts of `gjc/provider/model:level`, the first two of them encoded.
pub record Parts : Type 0 where
  pub provider : Text
  pub model_id : Text
  pub level : Level

with_level : Text → Text → Option Level → Option Parts
with_level provider model_id none = none
with_level provider model_id (some l) =
    some (record { provider = provider; model_id = model_id; level = l })

with_model : Text → Option (Text × Text) → Option Parts
unfolding with_level
with_model provider none = none
with_model provider (some (model_id, level)) = with_level provider model_id (thinking_level level)

with_provider : Option (Text × Text) → Option Parts
unfolding with_model split_once
with_provider none = none
with_provider (some (provider, model_and_thinking)) =
    with_model provider (split_once b':' model_and_thinking)

with_body : Option Text → Option Parts
unfolding with_provider split_once
with_body none = none
with_body (some body) = with_provider (split_once b'/' body)

parts : Text → Option Parts
unfolding with_body after_prefix
parts s = with_body (after_prefix (codes "gjc/") s)

pub data Classification : Type 0 where
  alias : Classification
  canonical : Selection → Classification
  malformed : Classification
  foreign : Classification

classify_parsed : Text → Option Selection → Classification
unfolding after_prefix
classify_parsed s (some selection) = canonical selection
classify_parsed s none = if is_some (after_prefix (codes "gjc") s) then malformed else foreign

module _ (u : Unicode) where
  selection_of : Option Text → Option Text → Level → Option Selection
  unfolding is_safe_provider
  selection_of none model_id l = none
  selection_of (some provider) none l = none
  selection_of (some provider) (some model_id) l =
      if is_safe_provider u provider
      then some (record { provider = provider; model_id = model_id; thinking_level = l })
      else none

  decode_parts : Option Parts → Result Failure (Option Selection)
  unfolding decode_canonical_component selection_of
  decode_parts none = ok none
  decode_parts (some p) = do
    provider ← decode_canonical_component u p.provider
    model_id ← decode_canonical_component u p.model_id
    ok (selection_of provider model_id p.level)

  pub parse_canonical_model_id : Text → Result Failure (Option Selection)
  unfolding parts decode_parts
  parse_canonical_model_id s = decode_parts (parts s)

  unfoldable pub classify_gjc_model_id : Text → Result Failure Classification
  unfolding parse_canonical_model_id classify_parsed
  classify_gjc_model_id s =
      if text_eq s (codes "gjc")
      then ok alias
      else (do parsed ← parse_canonical_model_id s; ok (classify_parsed s parsed))

-- `.` does not match the end of a line.
is_line_end : ℕ → Bool
is_line_end c = c == 10 || c == 13 || c == 0x2028 || c == 0x2029

-- `gjc\/.+`
is_upstream : Text → Bool
unfolding after_prefix is_line_end
is_upstream s = elim (after_prefix (codes "gjc/") s) [
  | none ↦ false
  | some [] ↦ false
  | some (c ∷ rest) ↦ all (λ d. not (is_line_end d)) (c ∷ rest)
]

-- What follows `[A-Za-z0-9_-]+\.`, given whether a character of the class was read.
upstream : Bool → Text → Option Text
unfolding is_safe is_upstream
upstream read [] = none
upstream read (c ∷ s) =
    let more = upstream true s in
    if is_safe c then more else if c == b'.' && read && is_upstream s then some s else none

pub normalize_open_web_ui_model_id : Text → Text
unfolding upstream
normalize_open_web_ui_model_id s = get_or (upstream false s) s
