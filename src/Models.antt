-- ===== src/Models.antt =====
-- The IDs of models (src/live/models.ts: formatCanonicalModelId, parseCanonicalModelId,
-- classifyGjcModelId and what they use).

pub mod Parse
pub mod Picker
pub mod Catalog
pub mod Current
pub mod Policy
mod Tests
use openwebui_gjc_adapter.Uri.{
  UriError, malformed_uri, code_points, is_surrogate, is_extra, percent, unhex,
  encode_uri_component, decode_uri_component,
}
use openwebui_gjc_adapter.Prelude.{
  ℕ, zero, suc, ◌+◌, Bool, true, false, not, ◌&&◌, ◌||◌, List, [], ◌∷◌, ◌++◌, Option, none, some,
  map, Text, codes, Result, ok, err, ◌>>=◌, ◌>>◌, throw_if, leb, ◌==◌, if◌then◌else◌, text_eq,
  option_eq, any, is_some,
}

pub data Level : Type 0 where
  off minimal low medium high xhigh max : Level

pub level_text : Level → Text
level_text off = codes "off"
level_text minimal = codes "minimal"
level_text low = codes "low"
level_text medium = codes "medium"
level_text high = codes "high"
level_text xhigh = codes "xhigh"
level_text max = codes "max"

-- GJC_THINKING_LEVELS
abbrev pub gjc_thinking_levels : List Level
gjc_thinking_levels = off ∷ minimal ∷ low ∷ medium ∷ high ∷ xhigh ∷ max ∷ []

-- The level that a text names, if it is one.
pub level_among : List Level → Text → Option Level
unfolding level_text
level_among [] s = none
level_among (l ∷ ls) s =
    let rest = level_among ls s in if text_eq (level_text l) s then some l else rest

abbrev pub thinking_level : Text → Option Level
thinking_level s = level_among gjc_thinking_levels s

pub record Selection : Type 0 where
  pub provider : Text
  pub model_id : Text
  pub thinking_level : Level

-- The code points that are controls (Cc), format characters (Cf) or white space in Unicode.
pub record Unicode : Type 0 where
  pub is_control_format_or_space : ℕ → Bool
  -- controls and white space only
  pub is_control_or_space : ℕ → Bool

pub data Failure : Type 0 where
  invalid_provider invalid_component invalid_selection uri_error : Failure

-- `HEX_ESCAPE.test(value)`
pub has_hex_escape : Text → Bool
has_hex_escape [] = false
has_hex_escape (c ∷ []) = false
has_hex_escape (c ∷ a ∷ []) = false
has_hex_escape (c ∷ a ∷ b ∷ s) =
    c == 37 && is_some (unhex a) && is_some (unhex b) || has_hex_escape (a ∷ b ∷ s)

pub data Segments : Type 0 where
  one : Text → Segments
  cons : Text → Segments → Segments

add_unit : ℕ → Segments → Segments
add_unit c (one s) = one (c ∷ s)
add_unit c (cons s rest) = cons (c ∷ s) rest

-- `value.split("/")`
split_slashes : Text → Segments
unfolding add_unit
split_slashes [] = one []
split_slashes (c ∷ s) =
    let rest = split_slashes s in if c == b'/' then cons [] rest else add_unit c rest

abbrev is_dots : Text → Bool
is_dots s = text_eq s (codes ".") || text_eq s (codes "..")

some_dots : Segments → Bool
some_dots (one s) = is_dots s
some_dots (cons s rest) = is_dots s || some_dots rest

is_empty : Text → Bool
is_empty [] = true
is_empty (c ∷ s) = false

abbrev pub includes : ℕ → Text → Bool
includes c s = any (λ d. d == c) s

-- `.replace(RFC3986_EXTRA, …)`
pub replace_extra : Text → Text
replace_extra [] = []
replace_extra (c ∷ s) = (if is_extra c then percent c else c ∷ []) ++ replace_extra s

abbrev from_uri : Result UriError Text → Result Failure Text
from_uri (ok s) = ok s
from_uri (err malformed_uri) = err uri_error

pub display_provider_name : Text → Text
display_provider_name provider =
    if text_eq provider (codes "openai-codex") then codes "codex" else provider

-- `null` where the re-encoded text is another one.
same_text : Text → Text → Text → Option Text
same_text encoded s decoded = if text_eq encoded s then some decoded else none

-- A URIError is caught, and every other error is thrown again.
caught : Result Failure (Option Text) → Result Failure (Option Text)
caught (err uri_error) = ok none
caught outcome = outcome

module _ (u : Unicode) where
  pub is_safe_component : Text → Bool
  unfolding is_empty has_hex_escape some_dots split_slashes
  is_safe_component s =
      not (is_empty s)
      && not (any (λ v. u.is_control_format_or_space v || is_surrogate v) (code_points s))
      && not (has_hex_escape s)
      && not (some_dots (split_slashes s))

  pub is_safe_provider : Text → Bool
  unfolding is_safe_component
  is_safe_provider s = is_safe_component s && not (includes b'/' s)

  pub encode_component : Text → Result Failure Text
  unfolding is_safe_component replace_extra
  encode_component s = do
    throw_if (not (is_safe_component s)) invalid_component
    encoded ← from_uri (encode_uri_component s)
    ok (replace_extra encoded)

  pub format_canonical_model_id : Selection → Result Failure Text
  unfolding is_safe_provider encode_component
  format_canonical_model_id selection = do
    throw_if (not (is_safe_provider selection.provider)) invalid_provider
    provider ← encode_component selection.provider
    model_id ← encode_component selection.model_id
    ok (
        codes "gjc/"
        ++ (provider ++ (b'/' ∷ (model_id ++ (b':' ∷ level_text selection.thinking_level)))))

  pub format_model_display_name : Selection → Result Failure Text
  unfolding is_safe_provider is_safe_component display_provider_name
  format_model_display_name selection = do
    throw_if
        (not (is_safe_provider selection.provider) || not (is_safe_component selection.model_id))
        invalid_selection
    ok (
        display_provider_name selection.provider
        ++ (b'/' ∷ (selection.model_id ++ (b':' ∷ level_text selection.thinking_level))))

  decoded_component : Text → Text → Result Failure (Option Text)
  unfolding is_safe_component encode_component same_text
  decoded_component decoded s =
      if not (is_safe_component decoded)
      then ok none
      else (do encoded ← encode_component decoded; ok (same_text encoded s decoded))

  pub decode_canonical_component : Text → Result Failure (Option Text)
  unfolding decoded_component caught
  decode_canonical_component s =
      caught (do decoded ← from_uri (decode_uri_component s); decoded_component decoded s)

-- `indexOf`, where `none` stands for -1.
abbrev pub next_place : Option ℕ → Option ℕ
next_place none = none
next_place (some n) = some (suc n)

pub index_of : ℕ → Text → Option ℕ
index_of c [] = none
index_of c (d ∷ s) = let rest = next_place (index_of c s) in if d == c then some 0 else rest

-- `lastIndexOf`
pub last_index_of : ℕ → Text → Option ℕ
last_index_of c [] = none
last_index_of c (d ∷ s) = elim (last_index_of c s) [
  | some n ↦ some (suc n)
  | none ↦ if d == c then some 0 else none
]

-- `value.slice(0, n)` and `value.slice(n)`
abbrev pub take : ℕ → Text → Text
take zero s = []
take (suc n) [] = []
take (suc n) (c ∷ s) = c ∷ take n s

abbrev pub drop : ℕ → Text → Text
drop zero s = s
drop (suc n) [] = []
drop (suc n) (c ∷ s) = drop n s

abbrev pub same_place : Option ℕ → ℕ → Bool
same_place none n = false
same_place (some m) n = m == n

split_at : ℕ → Option ℕ → Text → Option (Text × Text)
unfolding last_index_of
split_at c none s = none
split_at c (some zero) s = none
split_at c (some (suc n)) s =
    if same_place (last_index_of c s) (suc n)
    then some (take (suc n) s, drop (suc (suc n)) s)
    else none

-- The text before and after a unit, if it occurs once and not at the start.
pub split_once : ℕ → Text → Option (Text × Text)
unfolding index_of split_at
split_once c s = split_at c (index_of c s) s

-- `value.startsWith(prefix)`: what follows the prefix.
pub after_prefix : Text → Text → Option Text
after_prefix [] s = some s
after_prefix (p ∷ ps) [] = none
after_prefix (p ∷ ps) (c ∷ s) = let rest = after_prefix ps s in if c == p then rest else none
