-- ===== src/Models/Catalog.antt =====
-- The catalog of the agent's models (src/live/models.ts: decodeStrictModelCatalog).
use openwebui_gjc_adapter.Uri.{utf8, code_points}
use openwebui_gjc_adapter.Models.{
  Level, Selection, Unicode, Failure, off, level_text, gjc_thinking_levels, thinking_level,
  is_safe_component, is_safe_provider, format_canonical_model_id,
}
use openwebui_gjc_adapter.Models.Picker.{string_property}
use openwebui_gjc_adapter.Outbox.Document.{
  Value, Values, string, array, object, boolean, no_value, value, read,
}
use openwebui_gjc_adapter.Prelude.{
  ℕ, suc, Bool, true, false, ◌&&◌, List, [], ◌∷◌, ◌++◌, map, Option, none, some, Text, codes,
  Result, ok, ◌>>=◌, ltb, if◌then◌else◌, text_eq, filter, any, get_or,
}
use openwebui_gjc_adapter.Prelude.Dict
use openwebui_gjc_adapter.Prelude.Dict.{Dict}

unfoldable pub level_eq : Level → Level → Bool
unfolding level_text
level_eq a b = text_eq (level_text a) (level_text b)

-- `levels.every(isThinkingLevel)`: the levels, if each is one.
add_level : Option Level → Option (List Level) → Option (List Level)
add_level (some l) (some ls) = some (l ∷ ls)
add_level _ _ = none

level_of_value : Value → Option Level
level_of_value (string s) = thinking_level s
level_of_value _ = none

levels_of : Values → Option (List Level)
unfolding add_level level_of_value
levels_of no_value = some []
levels_of (value v vs) = add_level (level_of_value v) (levels_of vs)

same_levels : List Level → List Level → Bool
unfolding level_eq
same_levels [] [] = true
same_levels [] (b ∷ bs) = false
same_levels (a ∷ rest) [] = false
same_levels (a ∷ rest) (b ∷ bs) = level_eq a b && same_levels rest bs

-- The first level is `off`; there are others exactly if the model reasons.
for_reasoning : Bool → List Level → Option (List Level)
unfolding level_eq
for_reasoning true (l ∷ m ∷ ls) = if level_eq l off then some (l ∷ m ∷ ls) else none
for_reasoning false (l ∷ []) = if level_eq l off then some (l ∷ []) else none
for_reasoning _ _ = none

ordered_levels : Bool → Option (List Level) → Option (List Level)
unfolding same_levels for_reasoning level_eq
ordered_levels reasoning none = none
ordered_levels reasoning (some levels) =
    if same_levels (filter (λ l. any (λ m. level_eq m l) levels) gjc_thinking_levels) levels
    then for_reasoning reasoning levels
    else none

decode_thinking_descriptor : Option Value → Bool → Option (List Level)
unfolding ordered_levels levels_of read
decode_thinking_descriptor (some (object fields)) reasoning =
    elim (read (codes "validLevels") fields) [
      | some (array vs) ↦ ordered_levels reasoning (levels_of vs)
      | _ ↦ none
    ]
decode_thinking_descriptor _ reasoning = none

module _ (u : Unicode) where
  selections_of : Text → Text → Option (List Level) → Option (List Selection)
  selections_of provider model_id none = none
  selections_of provider model_id (some levels) =
      some
        (map (λ l. record { provider = provider; model_id = model_id; thinking_level = l }) levels)

  decode_model : Option Text → Option Text → Option Value → Option Value → Option (List Selection)
  unfolding is_safe_provider is_safe_component selections_of decode_thinking_descriptor
  decode_model (some provider) (some model_id) (some (boolean reasoning)) thinking =
      if is_safe_provider u provider && is_safe_component u model_id
      then selections_of provider model_id (decode_thinking_descriptor thinking reasoning)
      else none
  decode_model _ _ _ thinking = none

  decode_descriptor : Value → Option (List Selection)
  unfolding decode_model string_property read
  decode_descriptor (object fields) =
      decode_model (string_property (codes "provider") (object fields))
        (string_property (codes "id") (object fields)) (read (codes "reasoning") fields)
        (read (codes "thinking") fields)
  decode_descriptor _ = none

  append_decoded : Option (List Selection) → Option (List Selection) → Option (List Selection)
  append_decoded (some xs) (some ys) = some (xs ++ ys)
  append_decoded _ _ = none

  decode_descriptors : Values → Option (List Selection)
  unfolding decode_descriptor append_decoded
  decode_descriptors no_value = some []
  decode_descriptors (value v vs) = append_decoded (decode_descriptor v) (decode_descriptors vs)

  -- `unique.set(formatCanonicalModelId(selection), selection)` for each
  unique_by_id : List Selection → Dict Selection → Result Failure (Dict Selection)
  unfolding format_canonical_model_id Dict.set
  unique_by_id [] m = ok m
  unique_by_id (s ∷ ss) m = do id ← format_canonical_model_id u s; unique_by_id ss (Dict.set id s m)

-- Whether the first of two lists comes before the second, after it, or neither.
pub data Order : Type 0 where
  before same after : Order

compare_bytes : List ℕ → List ℕ → Order
compare_bytes [] [] = same
compare_bytes [] (d ∷ s) = before
compare_bytes (c ∷ r) [] = after
compare_bytes (c ∷ r) (d ∷ s) =
    let rest = compare_bytes r s in if ltb c d then before else if ltb d c then after else rest

bytes_of : List ℕ → List ℕ
unfolding utf8
bytes_of [] = []
bytes_of (v ∷ vs) = utf8 v ++ bytes_of vs

compare_utf8 : Text → Text → Order
unfolding compare_bytes bytes_of code_points
compare_utf8 s t = compare_bytes (bytes_of (code_points s)) (bytes_of (code_points t))

-- `GJC_THINKING_LEVELS.indexOf(level)`
rank_among : List Level → Level → ℕ
unfolding level_eq
rank_among [] l = 0
rank_among (m ∷ ms) l = let rest = suc (rank_among ms l) in if level_eq m l then 0 else rest

compare_ranks : ℕ → ℕ → Order
compare_ranks a b = if ltb a b then before else if ltb b a then after else same

-- `x || y`
or_else : Order → Order → Order
or_else same o = o
or_else before o = before
or_else after o = after

compare_selections : Selection → Selection → Order
unfolding compare_utf8 rank_among compare_ranks or_else
compare_selections a b = or_else (compare_utf8 a.provider b.provider) (
    or_else (compare_utf8 a.model_id b.model_id) (
      compare_ranks (rank_among gjc_thinking_levels a.thinking_level)
        (rank_among gjc_thinking_levels b.thinking_level)))

is_after : Order → Bool
is_after after = true
is_after _ = false

-- `sort`, which is stable
insert_sorted : Selection → List Selection → List Selection
unfolding compare_selections is_after
insert_sorted x [] = x ∷ []
insert_sorted x (y ∷ ys) =
    let rest = insert_sorted x ys in
    if is_after (compare_selections x y) then y ∷ rest else x ∷ y ∷ ys

pub sort_selections : List Selection → List Selection
unfolding insert_sorted
sort_selections [] = []
sort_selections (x ∷ xs) = insert_sorted x (sort_selections xs)

sorted_values : Dict Selection → Option (List Selection)
unfolding sort_selections
sorted_values m = some (sort_selections (Dict.values m))

module _ (u : Unicode) where
  unique_sorted : Option (List Selection) → Result Failure (Option (List Selection))
  unfolding unique_by_id sorted_values
  unique_sorted none = ok none
  unique_sorted (some selections) = do m ← unique_by_id u selections []; ok (sorted_values m)

  unfoldable pub decode_strict_model_catalog : Value → Result Failure (Option (List Selection))
  unfolding unique_sorted decode_descriptors
  decode_strict_model_catalog (array descriptors) = unique_sorted (decode_descriptors u descriptors)
  decode_strict_model_catalog _ = ok none

  decode_model_catalog : Value → Result Failure (List Selection)
  unfolding decode_strict_model_catalog
  decode_model_catalog input = do
    catalog ← decode_strict_model_catalog input
    ok (get_or catalog [])
