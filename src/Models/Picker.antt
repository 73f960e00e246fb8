-- ===== src/Models/Picker.antt =====
-- The list of models that OpenWebUI shows (src/live/models.ts: buildModelList).
pub mod Names
pub mod Formats
mod Tests
use openwebui_gjc_adapter.Metadata.{decimal}
use openwebui_gjc_adapter.Models.{
  Level, Selection, Unicode, Failure, thinking_level, is_safe_component, is_safe_provider,
  format_canonical_model_id, format_model_display_name,
}
use openwebui_gjc_adapter.Models
use openwebui_gjc_adapter.Outbox.Document.{Value, string, object, read}
use openwebui_gjc_adapter.Prelude.{
  ℕ, zero, suc, ◌+◌, Bool, true, false, not, ◌&&◌, List, [], ◌∷◌, ◌++◌, Option, none, some, Text,
  codes, Result, ok, err, ◌>>=◌, ltb, if◌then◌else◌, text_eq, filter, contains, get_or, length,
}
use openwebui_gjc_adapter.Prelude.Dict
use openwebui_gjc_adapter.Prelude.Dict.{Dict}

-- The errors of the functions that are called, and the model's own: the loop has fuel enough.
pub data ListFailure : Type 0 where
  formatting : Failure → ListFailure
  out_of_fuel : ListFailure

-- A string that is a property of an object.
unfoldable pub string_property : Text → Value → Option Text
unfolding read
string_property k (object fields) = elim (read k fields) [ some (string s) ↦ some s | _ ↦ none ]
string_property k _ = none

abbrev level_of : Option Text → Option Level
level_of none = none
level_of (some s) = thinking_level s

pub record Entry : Type 0 where
  pub selection : Selection
  pub id : Text
  pub name : Text

-- An entry of the list; the other fields of one are constants.
pub record ModelEntry : Type 0 where
  pub id : Text
  pub name : Text

-- `new Set(["openai-codex\\u0000codex-auto-review"])`
is_hidden_from_model_picker : Selection → Bool
is_hidden_from_model_picker selection =
    text_eq (selection.provider ++ (0 ∷ selection.model_id))
      (codes "openai-codex" ++ (0 ∷ codes "codex-auto-review"))

module _ (u : Unicode) where
  pub selection_if_safe : Option Text → Option Text → Option Level → List Selection
  unfolding is_safe_provider is_safe_component
  selection_if_safe (some provider) (some model_id) (some l) =
      if is_safe_provider u provider && is_safe_component u model_id
      then record { provider = provider; model_id = model_id; thinking_level = l } ∷ []
      else []
  selection_if_safe _ _ _ = []

  pub decode_normalized_selection : Value → List Selection
  unfolding string_property selection_if_safe
  decode_normalized_selection v =
      selection_if_safe (string_property (codes "provider") v) (string_property (codes "modelId") v)
        (level_of (string_property (codes "thinkingLevel") v))

  -- `.flatMap(decodeNormalizedSelection)`
  pub decode_all : List Value → List Selection
  unfolding decode_normalized_selection
  decode_all [] = []
  decode_all (v ∷ vs) = decode_normalized_selection v ++ decode_all vs

  entry_of : Selection → Result Failure Entry
  unfolding format_canonical_model_id format_model_display_name
  entry_of selection = do
    id ← format_canonical_model_id u selection
    name ← format_model_display_name u selection
    ok (record { selection = selection; id = id; name = name })

  entries_of : List Selection → Result Failure (List Entry)
  unfolding entry_of
  entries_of [] = ok []
  entries_of (selection ∷ selections) = do
    e ← entry_of selection
    es ← entries_of selections
    ok (e ∷ es)

count_names : List Entry → Dict ℕ → Dict ℕ
unfolding Dict.get Dict.set
count_names [] counts = counts
count_names (e ∷ es) counts =
    count_names es (Dict.set e.name (get_or (Dict.get e.name counts) 0 + 1) counts)

unfoldable pub numbered : Text → ℕ → Text
unfolding decimal
numbered id suffix = id ++ (codes " (" ++ (decimal suffix ++ codes ")"))

-- `while (emittedNames.has(name))`
unused_name : ℕ → List Text → Text → ℕ → Text → Result ListFailure Text
unfolding numbered contains
unused_name zero emitted id suffix name = if contains name emitted then err out_of_fuel else ok name
unused_name (suc fuel) emitted id suffix name =
    let more = unused_name fuel emitted id (suffix + 1) (numbered id suffix) in
    if contains name emitted then more else ok name

first_name : Dict ℕ → Entry → Text
unfolding Dict.get
first_name counts e =
    if ltb 1 (get_or (Dict.get e.name counts) 0)
      && not (text_eq e.selection.provider (codes "openai-codex"))
    then e.id
    else e.name

name_of : Dict ℕ → List Text → Entry → Result ListFailure Text
unfolding unused_name first_name contains
name_of counts emitted e =
    let name = first_name counts e in
    unused_name (length emitted + 1) emitted e.id 2 (if contains name emitted then e.id else name)

pub list_entries : Dict ℕ → List Text → List Entry → Result ListFailure (List ModelEntry)
unfolding name_of
list_entries counts emitted [] = ok []
list_entries counts emitted (e ∷ es) = do
  name ← name_of counts emitted e
  rest ← list_entries counts (name ∷ emitted) es
  ok (record { id = e.id; name = name } ∷ rest)

list_formatted : Result Failure (List Entry) → Result ListFailure (List ModelEntry)
unfolding list_entries count_names
list_formatted (err thrown) = err (formatting thrown)
list_formatted (ok entries) = list_entries (count_names entries []) [] entries

module _ (u : Unicode) where
  -- The selections of the input that are shown.
  pub shown_selections : List Value → List Selection
  unfolding decode_all is_hidden_from_model_picker
  shown_selections input = filter (λ s. not (is_hidden_from_model_picker s)) (decode_all u input)

  pub build_model_list : List Value → Result ListFailure (List ModelEntry)
  unfolding shown_selections entries_of list_formatted
  build_model_list input = list_formatted (entries_of u (shown_selections input))
