-- ===== src/Models/Current.antt =====
-- The model that the agent's state tells (src/live/model-selection-policy.ts: selectionFromState,
-- currentSelection and what they use, with normalizeModelSelection of
-- src/gjc/session-operation-codec.ts).
use openwebui_gjc_adapter.Uri.{code_points}
use openwebui_gjc_adapter.Models.{
  Level, Selection, Unicode, thinking_level, has_hex_escape, is_empty, split_slashes, some_dots,
  includes,
}
use openwebui_gjc_adapter.Models.Picker.{string_property}
use openwebui_gjc_adapter.Outbox.Document.{Value, Values, object, no_value, value, read}
use openwebui_gjc_adapter.Prelude.{
  Bool, true, false, not, ◌&&◌, ◌||◌, Option, none, some, Text, codes, if◌then◌else◌, text_eq, any,
  is_some,
}

module _ (u : Unicode) where
  is_safe_model_component : Text → Bool
  unfolding is_empty has_hex_escape some_dots split_slashes
  is_safe_model_component s =
      not (is_empty s)
      && not (any (λ v. u.is_control_or_space v) (code_points s))
      && not (has_hex_escape s)
      && not (some_dots (split_slashes s))

  level_named : Option Text → Option Level
  level_named none = none
  level_named (some s) = thinking_level s

  normalized : Text → Text → Option Level → Option Selection
  normalized provider model_id none = none
  normalized provider model_id (some l) =
      some (record { provider = provider; model_id = model_id; thinking_level = l })

  normalize_model_selection : Option Text → Option Text → Option Text → Option Selection
  unfolding is_safe_model_component level_named normalized
  normalize_model_selection (some provider) (some model_id) level =
      if is_safe_model_component provider
        && not (includes b'/' provider)
        && is_safe_model_component model_id
      then normalized provider model_id (level_named level)
      else none
  normalize_model_selection _ _ level = none

  selection_of_model : Value → Option Value → Option Selection
  unfolding normalize_model_selection string_property
  selection_of_model state (some model) =
      normalize_model_selection (string_property (codes "provider") model)
        (string_property (codes "id") model) (string_property (codes "thinkingLevel") state)
  selection_of_model state none = none

  unfoldable pub selection_from_state : Value → Option Selection
  unfolding selection_of_model read
  selection_from_state (object fields) =
      selection_of_model (object fields) (read (codes "model") fields)
  selection_from_state _ = none

-- A model that tells nothing about reasoning or thinking.
is_bare_model : Value → Bool
unfolding read
is_bare_model (object fields) =
    not (is_some (read (codes "reasoning") fields))
    && not (is_some (read (codes "thinking") fields))
is_bare_model _ = false

all_bare : Values → Bool
unfolding is_bare_model
all_bare no_value = true
all_bare (value v vs) = is_bare_model v && all_bare vs

is_current_only_catalog : Values → Bool
unfolding all_bare
is_current_only_catalog no_value = false
is_current_only_catalog (value v vs) = all_bare (value v vs)

is_text : Option Text → Text → Bool
is_text none t = false
is_text (some s) t = text_eq s t

has_model_identity : Selection → Value → Bool
unfolding is_text string_property
has_model_identity selection v =
    is_text (string_property (codes "provider") v) selection.provider
    && is_text (string_property (codes "id") v) selection.model_id

some_identity : Selection → Values → Bool
unfolding has_model_identity
some_identity selection no_value = false
some_identity selection (value v vs) = has_model_identity selection v || some_identity selection vs

unfoldable pub is_authoritative_current : Values → Selection → Bool
unfolding is_current_only_catalog some_identity
is_authoritative_current raw selection = is_current_only_catalog raw && some_identity selection raw

unfoldable pub if_authoritative : Values → Option Selection → Option Selection
unfolding is_authoritative_current
if_authoritative raw none = none
if_authoritative raw (some selection) =
    if is_authoritative_current raw selection then some selection else none

unfoldable pub current_selection : Unicode → Values → Value → Option Selection
unfolding selection_from_state if_authoritative
current_selection u raw state = if_authoritative raw (selection_from_state u state)
