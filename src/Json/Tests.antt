-- ===== src/Json/Tests.antt =====
-- The JSON text of an array of a string that is escaped and of `null`.
use openwebui_gjc_adapter.Json.Injective.{stringify-injective}
use openwebui_gjc_adapter.Prelude.{◌≡◌, refl, List, [], ◌∷◌, Option, none, some, Text}

abbrev array : List (Option Text)
array = some (34 ∷ 10 ∷ []) ∷ none ∷ []

stringify-injective_example : array ≡ array
stringify-injective_example = stringify-injective array array refl
