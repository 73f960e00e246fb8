-- ===== src/Metadata/Tests.antt =====
-- A lineage of two parts (src/state/metadata.ts).
use openwebui_gjc_adapter.Metadata.Lineage.{lineage_text-injective}
use openwebui_gjc_adapter.Prelude.{◌≡◌, refl, List, [], ◌∷◌, Text, codes}

abbrev parts : List Text
parts = codes "a:" ∷ codes ";b" ∷ []

lineage_text-injective_example : parts ≡ parts
lineage_text-injective_example = lineage_text-injective parts parts refl
