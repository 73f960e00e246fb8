-- ===== src/Prelude/Pigeonhole.antt =====
-- Distinct keys of a dictionary are no more than its entries.
use Prim.Native.Nat.{◌+◌, ◌≤◌}
use mathlib.Core.Path.{◌≡◌}
use mathlib.Core.Bool.{true, false}
use mathlib.Core.List.{List, [], ◌∷◌}
use native.Mathlib.Omega.{arith}
use openwebui_gjc_adapter.Prelude.Tests.{if◌then◌else◌}
use openwebui_gjc_adapter.Prelude.Texts.{Text, text_eq, text_eq_iff, contains}
use openwebui_gjc_adapter.Prelude.Lists.{length, All}
use openwebui_gjc_adapter.Prelude.Dict
use openwebui_gjc_adapter.Prelude.Dict.{Dict}

abbrev pub NoRepeat : List Text → Type 0
NoRepeat [] = Unit
NoRepeat (x ∷ xs) = (contains x xs ≡ false) × NoRepeat xs

module _ {ℓ} {V : Type ℓ} where
  without : Text → Dict V → Dict V
  without k [] = []
  without k ((j, v) ∷ m) = let rest = without k m in if text_eq j k then rest else (j, v) ∷ rest

  length-without-le : (k : Text) (m : Dict V) → length (without k m) ≤ length m
  unfolding without
  length-without-le k [] = omega arith
  length-without-le k ((j, v) ∷ m) = ground (arith, length-without-le k m)

  length-without :
      (k : Text) (m : Dict V) → Dict.has k m ≡ true → length (without k m) + 1 ≤ length m
  unfolding without Dict.get
  length-without k [] h = cc
  length-without k ((j, v) ∷ m) h = ground (arith, length-without k m, length-without-le k m)

  has-without :
      (k j : Text) (m : Dict V)
      → text_eq k j ≡ false
      → Dict.has j m ≡ true
      → Dict.has j (without k m) ≡ true
  unfolding without Dict.get
  has-without k j [] ne h = cc
  has-without k j ((i, v) ∷ m) ne h =
      ground (arith, text_eq_iff i k, text_eq_iff i j, text_eq_iff k j, has-without k j m ne)

  All-without :
      (k : Text) (xs : List Text) (m : Dict V)
      → contains k xs ≡ false
      → All (λ x. Dict.has x m ≡ true) xs
      → All (λ x. Dict.has x (without k m) ≡ true) xs
  unfolding contains
  All-without k [] m f h = tt
  All-without k (x ∷ xs) m f h = (
    has-without k x m (ground (arith, text_eq_iff x k, text_eq_iff k x)) h.0,
    All-without k xs m (ground arith) h.1,
  )

  pub length-le-of_keys :
      (xs : List Text) (m : Dict V)
      → NoRepeat xs
      → All (λ x. Dict.has x m ≡ true) xs
      → length xs ≤ length m
  length-le-of_keys [] m n h = omega arith
  length-le-of_keys (x ∷ xs) m n h = omega (
    arith,
    length-le-of_keys xs (without x m) n.1 (All-without x xs m n.0 h.1),
    length-without x m h.0,
  )
