-- ===== src/Prelude/Trim.antt =====
-- `String.prototype.trim`, and the tests on characters.
use Prim.Native.Nat.{ℕ}
use mathlib.Core.Path.{◌≡◌, refl, ap, ◌∙◌}
use mathlib.Core.Bool.{Bool, true, false, ◌||◌, ◌&&◌}
use mathlib.Core.List.{[], ◌∷◌}
use native.Mathlib.Omega.{arith}
use openwebui_gjc_adapter.Prelude.Tests.{leb, ◌==◌, if◌then◌else◌}
use openwebui_gjc_adapter.Prelude.Texts.{Text}

-- ECMAScript's white space and line terminators.
unfoldable pub is_space : ℕ → Bool
is_space c =
    leb 9 c && leb c 13
    || c == 32
    || c == 160
    || c == 0x1680
    || leb 0x2000 c && leb c 0x200A
    || c == 0x2028
    || c == 0x2029
    || c == 0x202F
    || c == 0x205F
    || c == 0x3000
    || c == 0xFEFF

unfoldable pub trim_start : Text → Text
trim_start [] = []
trim_start (c ∷ s) = let rest = trim_start s in if is_space c then rest else c ∷ s

-- A space is kept if something that is kept follows it.
cons_end : ℕ → Text → Text
cons_end c [] = if is_space c then [] else c ∷ []
cons_end c (d ∷ s) = c ∷ d ∷ s

unfoldable pub trim_end : Text → Text
unfolding cons_end
trim_end [] = []
trim_end (c ∷ s) = cons_end c (trim_end s)

unfoldable pub trim : Text → Text
unfolding trim_start trim_end is_space
trim s = trim_end (trim_start s)

trim_end-cons_end : (c : ℕ) (t : Text) → trim_end t ≡ t → trim_end (cons_end c t) ≡ cons_end c t
unfolding trim_end cons_end
trim_end-cons_end c [] h = ground arith
trim_end-cons_end c (d ∷ t) h = ground arith

trim_end_idem : (s : Text) → trim_end (trim_end s) ≡ trim_end s
unfolding trim_end
trim_end_idem [] = refl
trim_end_idem (c ∷ s) = trim_end-cons_end c (trim_end s) (trim_end_idem s)

abbrev starts_dark : Text → Bool
starts_dark [] = true
starts_dark (c ∷ s) = if is_space c then false else true

trim_start_dark : (s : Text) → starts_dark (trim_start s) ≡ true
unfolding trim_start
trim_start_dark [] = refl
trim_start_dark (c ∷ s) = ground (arith, trim_start_dark s)

trim_start_of_dark : (s : Text) → starts_dark s ≡ true → trim_start s ≡ s
unfolding trim_start
trim_start_of_dark [] h = refl
trim_start_of_dark (c ∷ s) h = ground arith

cons_end_dark : (c : ℕ) (t : Text) → is_space c ≡ false → starts_dark (cons_end c t) ≡ true
unfolding cons_end
cons_end_dark c [] h = ground arith
cons_end_dark c (d ∷ t) h = ground arith

trim_end_dark : (s : Text) → starts_dark s ≡ true → starts_dark (trim_end s) ≡ true
unfolding trim_end
trim_end_dark [] h = refl
trim_end_dark (c ∷ s) h = cons_end_dark c (trim_end s) (ground arith)

pub trim_idem : (s : Text) → trim (trim s) ≡ trim s
unfolding trim
trim_idem s =
    ap trim_end (
      trim_start_of_dark (trim_end (trim_start s))
        (trim_end_dark (trim_start s) (trim_start_dark s)))
    ∙ trim_end_idem (trim_start s)
