-- ===== src/Metadata/Lineage.antt =====
-- The text that a lineage hash is taken of determines the parts.
use mathlib.Core.List.{append_assoc}
use openwebui_gjc_adapter.Prelude.{
  ℕ, zero, suc, ◌+◌, ◌-◌, ◌*◌, ◌/◌, ◌<◌, ◌≡◌, refl, sym, ap, ◌∙◌, ◌&&◌, List, [], ◌∷◌, ◌++◌, Text,
  arith, ltb, leb, if◌then◌else◌, length, length-append, Bool-cases, inl, inr,
}
use openwebui_gjc_adapter.Metadata.{decimal_on, decimal, lineage_text}

-- Reads digits into a number, up to the first other character.
read_number : ℕ → Text → ℕ × Text
read_number n [] = (n, [])
read_number n (c ∷ s) =
    let more = read_number (n * 10 + (c - 48)) s in
    if leb 48 c && leb c 57 then more else (n, c ∷ s)

read_number-decimal_on :
    (f n : ℕ) (s : Text) → n < f → read_number 0 (decimal_on f n ++ s) ≡ read_number n s
unfolding decimal_on
read_number-decimal_on zero n s h = absurd (omega arith)
read_number-decimal_on (suc f) n s h = elim (Bool-cases (ltb n 10)) [
  | inl small ↦ rw small (unfold read_number in ground arith)
  | inr large ↦
      rw (large, append_assoc)
        (read_number-decimal_on f (n / 10) _ (ground arith) ∙ (unfold read_number in ground arith))
]

read_number-decimal : (n : ℕ) (s : Text) → read_number 0 (decimal n ++ (58 ∷ s)) ≡ (n, 58 ∷ s)
unfolding decimal read_number
read_number-decimal n s = read_number-decimal_on (n + 1) n (58 ∷ s) (omega arith)

number_pair :
    {m n : ℕ} {s t : Text} → ◌≡◌ {A = ℕ × Text} (m, 58 ∷ s) (n, 58 ∷ t) → (m ≡ n) × (s ≡ t)
number_pair h = (cc, cc)

-- The number and the text after it, up to the colon.
pub decimal-injective :
    (m n : ℕ) (s t : Text) → decimal m ++ (58 ∷ s) ≡ decimal n ++ (58 ∷ t) → (m ≡ n) × (s ≡ t)
decimal-injective m n s t h =
    let numbers = sym (read_number-decimal m s) ∙ ap (read_number 0) h ∙ read_number-decimal n t in
    number_pair numbers

-- A number before a closing bracket is determined.
pub decimal_bracket-injective : (m n : ℕ) → decimal m ++ (41 ∷ []) ≡ decimal n ++ (41 ∷ []) → m ≡ n
unfolding decimal read_number
decimal_bracket-injective m n h =
    let numbers =
      sym (read_number-decimal_on (m + 1) m (41 ∷ []) (omega arith))
      ∙ ap (read_number 0) h
      ∙ read_number-decimal_on (n + 1) n (41 ∷ []) (omega arith) in
    ap (λ r. r.0) numbers

pub append-injective : (p q s t : Text) → length p ≡ length q → p ++ s ≡ q ++ t → (p ≡ q) × (s ≡ t)
append-injective [] [] s t e h = (refl, h)
append-injective [] (d ∷ q) s t e h = absurd (omega arith)
append-injective (c ∷ p) [] s t e h = absurd (omega arith)
append-injective (c ∷ p) (d ∷ q) s t e h =
    let parts = append-injective p q s t (omega arith) (cc) in (cc parts.0, parts.1)

empty-not-decimal : (n : ℕ) (s : Text) → ¬ ([] ≡ decimal n ++ (58 ∷ s))
empty-not-decimal n s h = omega (arith, ap length h, length-append (decimal n) (58 ∷ s))

-- Two lists of parts for which the hasher of a lineage is given the same text are the same list.
pub lineage_text-injective : (xs ys : List Text) → lineage_text xs ≡ lineage_text ys → xs ≡ ys
unfolding lineage_text
lineage_text-injective [] [] h = refl
lineage_text-injective [] (y ∷ ys) h = absurd (empty-not-decimal (length y) _ h)
lineage_text-injective (x ∷ xs) [] h = absurd (empty-not-decimal (length x) _ (sym h))
lineage_text-injective (x ∷ xs) (y ∷ ys) h =
    let lengths = decimal-injective (length x) (length y) _ _ h in
    let parts = append-injective x y _ _ lengths.0 lengths.1 in
    cc (parts.0, lineage_text-injective xs ys (cc (parts.1)))
