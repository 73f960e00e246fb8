-- ===== src/Uri/Units.antt =====
-- The code points of a text are written as its code units again.
use openwebui_gjc_adapter.Uri.{is_high, is_low, code_points, utf16}
use openwebui_gjc_adapter.Prelude.{
  ℕ, ◌+◌, ◌-◌, ◌*◌, ◌<◌, ◌≡◌, refl, true, ◌&&◌, List, [], ◌∷◌, ◌++◌, Text, arith, Bool-cases, All,
  inl, inr,
}

-- The code units have 16 bits.
abbrev pub IsText : Text → Type 0
IsText s = All (λ c. c < 0x10000) s

unfoldable pub all_utf16 : List ℕ → Text
unfolding utf16
all_utf16 [] = []
all_utf16 (v ∷ vs) = utf16 v ++ all_utf16 vs

pub utf16-unit : (c : ℕ) → c < 0x10000 → utf16 c ≡ c ∷ []
unfolding utf16
utf16-unit c h = ground arith

utf16-pair :
    (c d : ℕ)
    → (is_high c && is_low d) ≡ true
    → utf16 ((c - 0xD800) * 1024 + (d - 0xDC00) + 0x10000) ≡ c ∷ d ∷ []
unfolding utf16
utf16-pair c d h = ground arith

pub all_utf16-code_points : (s : Text) → IsText s → all_utf16 (code_points s) ≡ s
unfolding all_utf16 code_points
all_utf16-code_points [] h = refl
all_utf16-code_points (c ∷ []) h = simp (utf16-unit c h.0)
all_utf16-code_points (c ∷ d ∷ s) h = elim (Bool-cases (is_high c && is_low d)) [
  | inl e ↦ simp (e, utf16-pair c d e, all_utf16-code_points s h.1.1)
  | inr e ↦ simp (e, utf16-unit c h.0, all_utf16-code_points (d ∷ s) h.1)
]

pub code_points-bound : (s : Text) → IsText s → All (λ v. v < 0x110000) (code_points s)
unfolding code_points
code_points-bound [] h = tt
code_points-bound (c ∷ []) h = (omega (arith, h.0), tt)
code_points-bound (c ∷ d ∷ s) h = elim (Bool-cases (is_high c && is_low d)) [
  | inl e ↦ simp (e) (ground arith, code_points-bound s h.1.1)
  | inr e ↦ simp (e) (omega (arith, h.0), code_points-bound (d ∷ s) h.1)
]
