-- ===== src/Json/Injective.antt =====
-- No two arrays are written alike.
use openwebui_gjc_adapter.Prelude.{
  ℕ, ◌-◌, ◌+◌, ◌*◌, ◌≡◌, refl, sym, ap, ◌∙◌, Bool, false, List, [], ◌∷◌, ◌++◌, Option, none, some,
  Text, arith, ltb, ◌==◌, if◌then◌else◌,
}
use mathlib.Core.List.{append_assoc}
use openwebui_gjc_adapter.Json.{is_high, escape_unit, escape, item, items, stringify}

hex_value : ℕ → ℕ
hex_value c = if ltb c 58 then c - 48 else c - 87

short_escape : ℕ → ℕ
short_escape e =
    if e == 98
    then 8
    else if e == 116
    then 9
    else if e == 110
    then 10
    else if e == 102
    then 12
    else if e == 114
    then 13
    else e

after_backslash : Text → Option (ℕ × Text)
unfolding hex_value short_escape
after_backslash [] = none
after_backslash (e ∷ []) = some (short_escape e, [])
after_backslash (e ∷ a ∷ []) = some (short_escape e, a ∷ [])
after_backslash (e ∷ a ∷ b ∷ []) = some (short_escape e, a ∷ b ∷ [])
after_backslash (e ∷ a ∷ b ∷ c ∷ []) = some (short_escape e, a ∷ b ∷ c ∷ [])
after_backslash (e ∷ a ∷ b ∷ c ∷ d ∷ r) =
    if e == 117
    then some (hex_value a * 4096 + hex_value b * 256 + hex_value c * 16 + hex_value d, r)
    else some (short_escape e, a ∷ b ∷ c ∷ d ∷ r)

-- The code unit that a string's text begins with, and what follows; `none` at the closing quote.
read_unit : Text → Option (ℕ × Text)
unfolding after_backslash
read_unit [] = none
read_unit (c ∷ r) = if c == 34 then none else if c == 92 then after_backslash r else some (c, r)

read_unit-escape_unit :
    (p : Bool) (c : ℕ) (r : Text) → read_unit (escape_unit p c ++ r) ≡ some (c, r)
unfolding read_unit escape_unit
read_unit-escape_unit p c r = ground arith

read_unit-escape :
    (q : Bool) (c : ℕ) (t r : Text)
    → read_unit (escape q (c ∷ t) ++ r) ≡ some (c, escape (is_high c) t ++ r)
unfolding escape
read_unit-escape q c t r = rw append_assoc (read_unit-escape_unit _ c _)

read_unit-quote : (p : Bool) (r : Text) → read_unit (escape p [] ++ (34 ∷ r)) ≡ none
unfolding read_unit escape
read_unit-quote p r = refl

some_pair :
    {c d : ℕ} {s t : Text}
    → ◌≡◌ {A = Option (ℕ × Text)} (some (c, s)) (some (d, t))
    → (c ≡ d) × (s ≡ t)
some_pair h = (cc, cc)

escape-injective :
    (p q : Bool) (s t r r' : Text)
    → escape p s ++ (34 ∷ r) ≡ escape q t ++ (34 ∷ r')
    → (s ≡ t) × (r ≡ r')
escape-injective p q [] [] r r' h = unfold escape in (refl, cc)
escape-injective p q [] (c ∷ t) r r' h =
    cc (ap read_unit h, read_unit-quote p r, read_unit-escape q c t (34 ∷ r'))
escape-injective p q (c ∷ s) [] r r' h =
    cc (ap read_unit h, read_unit-quote q r', read_unit-escape p c s (34 ∷ r))
escape-injective p q (c ∷ s) (d ∷ t) r r' h =
    let heads =
      some_pair (
        sym (read_unit-escape p c s (34 ∷ r))
        ∙ ap read_unit h
        ∙ read_unit-escape q d t (34 ∷ r')) in
    let rest = escape-injective (is_high c) (is_high d) s t r r' heads.1 in
    (cc (heads.0, rest.0), rest.1)

item-injective : (x y : Option Text) (r r' : Text) → item x r ≡ item y r' → (x ≡ y) × (r ≡ r')
unfolding item
item-injective none none r r' h = (refl, cc)
item-injective none (some t) r r' h = ground arith
item-injective (some s) none r r' h = ground arith
item-injective (some s) (some t) r r' h =
    let parts = escape-injective false false s t r r' (cc) in (ap some parts.0, parts.1)

items-injective : (xs ys : List (Option Text)) → items xs ≡ items ys → xs ≡ ys
unfolding items
items-injective [] [] h = refl
items-injective [] (y ∷ ys) h = ground arith
items-injective (x ∷ xs) [] h = ground arith
items-injective (x ∷ xs) (y ∷ ys) h =
    let parts = item-injective x y (items xs) (items ys) (cc) in
    cc (parts.0, items-injective xs ys parts.1)

bracket-not-item : (x : Option Text) (r : Text) → ¬ (93 ∷ [] ≡ item x r)
unfolding item
bracket-not-item none r h = ground arith
bracket-not-item (some s) r h = ground arith

-- Two arrays with the same text are the same array.
pub stringify-injective : (xs ys : List (Option Text)) → stringify xs ≡ stringify ys → xs ≡ ys
unfolding stringify
stringify-injective [] [] h = refl
stringify-injective [] (y ∷ ys) h = absurd (bracket-not-item y (items ys) (cc))
stringify-injective (x ∷ xs) [] h = absurd (bracket-not-item x (items xs) (cc))
stringify-injective (x ∷ xs) (y ∷ ys) h =
    let parts = item-injective x y (items xs) (items ys) (cc) in
    cc (parts.0, items-injective xs ys parts.1)
