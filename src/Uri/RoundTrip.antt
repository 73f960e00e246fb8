-- ===== src/Uri/RoundTrip.antt =====
-- What encodeURIComponent writes is read again.
use openwebui_gjc_adapter.Uri.{
  is_surrogate, utf16, utf8, upper_hex, percent, percent_all, unhex, Token, unit, octet, octet_of,
  prepend, tokens, Pending, pending, first_octet, last_value, next_octet, step, join,
  decode_uri_component,
}
use openwebui_gjc_adapter.Prelude.{
  ℕ, ◌+◌, ◌-◌, ◌*◌, ◌/◌, ◌%◌, ◌≤◌, ◌<◌, ◌≡◌, refl, ap, ◌∙◌, true, false, List, [], ◌∷◌, ◌++◌,
  Option, none, some, Text, arith, ok, ltb, leb, Bool-cases, inl, inr,
}

-- A text that is read as another one, where a sequence of octets may be open.
pub Decodes : Option Pending → Text → Text → Type 0
Decodes p s m = (ts : List Token) × (tokens s ≡ ok ts) × (join p ts ≡ ok m)

unhex-upper_hex : (n : ℕ) → n < 16 → unhex (upper_hex n) ≡ some n
unfolding unhex
unhex-upper_hex n h = ground arith

tokens-percent :
    (b : ℕ) (r : Text) → b < 256 → tokens (percent b ++ r) ≡ prepend (octet b) (tokens r)
unfolding tokens octet_of
tokens-percent b r h =
    simp (unhex-upper_hex (b / 16) (omega arith), unhex-upper_hex (b % 16) (omega arith))
      (ap (λ n. prepend (octet n) (tokens r)) (omega arith))

tokens-plain : (c : ℕ) (r : Text) → ¬ (c ≡ 37) → tokens (c ∷ r) ≡ prepend (unit c) (tokens r)
unfolding tokens
tokens-plain c [] h = ground arith
tokens-plain c (a ∷ []) h = ground arith
tokens-plain c (a ∷ b ∷ r) h = ground arith

first_two :
    (v : ℕ) → v < 0x800 → 0x80 ≤ v → first_octet (0xC0 + v / 64) ≡ ok ([], pending 1 (v / 64) 0x80)
unfolding first_octet
first_two v h g = ground arith

first_three :
    (v : ℕ) → v < 0x10000 → first_octet (0xE0 + v / 4096) ≡ ok ([], pending 2 (v / 4096) 0x800)
unfolding first_octet
first_three v h = ground arith

first_four :
    (v : ℕ)
    → v < 0x110000
    → first_octet (0xF0 + v / 262144) ≡ ok ([], pending 3 (v / 262144) 0x10000)
unfolding first_octet
first_four v h = ground arith

next_more :
    (left value least w : ℕ)
    → w < 64
    → 1 < left
    → next_octet (record { left = left; value = value; least = least }) (0x80 + w)
      ≡ ok ([], pending (left - 1) (value * 64 + w) least)
unfolding next_octet
next_more left value least w h g = ground arith

next_last :
    (value least w : ℕ)
    → w < 64
    → next_octet (record { left = 1; value = value; least = least }) (0x80 + w)
      ≡ last_value least (value * 64 + w)
unfolding next_octet
next_last value least w h = ground arith

leb-true : {a : ℕ} {b : ℕ} → a ≤ b → leb a b ≡ true
leb-true h = ground arith

last_value-utf16 :
    (least v : ℕ)
    → least ≤ v
    → v < 0x110000
    → is_surrogate v ≡ false
    → last_value least v ≡ ok (utf16 v, none)
unfolding last_value
last_value-utf16 least v h g f = simp (f, leb-true h, leb-true {a = v} {b = 0x10FFFF} (omega arith))

join-octet :
    (p p' : Option Pending) (b : ℕ) (text m : Text) (ts : List Token)
    → step p b ≡ ok (text, p')
    → join p' ts ≡ ok m
    → join p (octet b ∷ ts) ≡ ok (text ++ m)
unfolding join
join-octet none p' b text m ts e joins = simp (e, joins)
join-octet (some p) p' b text m ts e joins = simp (e, joins)

Decodes-octet :
    (p p' : Option Pending) (b : ℕ) (text r m : Text)
    → b < 256
    → step p b ≡ ok (text, p')
    → Decodes p' r m
    → Decodes p (percent b ++ r) (text ++ m)
unfolding Decodes
Decodes-octet p p' b text r m h e (ts, reads, joins) = (
  octet b ∷ ts,
  tokens-percent b r h ∙ ap (prepend (octet b)) reads,
  join-octet p p' b text m ts e joins,
)

pub Decodes-unit :
    (c : ℕ) (r m : Text) → ¬ (c ≡ 37) → Decodes none r m → Decodes none (c ∷ r) (c ∷ m)
unfolding Decodes join
Decodes-unit c r m h (ts, reads, joins) =
    (unit c ∷ ts, tokens-plain c r h ∙ ap (prepend (unit c)) reads, simp (joins))

pub Decodes-nil : Decodes none [] []
unfolding Decodes tokens join
Decodes-nil = ([], refl, refl)

first_octet-Decodes :
    (p : Option Pending) (b : ℕ) (text r m : Text)
    → b < 256
    → first_octet b ≡ ok (text, p)
    → Decodes p r m
    → Decodes none (percent b ++ r) (text ++ m)
unfolding step
first_octet-Decodes p b text r m h e d = Decodes-octet none p b text r m h e d

next_octet-Decodes :
    (q : Pending) (p : Option Pending) (b : ℕ) (text r m : Text)
    → b < 256
    → next_octet q b ≡ ok (text, p)
    → Decodes p r m
    → Decodes (some q) (percent b ++ r) (text ++ m)
unfolding step
next_octet-Decodes q p b text r m h e d = Decodes-octet (some q) p b text r m h e d

middle_octet :
    (left a least w : ℕ) (r m : Text)
    → w < 64
    → 1 < left
    → Decodes (pending (left - 1) (a * 64 + w) least) r m
    → Decodes (pending left a least) (percent (0x80 + w) ++ r) m
middle_octet left a least w r m h g d =
    next_octet-Decodes _ _ (0x80 + w) [] r m (omega arith) (next_more left a least w h g) d

last_octet :
    (a least w v : ℕ) (r m : Text)
    → w < 64
    → a * 64 + w ≡ v
    → least ≤ v
    → v < 0x110000
    → is_surrogate v ≡ false
    → Decodes none r m
    → Decodes (pending 1 a least) (percent (0x80 + w) ++ r) (utf16 v ++ m)
last_octet a least w v r m h e g k f d =
    next_octet-Decodes _ _ (0x80 + w) (utf16 v) r m (omega arith)
      (next_last a least w h ∙ ap (last_value least) e ∙ last_value-utf16 least v g k f) d

pub one_octet :
    (v : ℕ) (r m : Text)
    → v < 0x80
    → Decodes none r m
    → Decodes none (percent v ++ r) (utf16 v ++ m)
one_octet v r m h d =
    first_octet-Decodes none v (utf16 v) r m (omega arith)
      (unfold first_octet utf16 in ground arith) d

two_octets :
    (v : ℕ) (r m : Text)
    → 0x80 ≤ v
    → v < 0x800
    → Decodes none r m
    → Decodes none (percent (0xC0 + v / 64) ++ (percent (0x80 + v % 64) ++ r)) (utf16 v ++ m)
two_octets v r m g h d =
    first_octet-Decodes _ (0xC0 + v / 64) [] _ _ (omega arith) (first_two v h g) (
      last_octet (v / 64) 0x80 (v % 64) v r m (omega arith) (omega arith) g (omega arith)
        (ground arith) d)

three_octets :
    (v : ℕ) (r m : Text)
    → 0x800 ≤ v
    → v < 0x10000
    → is_surrogate v ≡ false
    → Decodes none r m
    → Decodes none
        (percent (0xE0 + v / 4096)
          ++ (percent (0x80 + v / 64 % 64) ++ (percent (0x80 + v % 64) ++ r)))
        (utf16 v ++ m)
three_octets v r m g h f d =
    first_octet-Decodes _ (0xE0 + v / 4096) [] _ _ (omega arith) (first_three v h) (
      middle_octet 2 (v / 4096) 0x800 (v / 64 % 64) _ _ (omega arith) (omega arith) (
        last_octet (v / 4096 * 64 + v / 64 % 64) 0x800 (v % 64) v r m (omega arith) (omega arith) g
          (omega arith) f d))

four_octets :
    (v : ℕ) (r m : Text)
    → 0x10000 ≤ v
    → v < 0x110000
    → Decodes none r m
    → Decodes none
        (percent (0xF0 + v / 262144)
          ++ (percent (0x80 + v / 4096 % 64)
              ++ (percent (0x80 + v / 64 % 64) ++ (percent (0x80 + v % 64) ++ r))))
        (utf16 v ++ m)
four_octets v r m g h d =
    first_octet-Decodes _ (0xF0 + v / 262144) [] _ _ (omega arith) (first_four v h) (
      middle_octet 3 (v / 262144) 0x10000 (v / 4096 % 64) _ _ (omega arith) (omega arith) (
        middle_octet 2 (v / 262144 * 64 + v / 4096 % 64) 0x10000 (v / 64 % 64) _ _ (omega arith)
          (omega arith)
          (last_octet ((v / 262144 * 64 + v / 4096 % 64) * 64 + v / 64 % 64) 0x10000 (v % 64) v r m
            (omega arith) (omega arith) g (omega arith) (ground arith) d)))

-- The octets of a code point that is no half of a pair are read as its code units.
pub Decodes-utf8 :
    (v : ℕ) (r m : Text)
    → v < 0x110000
    → is_surrogate v ≡ false
    → Decodes none r m
    → Decodes none (percent_all (utf8 v) ++ r) (utf16 v ++ m)
unfolding utf8 percent_all
Decodes-utf8 v r m h f d = elim (Bool-cases (ltb v 0x80)) [
  | inl e ↦ simp (e) (one_octet v r m (ground arith) d)
  | inr e ↦ elim (Bool-cases (ltb v 0x800)) [
    | inl e' ↦ simp (e, e') (two_octets v r m (ground arith) (ground arith) d)
    | inr e' ↦ elim (Bool-cases (ltb v 0x10000)) [
      | inl e'' ↦ simp (e, e', e'') (three_octets v r m (ground arith) (ground arith) f d)
      | inr e'' ↦ simp (e, e', e'') (four_octets v r m (ground arith) h d)
    ]
  ]
]

pub decode_uri_component-Decodes : (s m : Text) → Decodes none s m → decode_uri_component s ≡ ok m
unfolding Decodes decode_uri_component
decode_uri_component-Decodes s m (ts, reads, joins) = simp (reads, joins)
