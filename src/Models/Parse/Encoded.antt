-- ===== src/Models/Parse/Encoded.antt =====
-- What encodeComponent writes: it is decoded to the same text, and has no slash and no colon
-- (src/live/models.ts).
use openwebui_gjc_adapter.Uri.{
  is_surrogate, is_extra, is_unreserved, code_points, utf16, utf8, percent, percent_all, UriError,
  malformed_uri, encode_point, encode_points, encode_uri_component, decode_uri_component,
}
use openwebui_gjc_adapter.Uri.RoundTrip.{
  Decodes, Decodes-nil, Decodes-unit, Decodes-utf8, decode_uri_component-Decodes, one_octet,
}
use openwebui_gjc_adapter.Uri.Units.{
  IsText, utf16-unit, all_utf16, all_utf16-code_points, code_points-bound,
}
use openwebui_gjc_adapter.Models.{
  Unicode, Failure, invalid_component, is_safe_component, replace_extra, from_uri, encode_component,
}
use openwebui_gjc_adapter.Prelude.{
  ℕ, ◌<◌, ◌≡◌, refl, sym, ap, ◌∙◌, subst, Bool, true, false, not, List, [], ◌∷◌, ◌++◌, Text, arith,
  Result, ok, err, ◌>>◌, >>=-eq-ok, throw_if, Bool-cases, All, none, ◌⊎◌, inl, inr,
}
use mathlib.Core.List.{append_assoc}

replace_extra-append : (s t : Text) → replace_extra (s ++ t) ≡ replace_extra s ++ replace_extra t
unfolding replace_extra
replace_extra-append [] t = refl
replace_extra-append (c ∷ s) t = simp (replace_extra-append s t, append_assoc)

replace_extra-percent :
    (b : ℕ) (s : Text) → replace_extra (percent b ++ s) ≡ percent b ++ replace_extra s
unfolding replace_extra
replace_extra-percent b s = ground arith

replace_extra-percent_all : (bs : List ℕ) → replace_extra (percent_all bs) ≡ percent_all bs
unfolding percent_all replace_extra
replace_extra-percent_all [] = refl
replace_extra-percent_all (b ∷ bs) =
    replace_extra-percent b (percent_all bs)
    ∙ ap (λ t. percent b ++ t) (replace_extra-percent_all bs)

unreserved-small : (v : ℕ) → is_unreserved v ≡ true → (v < 0x80) × ¬ (v ≡ 37)
unfolding is_unreserved
unreserved-small v h = ground arith

encode_point-unreserved :
    (v : ℕ) (t : Text) → is_unreserved v ≡ true → encode_point v ≡ ok t → t ≡ v ∷ []
unfolding encode_point
encode_point-unreserved v t h e = ground arith

encode_point-reserved :
    (v : ℕ) (t : Text)
    → is_unreserved v ≡ false
    → encode_point v ≡ ok t
    → (is_surrogate v ≡ false) × (t ≡ percent_all (utf8 v))
unfolding encode_point
encode_point-reserved v t h e = elim (Bool-cases (is_surrogate v)) [
  | inl f ↦ absurd (ground arith)
  | inr f ↦ (f, ground arith)
]

unreserved-Decodes :
    (v : ℕ) (r m : Text)
    → is_unreserved v ≡ true
    → Decodes none r m
    → Decodes none (replace_extra (v ∷ []) ++ r) (utf16 v ++ m)
unfolding replace_extra
unreserved-Decodes v r m h d =
    let small = unreserved-small v h in
    elim (Bool-cases (is_extra v)) [
      | inl e ↦ simp (e) (one_octet v r m small.0 d)
      | inr e ↦ simp (e, utf16-unit v (omega (arith, small.0))) (Decodes-unit v r m small.1 d)
    ]

reserved-Decodes :
    (v : ℕ) (r m : Text)
    → v < 0x110000
    → is_surrogate v ≡ false
    → Decodes none r m
    → Decodes none (replace_extra (percent_all (utf8 v)) ++ r) (utf16 v ++ m)
reserved-Decodes v r m h f d = rw replace_extra-percent_all (Decodes-utf8 v r m h f d)

encode_point-Decodes :
    (v : ℕ) (t r m : Text)
    → v < 0x110000
    → encode_point v ≡ ok t
    → Decodes none r m
    → Decodes none (replace_extra t ++ r) (utf16 v ++ m)
encode_point-Decodes v t r m h e d = elim (Bool-cases (is_unreserved v)) [
  | inl u ↦ rw (encode_point-unreserved v t u e) (unreserved-Decodes v r m u d)
  | inr u ↦ let (f, same) = encode_point-reserved v t u e in rw same (reserved-Decodes v r m h f d)
]

ok_eq : {s t : Text} → ◌≡◌ {A = Result UriError Text} (ok s) (ok t) → s ≡ t
ok_eq h = cc

encode_points-Decodes :
    (vs : List ℕ) (t : Text)
    → All (λ v. v < 0x110000) vs
    → encode_points vs ≡ ok t
    → Decodes none (replace_extra t) (all_utf16 vs)
unfolding encode_points all_utf16
encode_points-Decodes [] t h e = rw (sym (ok_eq e)) (unfold replace_extra in Decodes-nil)
encode_points-Decodes (v ∷ vs) t h e =
    let (text, gave, more) = >>=-eq-ok (encode_point v) _ e in
    let (rest, gave_rest, joins) = >>=-eq-ok (encode_points vs) _ more in
    rw (sym (ok_eq joins), replace_extra-append)
      (encode_point-Decodes v text (replace_extra rest) (all_utf16 vs) h.0 gave
        (encode_points-Decodes vs rest h.1 gave_rest))

-- No unit of the text is the given one.
abbrev pub Avoids : ℕ → Text → Type 0
Avoids c s = All (λ d. ¬ (d ≡ c)) s

pub Avoids-append : (c : ℕ) (s t : Text) → Avoids c s → Avoids c t → Avoids c (s ++ t)
Avoids-append c [] t h g = g
Avoids-append c (d ∷ s) t h g = (h.0, Avoids-append c s t h.1 g)

-- The units that separate the parts of an ID.
abbrev pub IsSeparator : ℕ → Type 0
IsSeparator c = (c ≡ 47) ⊎ (c ≡ 58)

percent-Avoids : (c b : ℕ) → IsSeparator c → Avoids c (percent b)
percent-Avoids c b h = ground arith

percent_all-Avoids : (c : ℕ) (bs : List ℕ) → IsSeparator c → Avoids c (percent_all bs)
unfolding percent_all
percent_all-Avoids c [] h = tt
percent_all-Avoids c (b ∷ bs) h =
    Avoids-append c (percent b) (percent_all bs) (percent-Avoids c b h) (percent_all-Avoids c bs h)

unreserved-Avoids :
    (c v : ℕ) → IsSeparator c → is_unreserved v ≡ true → Avoids c (replace_extra (v ∷ []))
unfolding replace_extra is_unreserved
unreserved-Avoids c v h g = elim (Bool-cases (is_extra v)) [
  | inl e ↦ simp (e) (percent-Avoids c v h)
  | inr e ↦ simp (e) (ground arith, tt)
]

encode_point-Avoids :
    (c v : ℕ) (t : Text) → IsSeparator c → encode_point v ≡ ok t → Avoids c (replace_extra t)
encode_point-Avoids c v t h e = elim (Bool-cases (is_unreserved v)) [
  | inl u ↦ rw (encode_point-unreserved v t u e) (unreserved-Avoids c v h u)
  | inr u ↦
      rw ((encode_point-reserved v t u e).1, replace_extra-percent_all)
        (percent_all-Avoids c (utf8 v) h)
]

encode_points-Avoids :
    (c : ℕ) (vs : List ℕ) (t : Text)
    → IsSeparator c
    → encode_points vs ≡ ok t
    → Avoids c (replace_extra t)
unfolding encode_points
encode_points-Avoids c [] t h e = rw (sym (ok_eq e)) (unfold replace_extra in tt)
encode_points-Avoids c (v ∷ vs) t h e =
    let (text, gave, more) = >>=-eq-ok (encode_point v) _ e in
    let (rest, gave_rest, joins) = >>=-eq-ok (encode_points vs) _ more in
    rw (sym (ok_eq joins), replace_extra-append)
      (Avoids-append c (replace_extra text) (replace_extra rest)
        (encode_point-Avoids c v text h gave) (encode_points-Avoids c vs rest h gave_rest))

from_uri-ok :
    (o : Result UriError Text) (t : Text)
    → ◌≡◌ {A = Result Failure Text} (from_uri o) (ok t)
    → o ≡ ok t
from_uri-ok (ok s) t h = cc
from_uri-ok (err malformed_uri) t h = cc

pub unless_thrown :
    (b : Bool) (outcome : Result Failure Text) (thrown : Failure) (e : Text)
    → (throw_if (not b) thrown >> outcome) ≡ ok e
    → (b ≡ true) × (outcome ≡ ok e)
unless_thrown true outcome thrown e h = (refl, h)
unless_thrown false outcome thrown e h = cc

module _ (u : Unicode) where
  -- A text that is encoded is safe, and its encoding is that of its code points.
  encode_component-points :
      (d e : Text)
      → encode_component u d ≡ ok e
      → (t : Text) × (is_safe_component u d ≡ true)
        × (encode_points (code_points d) ≡ ok t)
        × (e ≡ replace_extra t)
  unfolding encode_component encode_uri_component
  encode_component-points d e h =
      let (safe, rest) = unless_thrown (is_safe_component u d) _ invalid_component e h in
      let (t, gave, same) = >>=-eq-ok (from_uri (encode_uri_component d)) _ rest in
      (t, safe, from_uri-ok _ t gave, cc same)

  pub decode_uri_component-encode_component :
      (d e : Text) → IsText d → encode_component u d ≡ ok e → decode_uri_component e ≡ ok d
  decode_uri_component-encode_component d e h gave =
      let (t, safe, encoded, same) = encode_component-points d e gave in
      rw same (
        decode_uri_component-Decodes (replace_extra t) d (
          subst (λ m. Decodes none (replace_extra t) m) (all_utf16-code_points d h)
            (encode_points-Decodes (code_points d) t (code_points-bound d h) encoded)))

  pub encode_component-safe :
      (d e : Text) → encode_component u d ≡ ok e → is_safe_component u d ≡ true
  encode_component-safe d e gave = (encode_component-points d e gave).1

  pub encode_component-Avoids :
      (c : ℕ) (d e : Text) → IsSeparator c → encode_component u d ≡ ok e → Avoids c e
  encode_component-Avoids c d e h gave =
      let (t, safe, encoded, same) = encode_component-points d e gave in
      rw same (encode_points-Avoids c (code_points d) t h encoded)
