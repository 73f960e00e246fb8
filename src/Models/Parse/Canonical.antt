-- ===== src/Models/Parse/Canonical.antt =====
-- An ID of a model that is accepted is the one ID of its selection (src/live/models.ts).
use openwebui_gjc_adapter.Models.{
  Level, Selection, Unicode, Failure, level_text, level_among, gjc_thinking_levels, thinking_level,
  is_safe_component, is_safe_provider, encode_component, format_canonical_model_id,
  decode_canonical_component, decoded_component, caught, same_text, from_uri, index_of, split_at,
  split_once, after_prefix, next_place, take, drop, invalid_provider, invalid_component,
  invalid_selection, uri_error,
}
use openwebui_gjc_adapter.Uri.{decode_uri_component}
use openwebui_gjc_adapter.Models.Parse.{
  Parts, with_level, with_model, with_provider, with_body, parts, selection_of, decode_parts,
  parse_canonical_model_id,
}
use openwebui_gjc_adapter.Prelude.{
  ℕ, zero, suc, ◌≡◌, refl, ap, ◌∙◌, Bool, true, false, not, List, [], ◌∷◌, ◌++◌, Option, none, some,
  Text, codes, arith, Result, ok, err, >>=-eq-ok, if◌then◌else◌, text_eq_iff, Bool-cases, inl, inr,
}

next_place_lem : (o : Option ℕ) (n : ℕ) → next_place o ≡ some (suc n) → o ≡ some n
next_place_lem none n h = cc
next_place_lem (some m) n h = cc

next_place_positive : (o : Option ℕ) → ¬ (next_place o ≡ some 0)
next_place_positive none h = cc
next_place_positive (some m) h = cc

index_of-split : (c n : ℕ) (s : Text) → index_of c s ≡ some n → s ≡ take n s ++ (c ∷ drop (suc n) s)
unfolding index_of
index_of-split c n [] h = cc
index_of-split c zero (d ∷ s) h = ground (arith, next_place_positive (index_of c s))
index_of-split c (suc n) (d ∷ s) h =
    ground (arith, next_place_lem (index_of c s) n, index_of-split c n s)

split_at-joins :
    (c : ℕ) (o : Option ℕ) (s a b : Text)
    → index_of c s ≡ o
    → split_at c o s ≡ some (a, b)
    → s ≡ a ++ (c ∷ b)
unfolding split_at
split_at-joins c none s a b e h = cc
split_at-joins c (some zero) s a b e h = cc
split_at-joins c (some (suc n)) s a b e h = ground (arith, index_of-split c (suc n) s e)

split_once-joins : (c : ℕ) (s a b : Text) → split_once c s ≡ some (a, b) → s ≡ a ++ (c ∷ b)
unfolding split_once
split_once-joins c s a b h = split_at-joins c (index_of c s) s a b refl h

after_prefix-joins : (p s r : Text) → after_prefix p s ≡ some r → s ≡ p ++ r
unfolding after_prefix
after_prefix-joins [] s r h = cc
after_prefix-joins (x ∷ p) [] r h = cc
after_prefix-joins (x ∷ p) (c ∷ s) r h = ground (arith, after_prefix-joins p s r)

level_among-text :
    (ls : List Level) (s : Text) (l : Level) → level_among ls s ≡ some l → s ≡ level_text l
unfolding level_among
level_among-text [] s l h = cc
level_among-text (k ∷ ls) s l h =
    ground (arith, text_eq_iff (level_text k) s, level_among-text ls s l)

-- What is read as parts is the parts put together.
abbrev joined : Parts → Text
joined p = p.provider ++ (b'/' ∷ (p.model_id ++ (b':' ∷ level_text p.level)))

with_level-joins :
    (a b s : Text) (o : Option Level) (p : Parts)
    → thinking_level s ≡ o
    → with_level a b o ≡ some p
    → a ++ (b'/' ∷ (b ++ (b':' ∷ s))) ≡ joined p
unfolding with_level
with_level-joins a b s none p e h = cc
with_level-joins a b s (some l) p e h = cc (level_among-text gjc_thinking_levels s l e)

with_model-joins :
    (a s : Text) (o : Option (Text × Text)) (p : Parts)
    → split_once b':' s ≡ o
    → with_model a o ≡ some p
    → a ++ (b'/' ∷ s) ≡ joined p
unfolding with_model
with_model-joins a s none p e h = cc
with_model-joins a s (some (b, level)) p e h =
    cc (
      split_once-joins b':' s b level e,
      with_level-joins a b level (thinking_level level) p refl h,
    )

with_provider-joins :
    (s : Text) (o : Option (Text × Text)) (p : Parts)
    → split_once b'/' s ≡ o
    → with_provider o ≡ some p
    → s ≡ joined p
unfolding with_provider
with_provider-joins s none p e h = cc
with_provider-joins s (some (a, rest)) p e h =
    split_once-joins b'/' s a rest e ∙ with_model-joins a rest (split_once b':' rest) p refl h

with_body-joins :
    (s : Text) (o : Option Text) (p : Parts)
    → after_prefix (codes "gjc/") s ≡ o
    → with_body o ≡ some p
    → s ≡ codes "gjc/" ++ joined p
unfolding with_body
with_body-joins s none p e h = cc
with_body-joins s (some body) p e h =
    after_prefix-joins (codes "gjc/") s body e
    ∙ ap (λ t. codes "gjc/" ++ t) (with_provider-joins body (split_once b'/' body) p refl h)

parts-joins : (s : Text) (p : Parts) → parts s ≡ some p → s ≡ codes "gjc/" ++ joined p
unfolding parts
parts-joins s p h = with_body-joins s (after_prefix (codes "gjc/") s) p refl h

module _ (u : Unicode) where
  caught-some :
      (o : Result Failure (Option Text)) (d : Text) → caught o ≡ ok (some d) → o ≡ ok (some d)
  unfolding caught
  caught-some (ok v) d h = h
  caught-some (err invalid_provider) d h = h
  caught-some (err invalid_component) d h = h
  caught-some (err invalid_selection) d h = h
  caught-some (err uri_error) d h = cc

  same_text-agrees : (t s d e : Text) → same_text t s d ≡ some e → (t ≡ s) × (d ≡ e)
  unfolding same_text
  same_text-agrees t s d e h = ground (arith, text_eq_iff t s)

  unless_unsafe :
      (b : Bool) (outcome : Result Failure (Option Text)) (e : Text)
      → (if not b then ok none else outcome) ≡ ok (some e)
      → outcome ≡ ok (some e)
  unless_unsafe true outcome e h = h
  unless_unsafe false outcome e h = cc

  decoded_component-encodes :
      (d s e : Text) → decoded_component u d s ≡ ok (some e) → encode_component u e ≡ ok s
  unfolding decoded_component
  decoded_component-encodes d s e h =
      let (encoded, gave, same) =
        >>=-eq-ok (encode_component u d) (λ t. ok (same_text t s d))
          (unless_unsafe (is_safe_component u d) _ e h) in
      let (agrees, kept) = same_text-agrees encoded s d e (cc same) in cc (gave, agrees, kept)

  decode-encodes :
      (s d : Text) → decode_canonical_component u s ≡ ok (some d) → encode_component u d ≡ ok s
  unfolding decode_canonical_component
  decode-encodes s d h =
      let (decoded, gave, same) =
        >>=-eq-ok (from_uri (decode_uri_component s)) (λ t. decoded_component u t s)
          (caught-some _ d h) in
      decoded_component-encodes decoded s d same

  selection_of-parts :
      (a b : Option Text) (l : Level) (x : Selection)
      → selection_of u a b l ≡ some x
      → (a ≡ some x.provider)
        × (b ≡ some x.model_id)
        × (l ≡ x.thinking_level)
        × (is_safe_provider u x.provider ≡ true)
  unfolding selection_of
  selection_of-parts none b l x h = cc
  selection_of-parts (some a) none l x h = cc
  selection_of-parts (some a) (some b) l x h = elim (Bool-cases (is_safe_provider u a)) [
    | inl e ↦ ground arith
    | inr e ↦ ground arith
  ]

  encoded-formats :
      (x : Selection) (a b : Text)
      → is_safe_provider u x.provider ≡ true
      → encode_component u x.provider ≡ ok a
      → encode_component u x.model_id ≡ ok b
      → format_canonical_model_id u x
        ≡ ok (codes "gjc/" ++ (a ++ (b'/' ∷ (b ++ (b':' ∷ level_text x.thinking_level)))))
  unfolding format_canonical_model_id
  encoded-formats x a b safe first second = simp (safe, first, second)

  decode_parts-formats :
      (o : Option Parts) (x : Selection)
      → decode_parts u o ≡ ok (some x)
      → (p : Parts) × (o ≡ some p) × (format_canonical_model_id u x ≡ ok (codes "gjc/" ++ joined p))
  unfolding decode_parts
  decode_parts-formats none x h = cc
  decode_parts-formats (some p) x h =
      let (a, gave_a, more) = >>=-eq-ok (decode_canonical_component u p.provider) _ h in
      let (b, gave_b, last) = >>=-eq-ok (decode_canonical_component u p.model_id) _ more in
      let (at_a, at_b, level, safe) = selection_of-parts a b p.level x (cc last) in
      (
        p,
        refl,
        cc (
          level,
          encoded-formats x p.provider p.model_id safe
              (decode-encodes p.provider x.provider (cc (gave_a, at_a)))
              (decode-encodes p.model_id x.model_id (cc (gave_b, at_b))),
        ),
      )

  -- A text that is parsed to a model selection is the canonical ID of that selection, so no other
  -- text stands for it.
  pub format-parse :
      (s : Text) (x : Selection)
      → parse_canonical_model_id u s ≡ ok (some x)
      → format_canonical_model_id u x ≡ ok s
  unfolding parse_canonical_model_id
  format-parse s x h =
      let (p, gave, formats) = decode_parts-formats (parts s) x h in
      cc (formats, parts-joins s p gave)
