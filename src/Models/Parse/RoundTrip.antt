-- ===== src/Models/Parse/RoundTrip.antt =====
-- The ID of a selection is read as the selection again (src/live/models.ts).
use openwebui_gjc_adapter.Uri.Units.{IsText}
use openwebui_gjc_adapter.Uri.RoundTrip.{Decodes-nil, decode_uri_component-Decodes}
use openwebui_gjc_adapter.Models.{
  Level, Selection, Unicode, Failure, off, minimal, low, medium, high, xhigh, max, level_text,
  level_among, thinking_level, is_safe_component, is_safe_provider, encode_component,
  format_canonical_model_id, decode_canonical_component, decoded_component, caught, same_text,
  from_uri, index_of, last_index_of, split_at, split_once, after_prefix, take, drop,
  invalid_provider,
}
use openwebui_gjc_adapter.Models.Parse.{
  with_level, with_model, with_provider, with_body, parts, selection_of, decode_parts,
  parse_canonical_model_id,
}
use openwebui_gjc_adapter.Models.Parse.Encoded.{
  Avoids, Avoids-append, decode_uri_component-encode_component, encode_component-safe,
  encode_component-Avoids, unless_thrown,
}
use openwebui_gjc_adapter.Prelude.{
  ℕ, suc, ◌≡◌, refl, ap, ◌∙◌, subst, true, not, [], ◌∷◌, ◌++◌, none, some, Text, codes, arith,
  Result, ok, ◌>>=◌, >>=-eq-ok, if◌then◌else◌, text_eq, text_eq_refl, inl, inr, length,
}

index_of-first : (c : ℕ) (a b : Text) → Avoids c a → index_of c (a ++ (c ∷ b)) ≡ some (length a)
unfolding index_of
index_of-first c [] b h = ground arith
index_of-first c (d ∷ a) b h = simp (index_of-first c a b h.1) (ground (arith, h.0))

last_index_of-none : (c : ℕ) (b : Text) → Avoids c b → last_index_of c b ≡ none
unfolding last_index_of
last_index_of-none c [] h = refl
last_index_of-none c (d ∷ b) h = simp (last_index_of-none c b h.1) (ground (arith, h.0))

last_index_of-only :
    (c : ℕ) (a b : Text) → Avoids c b → last_index_of c (a ++ (c ∷ b)) ≡ some (length a)
unfolding last_index_of
last_index_of-only c [] b h = simp (last_index_of-none c b h) (ground arith)
last_index_of-only c (d ∷ a) b h = simp (last_index_of-only c a b h)

take-length : (a b : Text) → take (length a) (a ++ b) ≡ a
take-length [] b = refl
take-length (x ∷ a) b = ap (λ s. x ∷ s) (take-length a b)

drop-length : (c : ℕ) (a b : Text) → drop (suc (length a)) (a ++ (c ∷ b)) ≡ b
drop-length c [] b = refl
drop-length c (x ∷ a) b = drop-length c a b

split_once-joined :
    (c d : ℕ) (a b : Text)
    → Avoids c (d ∷ a)
    → Avoids c b
    → split_once c ((d ∷ a) ++ (c ∷ b)) ≡ some (d ∷ a, b)
unfolding split_once split_at
split_once-joined c d a b h g =
    simp (index_of-first c (d ∷ a) b h, last_index_of-only c (d ∷ a) b g)
      (rw (take-length a (c ∷ b), drop-length c a b) (ground arith))

pub thinking_level-text : (l : Level) → thinking_level (level_text l) ≡ some l
unfolding level_among level_text text_eq
thinking_level-text off = refl
thinking_level-text minimal = refl
thinking_level-text low = refl
thinking_level-text medium = refl
thinking_level-text high = refl
thinking_level-text xhigh = refl
thinking_level-text max = refl

level_text-Avoids : (l : Level) → Avoids 47 (level_text l) × Avoids 58 (level_text l)
unfolding level_text
level_text-Avoids off = ground arith
level_text-Avoids minimal = ground arith
level_text-Avoids low = ground arith
level_text-Avoids medium = ground arith
level_text-Avoids high = ground arith
level_text-Avoids xhigh = ground arith
level_text-Avoids max = ground arith

Avoids-joined :
    (c d : ℕ) (a b : Text) → ¬ (d ≡ c) → Avoids c a → Avoids c b → Avoids c (a ++ (d ∷ b))
Avoids-joined c d a b h g k = Avoids-append c a (d ∷ b) g (h, k)

-- The parts of an ID are found again.
parts-joined :
    (c d : ℕ) (a b : Text) (l : Level)
    → Avoids 47 (c ∷ a)
    → Avoids 47 (d ∷ b)
    → Avoids 58 (d ∷ b)
    → parts (codes "gjc/" ++ ((c ∷ a) ++ (b'/' ∷ ((d ∷ b) ++ (b':' ∷ level_text l)))))
      ≡ some (record { provider = c ∷ a; model_id = d ∷ b; level = l })
unfolding parts with_body with_provider with_model with_level after_prefix
parts-joined c d a b l h g k =
    simp
      (
        split_once-joined b'/' c a ((d ∷ b) ++ (b':' ∷ level_text l)) h
            (Avoids-joined 47 58 (d ∷ b) (level_text l) (ground arith) g (level_text-Avoids l).0),
        split_once-joined b':' d b (level_text l) k (level_text-Avoids l).1,
        thinking_level-text l,
      )
      refl

module _ (u : Unicode) where
  after_encoding :
      (outcome : Result Failure Text) (d e : Text)
      → outcome ≡ ok e
      → (outcome >>= λ t. ok (same_text t e d)) ≡ ok (some d)
  unfolding same_text
  after_encoding outcome d e gave = simp (gave, text_eq_refl e)

  decoded_component-encoded :
      (d e : Text)
      → is_safe_component u d ≡ true
      → encode_component u d ≡ ok e
      → decoded_component u d e ≡ ok (some d)
  unfolding decoded_component
  decoded_component-encoded d e safe gave =
      ap (λ b. if not b then ok none else (encode_component u d >>= λ t. ok (same_text t e d))) safe
      ∙ after_encoding (encode_component u d) d e gave

  decode-encoded :
      (d e : Text)
      → IsText d
      → encode_component u d ≡ ok e
      → decode_canonical_component u e ≡ ok (some d)
  unfolding decode_canonical_component caught
  decode-encoded d e h gave =
      ap (λ o. caught (from_uri o >>= λ t. decoded_component u t e))
        (decode_uri_component-encode_component u d e h gave)
      ∙ ap caught (decoded_component-encoded d e (encode_component-safe u d e gave) gave)

  empty-unsafe : ¬ (is_safe_component u [] ≡ true)
  unfolding is_safe_component
  empty-unsafe h = cc

  encoded-nonempty :
      (d e : Text) → IsText d → encode_component u d ≡ ok e → (c : ℕ) × (s : Text) × (e ≡ c ∷ s)
  encoded-nonempty d [] h gave = absurd (
      empty-unsafe (
        cc (
          decode_uri_component-encode_component u d [] h gave,
          decode_uri_component-Decodes [] [] Decodes-nil,
          encode_component-safe u d [] gave,
        )))
  encoded-nonempty d (c ∷ s) h gave = (c, s, refl)

  format-encodes :
      (x : Selection) (s : Text)
      → format_canonical_model_id u x ≡ ok s
      → (a : Text) × (b : Text) × (is_safe_provider u x.provider ≡ true)
        × (encode_component u x.provider ≡ ok a)
        × (encode_component u x.model_id ≡ ok b)
        × (s ≡ codes "gjc/" ++ (a ++ (b'/' ∷ (b ++ (b':' ∷ level_text x.thinking_level)))))
  unfolding format_canonical_model_id
  format-encodes x s h =
      let (safe, rest) = unless_thrown (is_safe_provider u x.provider) _ invalid_provider s h in
      let (a, gave_a, more) = >>=-eq-ok (encode_component u x.provider) _ rest in
      let (b, gave_b, last) = >>=-eq-ok (encode_component u x.model_id) _ more in
      (a, b, safe, gave_a, gave_b, cc last)

  parts-encoded :
      (x : Selection) (a b : Text)
      → IsText x.provider
      → IsText x.model_id
      → encode_component u x.provider ≡ ok a
      → encode_component u x.model_id ≡ ok b
      → parts (codes "gjc/" ++ (a ++ (b'/' ∷ (b ++ (b':' ∷ level_text x.thinking_level)))))
        ≡ some (record { provider = a; model_id = b; level = x.thinking_level })
  parts-encoded x a b h g gave_a gave_b =
      let (c, a', e) = encoded-nonempty x.provider a h gave_a in
      let (d, b', f) = encoded-nonempty x.model_id b g gave_b in
      rw (e, f)
        (parts-joined c d a' b' x.thinking_level
          (subst (Avoids 47) e (encode_component-Avoids u 47 x.provider a (inl refl) gave_a))
          (subst (Avoids 47) f (encode_component-Avoids u 47 x.model_id b (inl refl) gave_b))
          (subst (Avoids 58) f (encode_component-Avoids u 58 x.model_id b (inr refl) gave_b)))

  decode_parts-encoded :
      (x : Selection) (a b : Text)
      → decode_canonical_component u a ≡ ok (some x.provider)
      → decode_canonical_component u b ≡ ok (some x.model_id)
      → is_safe_provider u x.provider ≡ true
      → decode_parts u (some (record { provider = a; model_id = b; level = x.thinking_level }))
        ≡ ok (some x)
  unfolding decode_parts selection_of
  decode_parts-encoded x a b first second safe = simp (first, second, safe)

  -- The canonical ID of a model selection, where the provider and the model's name have units of
  -- 16 bits and the ID could be made, is parsed to that selection again, whatever marks and
  -- letters the two names have.
  pub parse-format :
      (x : Selection) (s : Text)
      → IsText x.provider
      → IsText x.model_id
      → format_canonical_model_id u x ≡ ok s
      → parse_canonical_model_id u s ≡ ok (some x)
  unfolding parse_canonical_model_id
  parse-format x s h g formats =
      let (a, b, safe, gave_a, gave_b, same) = format-encodes x s formats in
      ap (λ t. decode_parts u (parts t)) same
      ∙ ap (decode_parts u) (parts-encoded x a b h g gave_a gave_b)
      ∙ decode_parts-encoded x a b (decode-encoded x.provider a h gave_a)
          (decode-encoded x.model_id b g gave_b) safe
