-- ===== src/Models/Parse/Classified.antt =====
-- How a text is classified (src/live/models.ts: classifyGjcModelId).
use openwebui_gjc_adapter.Models.{
  Selection, Unicode, Failure, format_canonical_model_id, after_prefix,
}
use openwebui_gjc_adapter.Models.Parse.{
  parse_canonical_model_id, Classification, alias, canonical, malformed, foreign, classify_parsed,
  classify_gjc_model_id,
}
use openwebui_gjc_adapter.Models.Parse.Canonical.{format-parse}
use openwebui_gjc_adapter.Prelude.{
  ◌≡◌, Option, none, some, Text, codes, Result, ok, >>=-eq-ok, text_eq_iff, Bool-cases, inl, inr,
  text_eq, is_some, subst, if_true, if_false,
}

module _ (u : Unicode) where
  -- A text that is classified as canonical is the ID of its selection.
  unfoldable pub Classifies : Text → Classification → Type 0
  Classifies s alias = s ≡ codes "gjc"
  Classifies s (canonical x) = format_canonical_model_id u x ≡ ok s
  Classifies s malformed = Unit
  Classifies s foreign = Unit

  classify_parsed-Classifies :
      (s : Text) (parsed : Option Selection)
      → parse_canonical_model_id u s ≡ ok parsed
      → Classifies s (classify_parsed s parsed)
  unfolding Classifies classify_parsed
  classify_parsed-Classifies s (some x) h = format-parse u s x h
  classify_parsed-Classifies s none h = elim (Bool-cases (is_some (after_prefix (codes "gjc") s))) [
    | inl e ↦ simp (e) tt
    | inr e ↦ simp (e) tt
  ]

  ok_eq : (x y : Classification) → ◌≡◌ {A = Result Failure Classification} (ok x) (ok y) → x ≡ y
  ok_eq x y h = cc

  pub classify-Classifies :
      (s : Text) (c : Classification) → classify_gjc_model_id u s ≡ ok c → Classifies s c
  unfolding classify_gjc_model_id Classifies
  classify-Classifies s c h = elim (Bool-cases (text_eq s (codes "gjc"))) [
    | inl e ↦
        subst (Classifies s) (ok_eq alias c (if_true _ (ok alias) _ e h))
          ((text_eq_iff s (codes "gjc")).0 e)
    | inr e ↦
        let (parsed, gave, same) =
          >>=-eq-ok (parse_canonical_model_id u s) _ (if_false _ (ok alias) _ e h) in
        subst (Classifies s) (ok_eq (classify_parsed s parsed) c same)
          (classify_parsed-Classifies s parsed gave)
  ]
