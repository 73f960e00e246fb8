-- ===== src/Models/Policy/Returns.antt =====
-- What the steps of a resolution that returns have tested (src/live/model-selection-policy.ts).
use openwebui_gjc_adapter.Models.{Level, Selection, level_text, thinking_level}
use openwebui_gjc_adapter.Models.Parse.RoundTrip.{thinking_level-text}
use openwebui_gjc_adapter.Models.Catalog.{level_eq}
use openwebui_gjc_adapter.Models.Current.{is_authoritative_current, if_authoritative}
use openwebui_gjc_adapter.Models.Policy.{
  Error, Reader, stopped, with_reader, is_active, same_selection, is_current,
}
use openwebui_gjc_adapter.Outbox.Document.{Values}
use openwebui_gjc_adapter.Prelude.{
  ◌≡◌, refl, sym, ap, ◌∙◌, inl, inr, Bool, true, false, not, ◌&&◌, ◌||◌, List, Option, none, some,
  Text, arith, Result, ok, err, ◌>>◌, throw_if, text_eq, text_eq_iff, Bool-cases, if_true, if_false,
}

pub unless_thrown :
    {A : Type 0} (b : Bool) (thrown : Error) (outcome : Result Error A) (a : A)
    → (throw_if (not b) thrown >> outcome) ≡ ok a
    → (b ≡ true) × (outcome ≡ ok a)
unless_thrown true thrown outcome a h = (refl, h)
unless_thrown false thrown outcome a h = cc

pub ok_eq : {A : Type 0} (x y : A) → ◌≡◌ {A = Result Error A} (ok x) (ok y) → x ≡ y
ok_eq x y h = cc

pub level_text-injective : (a b : Level) → level_text a ≡ level_text b → a ≡ b
level_text-injective a b h =
    let levels = sym (thinking_level-text a) ∙ ap thinking_level h ∙ thinking_level-text b in
    cc levels

pub some_eq : (a b : Selection) → ◌≡◌ {A = Option Selection} (some a) (some b) → a ≡ b
some_eq a b h = cc

pub none_not_some : (a : Selection) → ¬ (◌≡◌ {A = Option Selection} none (some a))
none_not_some a h = cc

pub both : (a b : Bool) → (a && b) ≡ true → (a ≡ true) × (b ≡ true)
both a b h = ground arith

pub same_selection-eq : (a b : Selection) → same_selection a b ≡ true → a ≡ b
unfolding same_selection level_eq
same_selection-eq a b h =
    let (names, level) =
      both (text_eq a.provider b.provider && text_eq a.model_id b.model_id) _ h in
    let (provider, model_id) = both (text_eq a.provider b.provider) _ names in
    cc (
      (text_eq_iff a.provider b.provider).0 provider,
      (text_eq_iff a.model_id b.model_id).0 model_id,
      level_text-injective a.thinking_level b.thinking_level
          ((text_eq_iff (level_text a.thinking_level) (level_text b.thinking_level)).0 level),
    )

stopped-ok :
    {A : Type 0} (f : Error → Error) (o : Result Error A) (s : Result Error (Unit {0})) (x : A)
    → stopped f o s ≡ ok x
    → (o ≡ ok x) × (s ≡ ok tt)
unfolding stopped
stopped-ok f (ok a) (ok tt) x h = (h, refl)
stopped-ok f (ok a) (err e) x h = cc
stopped-ok f (err e) (ok u) x h = cc
stopped-ok f (err e) (err c) x h = cc

pub with_reader-ok :
    {A : Type 0} (create : Result Error Reader) (operation : Reader → Result Error A)
    (map_error : Error → Error) (a : A)
    → with_reader create operation map_error ≡ ok a
    → (reader : Reader) × (create ≡ ok reader) × (operation reader ≡ ok a) × (reader.stop ≡ ok tt)
unfolding with_reader
with_reader-ok (err thrown) operation map_error a h = cc
with_reader-ok (ok reader) operation map_error a h =
    let (gave, ends) = stopped-ok map_error (operation reader) reader.stop a h in
    (reader, refl, gave, ends)

pub neither_thrown :
    {A : Type 0} (a b : Bool) (thrown : Error) (x y : A)
    → (throw_if (not a || not b) thrown >> ok x) ≡ ok y
    → (x ≡ y) × (a ≡ true) × (b ≡ true)
neither_thrown true true thrown x y h = (ok_eq x y h, refl, refl)
neither_thrown true false thrown x y h = cc
neither_thrown false b thrown x y h = cc

pub if_authoritative-some :
    (raw : Values) (found : Option Selection) (s : Selection)
    → if_authoritative raw found ≡ some s
    → (found ≡ some s) × (is_authoritative_current raw s ≡ true)
unfolding if_authoritative
if_authoritative-some raw none s h = cc
if_authoritative-some raw (some c) s h = elim (Bool-cases (is_authoritative_current raw c)) [
  | inl e ↦
      let same = if_true _ (some c) none e h in
      (same, sym (ap (is_authoritative_current raw) (some_eq c s same)) ∙ e)
  | inr e ↦ absurd (none_not_some s (if_false _ (some c) none e h))
]

pub is_current-same :
    (providers : Option (List Text)) (found : Option Selection) (s : Selection)
    → is_current providers found s ≡ true
    → (found ≡ some s) × (is_active providers s.provider ≡ true)
unfolding is_current
is_current-same providers none s h = cc
is_current-same providers (some c) s h =
    let (active, same) = both (is_active providers c.provider) (same_selection c s) h in
    let equal = same_selection-eq c s same in
    (ap some equal, sym (ap (λ x. is_active providers x.provider) equal) ∙ active)
