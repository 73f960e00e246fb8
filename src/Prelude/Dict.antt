-- ===== src/Prelude/Dict.antt =====
-- A JavaScript `Map` with string keys: its entries in the order in which the keys were first set.
use mathlib.Core.Path.{◌≡◌, refl, sym, subst}
use mathlib.Core.Logic.{◌≢◌, inl, inr}
use mathlib.Core.Bool.{Bool, true}
use mathlib.Core.List.{List, [], ◌∷◌, map}
use mathlib.Core.Option.{Option, none, some}
use native.Mathlib.Omega.{arith}
use openwebui_gjc_adapter.Prelude.Tests.{if◌then◌else◌, is_some, Bool-cases}
use openwebui_gjc_adapter.Prelude.Lists.{All}
use openwebui_gjc_adapter.Prelude.Texts.{Text, text_eq, text_eq_iff, text_eq_refl}

abbrev pub Dict {ℓ} : Type ℓ → Type ℓ
Dict V = List (Text × V)

module _ {ℓ} {V : Type ℓ} where
  unfoldable pub get : Text → Dict V → Option V
  get k [] = none
  get k ((j, v) ∷ m) = let rest = get k m in if text_eq j k then some v else rest

  -- A key that is there keeps its place.
  unfoldable pub set : Text → V → Dict V → Dict V
  set k v [] = (k, v) ∷ []
  set k v ((j, w) ∷ m) = let rest = set k v m in if text_eq j k then (j, v) ∷ m else (j, w) ∷ rest

  abbrev pub has : Text → Dict V → Bool
  has k m = is_some (get k m)

  abbrev pub keys : Dict V → List Text
  keys m = map (λ e. e.0) m

  abbrev pub values : Dict V → List V
  values m = map (λ e. e.1) m

  pub get-set :
      (k j : Text) (v : V) (m : Dict V)
      → get j (set k v m) ≡ (if text_eq k j then some v else get j m)
  unfolding get set
  get-set k j v [] = refl
  get-set k j v ((i, w) ∷ m) =
      ground (arith, text_eq_iff k j, text_eq_iff i k, text_eq_iff i j, get-set k j v m)

  pub get-set_self : (k : Text) (v : V) (m : Dict V) → get k (set k v m) ≡ some v
  get-set_self k v m = simp (get-set, text_eq_refl)

  pub get-set_ne : (k j : Text) (v : V) (m : Dict V) → k ≢ j → get j (set k v m) ≡ get j m
  get-set_ne k j v m h = rw get-set (ground (arith, text_eq_iff k j))

  -- No key has two entries.
  abbrev pub Distinct : Dict V → Type ℓ
  Distinct [] = Unit
  Distinct ((k, v) ∷ m) = (get k m ≡ none) × Distinct m

  pub set-Distinct : (k : Text) (v : V) (m : Dict V) → Distinct m → Distinct (set k v m)
  unfolding set
  set-Distinct k v [] d = unfold get in (refl, tt)
  set-Distinct k v ((j, w) ∷ m) d =
      ground (arith, text_eq_iff j k, text_eq_iff k j, get-set k j v m, set-Distinct k v m d.1)

  pub All-set {κ} :
      (P : Text × V → Type κ) (k : Text) (v : V) (m : Dict V)
      → All P m
      → P (k, v)
      → All P (set k v m)
  unfolding set
  All-set P k v [] h p = (p, tt)
  All-set P k v ((j, w) ∷ m) h p = elim (Bool-cases (text_eq j k)) [
    | inl e ↦ rw e (subst (λ i. P (i, v)) (sym ((text_eq_iff j k).0 e)) p, h.1)
    | inr e ↦ rw e (h.0, All-set P k v m h.1 p)
  ]

  pub All-get {κ} :
      (P : Text × V → Type κ) (k : Text) (v : V) (m : Dict V)
      → All P m
      → get k m ≡ some v
      → P (k, v)
  unfolding get
  All-get P k v [] h e = cc
  All-get P k v ((j, w) ∷ m) h e = elim (Bool-cases (text_eq j k)) [
    | inl t ↦ subst P {x = (j, w)} {y = (k, v)} (cc ((text_eq_iff j k).0 t, rw t at e)) h.0
    | inr t ↦ All-get P k v m h.1 (rw t at e)
  ]

  pub get-head : (k : Text) (v : V) (m : Dict V) → get k ((k, v) ∷ m) ≡ some v
  unfolding get
  get-head k v m = rw text_eq_refl

  pub get-tail :
      (k j : Text) (v w : V) (m : Dict V)
      → get k m ≡ none
      → get j m ≡ some w
      → get j ((k, v) ∷ m) ≡ some w
  unfolding get
  get-tail k j v w m fresh h = ground (arith, text_eq_iff k j)

  pub All-value {κ} :
      (P : V → Type κ) (k : Text) (v : V) (m : Dict V) → All P (values m) → get k m ≡ some v → P v
  unfolding get
  All-value P k v [] h e = cc
  All-value P k v ((j, w) ∷ m) h e = elim (Bool-cases (text_eq j k)) [
    | inl t ↦ subst P {x = w} {y = v} (cc (rw t at e)) h.0
    | inr t ↦ All-value P k v m h.1 (rw t at e)
  ]

  pub has-set : (k j : Text) (v : V) (m : Dict V) → has j m ≡ true → has j (set k v m) ≡ true
  has-set k j v m h = rw get-set (ground arith)

  pub has-set_self : (k : Text) (v : V) (m : Dict V) → has k (set k v m) ≡ true
  has-set_self k v m = rw get-set_self
