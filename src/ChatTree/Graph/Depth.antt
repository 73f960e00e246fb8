-- ===== src/ChatTree/Graph/Depth.antt =====
-- Chains of parents that end.
use openwebui_gjc_adapter.ChatTree.{Entry}
use openwebui_gjc_adapter.ChatTree.Graph.{Entries}
use openwebui_gjc_adapter.Prelude.{
  ℕ, zero, suc, ◌≡◌, ◌≤◌, ◌<◌, refl, sym, ap, subst, inl, inr, true, false, List, [], ◌∷◌, none,
  some, Text, arith, All, length, contains, text_eq, text_eq_iff, Bool-cases,
}
use openwebui_gjc_adapter.Prelude.Dict
use openwebui_gjc_adapter.Prelude.Pigeonhole.{NoRepeat, length-le-of_keys}

-- From the entry `id`, the chain of parents ends after `n` steps: at an entry with no parent, or at
-- a parent that is missing.
pub data HasDepth (entries : Entries) : Text → ℕ → Type 0 where
  absent : (id : Text) → Dict.get id entries ≡ none → HasDepth entries id zero
  top :
      (id : Text) (e : Entry)
      → Dict.get id entries ≡ some e
      → e.parent_id ≡ none
      → HasDepth entries id (suc zero)
  below :
      (id : Text) (e : Entry) (parent : Text) (n : ℕ)
      → Dict.get id entries ≡ some e
      → e.parent_id ≡ some parent
      → HasDepth entries parent n
      → HasDepth entries id (suc n)

some_entry : {e f : Entry} → some e ≡ some f → e ≡ f
some_entry h = cc

no_parent : {e f : Entry} {q : Text} → e ≡ f → e.parent_id ≡ none → f.parent_id ≡ some q → ⊥
no_parent h p q = cc (ap (λ (x : Entry). x.parent_id) h)

same_parent :
    {e f : Entry} {p q : Text} → e ≡ f → e.parent_id ≡ some p → f.parent_id ≡ some q → p ≡ q
same_parent h p q = cc (ap (λ (x : Entry). x.parent_id) h)

pub HasDepth-unique :
    {entries : Entries} {id : Text} {m n : ℕ}
    → HasDepth entries id m
    → HasDepth entries id n
    → m ≡ n
HasDepth-unique (absent _ h) (absent _ h') = refl
HasDepth-unique (absent _ h) (top _ e h' p) = cc
HasDepth-unique (absent _ h) (below _ e parent n h' p d) = cc
HasDepth-unique (top _ e h p) (absent _ h') = cc
HasDepth-unique (top _ e h p) (top _ e' h' p') = refl
HasDepth-unique (top _ e h p) (below _ e' parent n h' p' d) =
    absurd (no_parent {e = e} {f = e'} (cc) p p')
HasDepth-unique (below _ e parent n h p d) (absent _ h') = cc
HasDepth-unique (below _ e parent n h p d) (top _ e' h' p') =
    absurd (no_parent {e = e'} {f = e} (cc) p' p)
HasDepth-unique {entries} (below _ e parent n h p d) (below _ e' parent' n' h' p' d') =
    let same : parent ≡ parent' = same_parent {e = e} {f = e'} (cc) p p' in
    ap suc (HasDepth-unique d (subst (λ q. HasDepth entries q n') (sym same) d'))

-- The entries on the chain.
chain : {entries : Entries} {id : Text} {n : ℕ} → HasDepth entries id n → List Text
chain (absent _ _) = []
chain (top id _ _ _) = id ∷ []
chain (below id _ _ _ _ _ d) = id ∷ chain d

length-chain :
    {entries : Entries} {id : Text} {n : ℕ} (d : HasDepth entries id n) → length (chain d) ≡ n
unfolding chain
length-chain (absent _ _) = refl
length-chain (top id _ _ _) = refl
length-chain (below id _ _ _ _ _ d) = ap suc (length-chain d)

pub has-of_get :
    (entries : Entries) (id : Text) {e : Entry}
    → Dict.get id entries ≡ some e
    → Dict.has id entries ≡ true
has-of_get entries id h = rw h

chain-keys :
    {entries : Entries} {id : Text} {n : ℕ} (d : HasDepth entries id n)
    → All (λ x. Dict.has x entries ≡ true) (chain d)
unfolding chain
chain-keys (absent _ _) = tt
chain-keys {entries} (top id e h _) = (has-of_get entries id h, tt)
chain-keys {entries} (below id e _ _ h _ d) = (has-of_get entries id h, chain-keys d)

-- The entries are at most `n` deep.
abbrev pub AtMost : Entries → ℕ → List Text → Type 0
AtMost entries n = All (λ x. (k : ℕ) × HasDepth entries x k × (k ≤ n))

AtMost-mono :
    (entries : Entries) (m n : ℕ) (xs : List Text)
    → m ≤ n
    → AtMost entries m xs
    → AtMost entries n xs
AtMost-mono entries m n [] h a = tt
AtMost-mono entries m n (x ∷ xs) h a =
    ((a.0.0, a.0.1, omega arith), AtMost-mono entries m n xs h a.1)

chain-AtMost :
    {entries : Entries} {id : Text} {n : ℕ} (d : HasDepth entries id n) → AtMost entries n (chain d)
unfolding chain
chain-AtMost (absent _ _) = tt
chain-AtMost (top id e h p) = ((1, top id e h p, omega arith), tt)
chain-AtMost {entries} (below id e parent n h p d) = (
  (suc n, below id e parent n h p d, omega arith),
  AtMost-mono entries n (suc n) (chain d) (omega arith) (chain-AtMost d),
)

not-contains-deeper :
    (entries : Entries) (id : Text) (m n : ℕ) (xs : List Text)
    → HasDepth entries id m
    → n < m
    → AtMost entries n xs
    → contains id xs ≡ false
unfolding contains
not-contains-deeper entries id m n [] d h a = refl
not-contains-deeper entries id m n (x ∷ xs) d h a = elim (Bool-cases (text_eq x id)) [
  | inl e ↦
      let same : HasDepth entries id a.0.0 =
        subst (λ y. HasDepth entries y a.0.0) ((text_eq_iff x id).0 e) a.0.1 in
      absurd (omega (arith, HasDepth-unique d same))
  | inr e ↦ rw e (not-contains-deeper entries id m n xs d h a.1)
]

chain-NoRepeat :
    {entries : Entries} {id : Text} {n : ℕ} (d : HasDepth entries id n) → NoRepeat (chain d)
unfolding chain
chain-NoRepeat (absent _ _) = tt
chain-NoRepeat (top id _ _ _) = unfold contains in (refl, tt)
chain-NoRepeat {entries} (below id e parent n h p d) = (
  not-contains-deeper entries id (suc n) n (chain d) (below id e parent n h p d) (omega arith)
      (chain-AtMost d),
  chain-NoRepeat d,
)

-- A chain that ends is no longer than there are entries.
pub HasDepth-le :
    {entries : Entries} {id : Text} {n : ℕ} → HasDepth entries id n → n ≤ length entries
HasDepth-le {entries} d =
    omega
      (arith, length-chain d, length-le-of_keys (chain d) entries (chain-NoRepeat d) (chain-keys d))
