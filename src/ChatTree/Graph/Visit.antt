-- ===== src/ChatTree/Graph/Visit.antt =====
-- The ways through `visit` of `assertAcyclic`, and what a chain of parents is.
use openwebui_gjc_adapter.ChatTree.{Entry}
use openwebui_gjc_adapter.ChatTree.Graph.{
  Entries, Error, parent_cycle, Marks, done, remove, lookup_parent, visit,
}
use openwebui_gjc_adapter.ChatTree.Graph.Depth.{HasDepth, absent, top, below}
use openwebui_gjc_adapter.Prelude.{
  ℕ, zero, suc, ◌≡◌, refl, sym, ap, ◌∙◌, subst, inl, inr, true, false, List, [], ◌∷◌, Option, none,
  some, Text, Result, ok, err, ◌>>=◌, >>=-eq-ok, arith, All, contains, filter, text_eq, text_eq_iff,
  text_eq_refl, Bool-cases, Option-cases,
}
use openwebui_gjc_adapter.Prelude.Dict
use openwebui_gjc_adapter.Prelude.Dict.{Distinct, All-get, All-value, get-head, get-tail}

-- The entries stand under their own IDs.
pub record IsIndexed (entries : Entries) : Type 0 where
  pub distinct : Distinct entries
  pub own_key : All (λ x. x.0 ≡ x.1.id) entries

abbrev pub Ends : Entries → Text → Type 0
Ends entries id = (n : ℕ) × HasDepth entries id n

pub remove-absent : (id : Text) (xs : List Text) → contains id xs ≡ false → remove id xs ≡ xs
unfolding remove contains filter
remove-absent id [] h = refl
remove-absent id (x ∷ xs) h = ground (arith, remove-absent id xs)

pub remove-cons : (id : Text) (xs : List Text) → contains id xs ≡ false → remove id (id ∷ xs) ≡ xs
unfolding remove filter
remove-cons id xs h = rw text_eq_refl (unfold remove filter in remove-absent id xs h)

pub ok_same : {m n : Marks} → ◌≡◌ {A = Result Error Marks} (ok m) (ok n) → m ≡ n
ok_same h = cc

pub cycle_same :
    {i j : Text}
    → ◌≡◌ {A = Result Error Marks} (err (parent_cycle i)) (err (parent_cycle j))
    → i ≡ j
cycle_same h = cc

pub bind_err :
    (m : Result Error Marks) (id : Text) {x : Error}
    → (m >>= λ m'. ok (done id m')) ≡ err x
    → m ≡ err x
bind_err (ok n) id h = cc
bind_err (err y) id h = h

-- The marks with which the parent is visited.
abbrev pub enter : Text → Marks → Marks
enter id m = record m { visiting = id ∷ m.visiting }

-- The four ways through `visit`.
pub data Visit (fuel : ℕ) (entries : Entries) (e : Entry) (m : Marks) : Type 0 where
  seen :
      contains e.id m.visited ≡ true → visit (suc fuel) entries e m ≡ ok m → Visit fuel entries e m
  cycle :
      contains e.id m.visiting ≡ true
      → visit (suc fuel) entries e m ≡ err (parent_cycle e.id)
      → Visit fuel entries e m
  last :
      contains e.id m.visiting ≡ false
      → lookup_parent entries e.parent_id ≡ none
      → visit (suc fuel) entries e m ≡ ok (done e.id (enter e.id m))
      → Visit fuel entries e m
  climb :
      (parent : Entry)
      → contains e.id m.visiting ≡ false
      → lookup_parent entries e.parent_id ≡ some parent
      → visit (suc fuel) entries e m
        ≡ (visit fuel entries parent (enter e.id m) >>= λ m'. ok (done e.id m'))
      → Visit fuel entries e m

pub Visit-cases : (fuel : ℕ) (entries : Entries) (e : Entry) (m : Marks) → Visit fuel entries e m
unfolding visit
Visit-cases fuel entries e m = elim (Bool-cases (contains e.id m.visited)) [
  | inl v ↦ seen v (rw v)
  | inr v ↦ elim (Bool-cases (contains e.id m.visiting)) [
    | inl w ↦ cycle w (rw v (rw w))
    | inr w ↦ elim (Option-cases (lookup_parent entries e.parent_id)) [
      | inl p ↦ last w p (rw v (rw w (rw p)))
      | inr (parent, p) ↦ climb parent w p (rw v (rw w (rw p)))
    ]
  ]
]

-- A visit that returns leaves the marks of the visits in progress as they were.
pub visit-visiting :
    (fuel : ℕ) (entries : Entries) (e : Entry) (m : Marks) {m' : Marks}
    → visit fuel entries e m ≡ ok m'
    → m'.visiting ≡ m.visiting
unfolding done remove
visit-visiting zero entries e m h = unfold visit in cc h
visit-visiting (suc fuel) entries e m {m'} h = elim (Visit-cases fuel entries e m) [
  | seen v r ↦ ap (λ (x : Marks). x.visiting) (ok_same (sym h ∙ r))
  | cycle w r ↦ cc (sym h ∙ r)
  | last w p r ↦
      ap (λ (x : Marks). x.visiting) (ok_same (sym h ∙ r)) ∙ remove-cons e.id m.visiting w
  | climb parent w p r ↦
      let (m'', climbed, rest) =
        >>=-eq-ok (visit fuel entries parent (enter e.id m)) _ (sym r ∙ h) in
      ap (λ (x : Marks). x.visiting) (sym (ok_same rest))
      ∙ ap (remove e.id) (visit-visiting fuel entries parent (enter e.id m) climbed)
      ∙ remove-cons e.id m.visiting w
]

-- What `lookup_parent` found.
pub parent_of :
    (entries : Entries) (p : Option Text) (parent : Entry)
    → lookup_parent entries p ≡ some parent
    → IsIndexed entries
    → (p ≡ some parent.id) × (Dict.get parent.id entries ≡ some parent)
unfolding lookup_parent
parent_of entries none parent h x = cc h
parent_of entries (some p) parent h x =
    let own = All-get (λ y. y.0 ≡ y.1.id) p parent entries x.own_key h in
    (cc own, subst (λ k. Dict.get k entries ≡ some parent) own h)

pub Ends-last :
    (entries : Entries) (e : Entry) (p : Option Text)
    → Dict.get e.id entries ≡ some e
    → e.parent_id ≡ p
    → lookup_parent entries p ≡ none
    → Ends entries e.id
unfolding lookup_parent
Ends-last entries e none g q h = (1, top e.id e g q)
Ends-last entries e (some p) g q h = (1, below e.id e p 0 g q (absent p h))

pub Ends-climb :
    (entries : Entries) (e parent : Entry)
    → IsIndexed entries
    → Dict.get e.id entries ≡ some e
    → lookup_parent entries e.parent_id ≡ some parent
    → Ends entries parent.id
    → Ends entries e.id
Ends-climb entries e parent x g h (n, d) =
    (suc n, below e.id e parent.id n g (parent_of entries e.parent_id parent h x).0 d)

pub All-contains :
    (entries : Entries) (k : Text) (xs : List Text)
    → All (Ends entries) xs
    → contains k xs ≡ true
    → Ends entries k
unfolding contains
All-contains entries k [] a h = cc
All-contains entries k (x ∷ xs) a h = elim (Bool-cases (text_eq x k)) [
  | inl e ↦ subst (Ends entries) ((text_eq_iff x k).0 e) a.0
  | inr e ↦ All-contains entries k xs a.1 (rw e at h)
]
