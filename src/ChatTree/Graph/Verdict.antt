-- ===== src/ChatTree/Graph/Verdict.antt =====
-- What the outcome of `visit` says of the chain of parents.
use openwebui_gjc_adapter.ChatTree.{Entry}
use openwebui_gjc_adapter.ChatTree.Graph.{Entries, parent_cycle, out_of_fuel, Marks, done, visit}
use openwebui_gjc_adapter.ChatTree.Graph.Depth.{HasDepth, below, HasDepth-unique, has-of_get}
use openwebui_gjc_adapter.Prelude.{
  ℕ, zero, suc, ◌+◌, ◌≡◌, ◌≢◌, ◌≤◌, ◌<◌, refl, sym, ◌∙◌, subst, inl, inr, true, List, [], ◌∷◌, some,
  Text, ok, err, >>=-eq-ok, arith, All, length, contains, text_eq, text_eq_iff, Bool-cases,
}
use openwebui_gjc_adapter.Prelude.Dict
use openwebui_gjc_adapter.Prelude.Dict.{Distinct, All-get, All-value, get-head, get-tail}
use openwebui_gjc_adapter.Prelude.Pigeonhole.{NoRepeat, length-le-of_keys}
use openwebui_gjc_adapter.ChatTree.Graph.Visit.{
  All-contains, Ends-climb, Ends-last, IsIndexed, Ends, ok_same, cycle_same, bind_err, enter,
  Visit-cases, parent_of, seen, cycle, last, climb,
}

-- A visit that returns has seen the chain end; so have all the visits before it.
pub visit-Ends :
    (fuel : ℕ) (entries : Entries) (e : Entry) (m : Marks) {m' : Marks}
    → IsIndexed entries
    → Dict.get e.id entries ≡ some e
    → All (Ends entries) m.visited
    → visit fuel entries e m ≡ ok m'
    → Ends entries e.id × All (Ends entries) m'.visited
unfolding done
visit-Ends zero entries e m x g a h = unfold visit in cc h
visit-Ends (suc fuel) entries e m {m'} x g a h = elim (Visit-cases fuel entries e m) [
  | seen v r ↦ (All-contains entries e.id m.visited a v, rw (← ok_same (sym r ∙ h)) a)
  | cycle w r ↦ cc (sym h ∙ r)
  | last w p r ↦
      let ends = Ends-last entries e e.parent_id g refl p in
      (ends, subst (λ (z : Marks). All (Ends entries) z.visited) (ok_same (sym r ∙ h)) (ends, a))
  | climb parent w p r ↦
      let (m'', climbed, rest) =
        >>=-eq-ok (visit fuel entries parent (enter e.id m)) _ (sym r ∙ h) in
      let (above, a') =
        visit-Ends fuel entries parent (enter e.id m) x (parent_of entries e.parent_id parent p x).1
          a climbed in
      let ends = Ends-climb entries e parent x g p above in
      (ends, subst (λ (z : Marks). All (Ends entries) z.visited) (ok_same rest) (ends, a'))
]

-- The visits in progress are of distinct entries, and those and the fuel are more than the entries.
pub record IsFueled (fuel : ℕ) (entries : Entries) (visiting : List Text) : Type 0 where
  pub distinct : NoRepeat visiting
  pub keys : All (λ k. Dict.has k entries ≡ true) visiting
  pub enough : length entries + 1 ≤ fuel + length visiting

pub visit-fuel :
    (fuel : ℕ) (entries : Entries) (e : Entry) (m : Marks)
    → IsIndexed entries
    → Dict.get e.id entries ≡ some e
    → IsFueled fuel entries m.visiting
    → visit fuel entries e m ≢ err out_of_fuel
visit-fuel zero entries e m x g f h =
    absurd (omega (arith, length-le-of_keys m.visiting entries f.distinct f.keys, f.enough))
visit-fuel (suc fuel) entries e m x g f h = elim (Visit-cases fuel entries e m) [
  | seen v r ↦ cc (sym h ∙ r)
  | cycle w r ↦ cc (sym h ∙ r)
  | last w p r ↦ cc (sym h ∙ r)
  | climb parent w p r ↦
      visit-fuel fuel entries parent (enter e.id m) x (parent_of entries e.parent_id parent p x).1
        (record {
          distinct = (w, f.distinct);
          keys = (has-of_get entries e.id g, f.keys);
          enough = omega (arith, f.enough);
        })
        (bind_err _ _ (sym r ∙ h))
]

-- The visits in progress are of entries from which the entry `id` is reached.
abbrev pub Reaches : Entries → Text → List Text → Type 0
Reaches entries id =
    All (λ v. (d : ℕ) → HasDepth entries id d → (n : ℕ) × HasDepth entries v n × (d < n))

pub contains-Reaches :
    (entries : Entries) (id : Text) (vs : List Text) (d : ℕ)
    → contains id vs ≡ true
    → Reaches entries id vs
    → HasDepth entries id d
    → ⊥
unfolding contains
contains-Reaches entries id [] d h a k = cc h
contains-Reaches entries id (v ∷ vs) d h a k = elim (Bool-cases (text_eq v id)) [
  | inl e ↦
      let (n, depth, more) = a.0 d k in
      let same = subst (λ y. HasDepth entries y n) ((text_eq_iff v id).0 e) depth in
      absurd (omega (arith, HasDepth-unique k same))
  | inr e ↦ contains-Reaches entries id vs d (rw e at h) a.1 k
]

Reaches-climb :
    (entries : Entries) (e parent : Entry) (vs : List Text)
    → Dict.get e.id entries ≡ some e
    → e.parent_id ≡ some parent.id
    → Reaches entries e.id vs
    → Reaches entries parent.id vs
Reaches-climb entries e parent [] g p a = tt
Reaches-climb entries e parent (v ∷ vs) g p a = (
  λ d k.
      let (n, depth, more) = a.0 (suc d) (below e.id e parent.id d g p k) in
      (n, depth, omega arith),
  Reaches-climb entries e parent vs g p a.1,
)

-- A visit that throws does so at an entry whose chain goes round.
pub visit-cycle :
    (fuel : ℕ) (entries : Entries) (e : Entry) (m : Marks) (id : Text)
    → IsIndexed entries
    → Dict.get e.id entries ≡ some e
    → Reaches entries e.id m.visiting
    → visit fuel entries e m ≡ err (parent_cycle id)
    → ¬ Ends entries id
visit-cycle zero entries e m id x g a h = unfold visit in cc h
visit-cycle (suc fuel) entries e m id x g a h = elim (Visit-cases fuel entries e m) [
  | seen v r ↦ cc (sym h ∙ r)
  | cycle w r ↦ λ (n, d).
      contains-Reaches entries e.id m.visiting n w a
        (subst (λ y. HasDepth entries y n) (cycle_same (sym h ∙ r)) d)
  | last w p r ↦ cc (sym h ∙ r)
  | climb parent w p r ↦
      let (q, found) = parent_of entries e.parent_id parent p x in
      visit-cycle fuel entries parent (enter e.id m) id x found
        (
          λ d k. (suc d, below e.id e parent.id d g q k, omega arith),
          Reaches-climb entries e parent m.visiting g q a,
        )
        (bind_err _ _ (sym r ∙ h))
]
