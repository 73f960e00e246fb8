-- ===== src/ChatTree/Graph/Acyclic.antt =====
-- `assertAcyclic` accepts the entries exactly when every chain of parents ends.
use openwebui_gjc_adapter.ChatTree.{Entry}
use openwebui_gjc_adapter.ChatTree.Graph.{
  Entries, Error, parent_cycle, out_of_fuel, Marks, visit, visit_all, assert_acyclic,
}
use openwebui_gjc_adapter.ChatTree.Graph.Depth.{absent}
use openwebui_gjc_adapter.Prelude.{
  ◌+◌, ◌≡◌, refl, sym, ◌∙◌, subst, ◌⊎◌, inl, inr, List, [], ◌∷◌, some, Text, ok, err, Result-cases,
  arith, All, length, Option-cases,
}
use openwebui_gjc_adapter.Prelude.Dict
use openwebui_gjc_adapter.Prelude.Dict.{Distinct, All-get, All-value, get-head, get-tail}
use openwebui_gjc_adapter.ChatTree.Graph.Visit.{IsIndexed, Ends, visit-visiting}
use openwebui_gjc_adapter.ChatTree.Graph.Verdict.{visit-Ends, visit-fuel, visit-cycle}

abbrev pub Known : Entries → List Entry → Type 0
Known entries = All (λ e. Dict.get e.id entries ≡ some e)

-- A visit from the loop: no other is in progress.
module _ (entries : Entries) (e : Entry) (m : Marks) (x : IsIndexed entries)
    (g : Dict.get e.id entries ≡ some e) (idle : m.visiting ≡ []) where
  visit_throws :
      (error : Error)
      → visit (length entries + 1) entries e m ≡ err error
      → (id : Text) × (visit (length entries + 1) entries e m ≡ err (parent_cycle id))
        × (¬ Ends entries id)
  visit_throws (parent_cycle id) h = (id, h, visit-cycle _ entries e m id x g (rw idle tt) h)
  visit_throws out_of_fuel h = absurd (
      visit-fuel _ entries e m x g
        (record { distinct = rw idle tt; keys = rw idle tt; enough = omega arith }) h)

-- Either every visit returns, and every chain ends, or one throws at a chain that goes round.
visit_all_decides :
    (entries : Entries) (es : List Entry) (m : Marks)
    → IsIndexed entries
    → Known entries es
    → m.visiting ≡ []
    → All (Ends entries) m.visited
    → ((m' : Marks) × (visit_all (length entries + 1) entries es m ≡ ok m')
        × All (λ e. Ends entries e.id) es)
      ⊎ ((id : Text) × (visit_all (length entries + 1) entries es m ≡ err (parent_cycle id))
          × (¬ Ends entries id))
unfolding visit_all
visit_all_decides entries [] m x k idle a = inl (m, refl, tt)
visit_all_decides entries (e ∷ es) m x k idle a =
    elim (Result-cases (visit (length entries + 1) entries e m)) [
      | inl (m', r) ↦
          let (ends, a') = visit-Ends _ entries e m x k.0 a r in
          elim (visit_all_decides entries es m' x k.1 (visit-visiting _ entries e m r ∙ idle) a') [
            | inl (m'', r', rest) ↦ inl (m'', rw r r', (ends, rest))
            | inr (id, r', round) ↦ inr (id, rw r r', round)
          ]
      | inr (error, r) ↦
          let (id, r', round) = visit_throws entries e m x k.0 idle error r in
          inr (id, rw r', round)
    ]

-- In an index every entry is found, and every key has an entry.
pub values-get :
    (entries m : Entries)
    → ((k : Text) (e : Entry) → Dict.get k m ≡ some e → Dict.get k entries ≡ some e)
    → IsIndexed m
    → Known entries (Dict.values m)
values-get entries [] sub x = tt
values-get entries ((k, e) ∷ m) sub x = (
  subst (λ j. Dict.get j entries ≡ some e) x.own_key.0 (sub k e (get-head k e m)),
  values-get entries m (λ j f h. sub j f (get-tail k j e f m x.distinct.0 h))
      (record { distinct = x.distinct.1; own_key = x.own_key.1 }),
)

all_end :
    (entries : Entries)
    → IsIndexed entries
    → All (λ e. Ends entries e.id) (Dict.values entries)
    → (id : Text) → Ends entries id
all_end entries x ends id = elim (Option-cases (Dict.get id entries)) [
  | inl h ↦ (0, absent id h)
  | inr (e, h) ↦
      subst (Ends entries) (sym (All-get (λ y. y.0 ≡ y.1.id) id e entries x.own_key h))
        (All-value (λ f. Ends entries f.id) id e entries ends h)
]

abbrev start : Marks
start = record { visited = []; visiting = [] }

-- On entries that stand under their own IDs, each once, the check returns and every chain of
-- parents ends, or it throws at an ID whose chain does not end; it never runs out of fuel.
pub assert_acyclic_decides :
    (entries : Entries)
    → IsIndexed entries
    → ((m : Marks) × (assert_acyclic entries ≡ ok m) × ((id : Text) → Ends entries id))
      ⊎ ((id : Text) × (assert_acyclic entries ≡ err (parent_cycle id)) × (¬ Ends entries id))
unfolding assert_acyclic
assert_acyclic_decides entries x =
    elim (visit_all_decides entries (Dict.values entries) start x
      (values-get entries entries (λ k e h. h) x) refl tt) [
        | inl (m, r, ends) ↦ inl (m, r, all_end entries x ends)
        | inr (id, r, round) ↦ inr (id, r, round)
      ]
