-- ===== src/ChatTree/Graph/Indexed.antt =====
-- The index of the entries.
use openwebui_gjc_adapter.ChatTree.{Entry}
use openwebui_gjc_adapter.ChatTree.Graph.{
  Index, index_entry, index_entries, link_to, link_parent, link_entries, index_of, Validation,
  parent_cycle, validate_session_entry_graph, find_current_id,
}
use openwebui_gjc_adapter.ChatTree.Graph.Visit.{IsIndexed, Ends}
use openwebui_gjc_adapter.ChatTree.Graph.Acyclic.{assert_acyclic_decides}
use openwebui_gjc_adapter.Prelude.{
  ◌≡◌, refl, sym, ◌∙◌, subst, inl, inr, List, [], ◌∷◌, Option, none, some, Text, ok, err, ◌⊎◌,
  arith, Bool-cases,
}
use openwebui_gjc_adapter.Prelude.Dict
use openwebui_gjc_adapter.Prelude.Dict.{set-Distinct, All-set}

index_entry-IsIndexed :
    (x : Index) (e : Entry) → IsIndexed x.entries → IsIndexed (index_entry x e).entries
unfolding index_entry
index_entry-IsIndexed x e h = elim (Bool-cases (Dict.has e.id x.entries)) [
  | inl b ↦ rw b h
  | inr b ↦ rw b (record {
    distinct = set-Distinct e.id e x.entries h.distinct;
    own_key = All-set (λ y. y.0 ≡ y.1.id) e.id e x.entries h.own_key refl;
  })
]

index_entries-IsIndexed :
    (x : Index) (es : List Entry) → IsIndexed x.entries → IsIndexed (index_entries x es).entries
unfolding index_entries
index_entries-IsIndexed x [] h = h
index_entries-IsIndexed x (e ∷ es) h =
    index_entries-IsIndexed (index_entry x e) es (index_entry-IsIndexed x e h)

entries-link_parent :
    (x : Index) (e : Entry) (p : Option Text) → (link_parent x e p).entries ≡ x.entries
unfolding link_parent link_to
entries-link_parent x e none = refl
entries-link_parent x e (some p) = ground arith

entries-link_entries : (x : Index) (es : List Entry) → (link_entries x es).entries ≡ x.entries
unfolding link_entries
entries-link_entries x [] = refl
entries-link_entries x (e ∷ es) =
    entries-link_entries (link_parent x e e.parent_id) es ∙ entries-link_parent x e e.parent_id

-- The entries stand under their own IDs, each once.
pub index_of-IsIndexed : (es : List Entry) → IsIndexed (index_of es).entries
unfolding index_of
index_of-IsIndexed es =
    let empty : Index = record { diagnostics = []; entries = []; children = [] } in
    let first = index_entries empty es in
    subst IsIndexed (sym (entries-link_entries first (Dict.values first.entries)))
      (index_entries-IsIndexed empty es (record { distinct = tt; own_key = tt }))

-- What the validation returns.
abbrev pub validated : List Entry → Validation
validated es = record {
  index = index_of es;
  current_id = find_current_id (index_of es).entries (index_of es).children;
}

-- The validation returns the index and every chain of parents ends, or it throws at a chain that
-- does not end.
pub validate_decides :
    (es : List Entry)
    → ((validate_session_entry_graph es ≡ ok (validated es))
        × ((id : Text) → Ends (index_of es).entries id))
      ⊎ ((id : Text) × (validate_session_entry_graph es ≡ err (parent_cycle id))
          × (¬ Ends (index_of es).entries id))
unfolding validate_session_entry_graph
validate_decides es = elim (assert_acyclic_decides (index_of es).entries (index_of-IsIndexed es)) [
  | inl (m, r, ends) ↦ inl (rw r refl, ends)
  | inr (id, r, round) ↦ inr (id, rw r refl, round)
]
