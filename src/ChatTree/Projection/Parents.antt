-- ===== src/ChatTree/Projection/Parents.antt =====
-- The parents of the messages, as the first loop of the projection collects them.
use openwebui_gjc_adapter.ChatTree.{Entry, is_message}
use openwebui_gjc_adapter.ChatTree.Graph.{Entries}
use openwebui_gjc_adapter.ChatTree.Graph.Visit.{Ends}
use openwebui_gjc_adapter.ChatTree.Graph.Acyclic.{Known}
use openwebui_gjc_adapter.ChatTree.Projection.{visible_parent, visible_parents}
use openwebui_gjc_adapter.ChatTree.Projection.Tree.{Nearest, find_nearest-Nearest}
use openwebui_gjc_adapter.Prelude.{
  ◌≡◌, refl, true, inl, inr, List, [], ◌∷◌, Option, some, Text, ok, All, Bool-cases,
}
use openwebui_gjc_adapter.Prelude.Dict
use openwebui_gjc_adapter.Prelude.Dict.{
  Dict, Distinct, set-Distinct, All-set, All-get, has-set, has-set_self,
}

-- A message with the message above it.
pub record IsParent (entries : Entries) (x : Text × Option Text) : Type 0 where
  pub entry : Entry
  pub found : Dict.get x.0 entries ≡ some entry
  pub message : is_message entry ≡ true
  pub nearest : Nearest entries entry.parent_id x.1

pub record IsParents (entries : Entries) (p : Dict (Option Text)) : Type 0 where
  pub distinct : Distinct p
  pub each : All (IsParent entries) p

-- The loop returns, and adds the messages among the entries.
pub record Adds (entries : Entries) (es : List Entry) (p : Dict (Option Text)) : Type 0 where
  pub result : Dict (Option Text)
  pub returns : visible_parents entries es p ≡ ok result
  pub parents : IsParents entries result
  pub kept : (k : Text) → Dict.has k p ≡ true → Dict.has k result ≡ true
  pub covered : All (λ e. is_message e ≡ true → Dict.has e.id result ≡ true) es

pub visible_parents-Adds :
    (entries : Entries) (es : List Entry) (p : Dict (Option Text))
    → ((id : Text) → Ends entries id)
    → Known entries es
    → IsParents entries p
    → Adds entries es p
unfolding visible_parents visible_parent
visible_parents-Adds entries [] p ends k h = record {
  result = p;
  returns = refl;
  parents = h;
  kept = λ j x. x;
  covered = tt;
}
visible_parents-Adds entries (e ∷ es) p ends k h = elim (Bool-cases (is_message e)) [
  | inl m ↦
      let (r, found, nearest) = find_nearest-Nearest entries e.parent_id ends in
      let rest = visible_parents-Adds entries es (Dict.set e.id r p) ends k.1 (record {
        distinct = set-Distinct e.id r p h.distinct;
        each =
            All-set (IsParent entries) e.id r p h.each
              (record { entry = e; found = k.0; message = m; nearest = nearest });
      }) in
      record {
        result = rest.result;
        returns = rw m (rw found (rest.returns));
        parents = rest.parents;
        kept = λ j x. rest.kept j (has-set e.id j r p x);
        covered = (λ _. rest.kept e.id (has-set_self e.id r p), rest.covered);
      }
  | inr m ↦
      let rest = visible_parents-Adds entries es p ends k.1 h in
      record {
        result = rest.result;
        returns = rw m (rest.returns);
        parents = rest.parents;
        kept = rest.kept;
        covered = (λ y. cc (m, y), rest.covered);
      }
]
