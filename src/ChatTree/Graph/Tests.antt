-- ===== src/ChatTree/Graph/Tests.antt =====
-- A session of two messages, one under the other (src/projection/chat-tree-graph.ts).
use openwebui_gjc_adapter.ChatTree.{Entry, plain, missing}
use openwebui_gjc_adapter.ChatTree.Graph.{
  Entries, Validation, parent_cycle, validate_session_entry_graph, index_of, assert_acyclic, Marks,
}
use openwebui_gjc_adapter.ChatTree.Graph.Visit.{Ends}
use openwebui_gjc_adapter.ChatTree.Graph.Acyclic.{assert_acyclic_decides}
use openwebui_gjc_adapter.ChatTree.Graph.Indexed.{validate_decides}
use openwebui_gjc_adapter.Prelude.{
  ◌≡◌, refl, inl, inr, ◌⊎◌, List, [], ◌∷◌, none, some, Text, codes, ok, err, contains, text_eq,
  filter,
}
use openwebui_gjc_adapter.Prelude.Dict

abbrev pub question : Entry
question = record {
  id = codes "a";
  parent_id = none;
  message = some (record { role = codes "user"; content = plain (codes "Hi"); timestamp = 1 });
}

abbrev pub answer : Entry
answer = record {
  id = codes "b";
  parent_id = some (codes "a");
  message = some (record { role = codes "assistant"; content = missing; timestamp = 2 });
}

abbrev pub two_entries : List Entry
two_entries = question ∷ answer ∷ []

abbrev pub two_indexed : Entries
two_indexed = (codes "a", question) ∷ (codes "b", answer) ∷ []

abbrev pub two_validated : Validation
two_validated = record {
  index = record {
    diagnostics = [];
    entries = two_indexed;
    children = (codes "a", codes "b" ∷ []) ∷ (codes "b", []) ∷ [];
  };
  current_id = some (codes "b");
}

pub two-valid : validate_session_entry_graph two_entries ≡ ok two_validated
unfolding validate_session_entry_graph Dict.get Dict.set text_eq contains filter
two-valid = refl

pub two_index : (index_of two_entries).entries ≡ two_indexed
unfolding index_of Dict.get Dict.set text_eq
two_index = refl

pub two-end : (id : Text) → Ends two_indexed id
two-end = elim (validate_decides two_entries) [
  | inl (_, ends) ↦ rw two_index at ends
  | inr (_, thrown, _) ↦ absurd (cc (thrown, two-valid))
]

assert_acyclic_decides_example :
    ((m : Marks) × (assert_acyclic two_indexed ≡ ok m) × ((id : Text) → Ends two_indexed id))
    ⊎ ((id : Text) × (assert_acyclic two_indexed ≡ err (parent_cycle id)) × (¬ Ends two_indexed id))
unfolding Dict.get text_eq
assert_acyclic_decides_example =
    assert_acyclic_decides two_indexed
      (record { distinct = (refl, (refl, tt)); own_key = (refl, (refl, tt)) })
