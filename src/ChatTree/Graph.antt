-- ===== src/ChatTree/Graph.antt =====
-- `validateSessionEntryGraph` (src/projection/chat-tree-graph.ts).
pub mod Depth
pub mod Visit
mod Verdict
pub mod Acyclic
pub mod Indexed
pub mod Tests
use openwebui_gjc_adapter.ChatTree.{Entry}
use openwebui_gjc_adapter.Prelude.{
  ℕ, zero, suc, ◌+◌, Bool, true, false, not, ◌||◌, List, [], ◌∷◌, ◌++◌, Option, none, some, Text,
  codes, Result, ok, err, ◌>>=◌, if◌then◌else◌, text_eq, filter, length, get_or, contains,
}
use openwebui_gjc_adapter.Prelude.Dict
use openwebui_gjc_adapter.Prelude.Dict.{Dict}

pub data Diagnostic : Type 0 where
  duplicate_entry_id : Text → Text → Diagnostic
  missing_parent : Text → Text → Text → Diagnostic

-- `out_of_fuel` is no error of the program: it is never met.
pub data Error : Type 0 where
  parent_cycle : Text → Error
  out_of_fuel : Error

abbrev pub Entries : Type 0
Entries = Dict Entry

abbrev pub Children : Type 0
Children = Dict (List Text)

pub record Index : Type 0 where
  pub diagnostics : List Diagnostic
  pub entries : Entries
  pub children : Children

-- The message of a diagnostic, its entry and its parent.
duplicate : Text → Diagnostic
duplicate id = duplicate_entry_id (codes "Duplicate GJC session entry id: " ++ id) id

dangling : Text → Text → Diagnostic
dangling id parent =
    missing_parent
      (codes "GJC session entry " ++ (id ++ (codes " references missing parent " ++ parent))) id
      parent

-- The first loop: the first entry with an ID is kept.
index_entry : Index → Entry → Index
unfolding duplicate
index_entry x e =
    if Dict.has e.id x.entries
    then record x { diagnostics = x.diagnostics ++ (duplicate e.id ∷ []) }
    else record x { entries = Dict.set e.id e x.entries; children = Dict.set e.id [] x.children }

pub index_entries : Index → List Entry → Index
unfolding index_entry
index_entries x [] = x
index_entries x (e ∷ es) = index_entries (index_entry x e) es

-- The second loop: an entry is pushed to its parent's children.
link_to : Index → Entry → Text → Option (List Text) → Index
unfolding dangling
link_to x e parent none = record x { diagnostics = x.diagnostics ++ (dangling e.id parent ∷ []) }
link_to x e parent (some siblings) = record x {
  children = Dict.set parent (siblings ++ (e.id ∷ [])) x.children;
}

link_parent : Index → Entry → Option Text → Index
unfolding link_to
link_parent x e none = x
link_parent x e (some parent) = link_to x e parent (Dict.get parent x.children)

pub link_entries : Index → List Entry → Index
unfolding link_parent
link_entries x [] = x
link_entries x (e ∷ es) = link_entries (link_parent x e e.parent_id) es

pub remove : Text → List Text → List Text
remove k js = filter (λ j. not (text_eq j k)) js

pub record Marks : Type 0 where
  pub visited : List Text
  pub visiting : List Text

pub done : Text → Marks → Marks
unfolding remove
done id m = record { visited = id ∷ m.visited; visiting = remove id m.visiting }

pub lookup_parent : Entries → Option Text → Option Entry
lookup_parent entries none = none
lookup_parent entries (some parent) = Dict.get parent entries

-- `visit`, which calls itself on the parent; the fuel bounds the length of the parents' chain.
visit_parent : (Entry → Marks → Result Error Marks) → Option Entry → Marks → Result Error Marks
visit_parent visit none m = ok m
visit_parent visit (some parent) m = visit parent m

pub visit : ℕ → Entries → Entry → Marks → Result Error Marks
unfolding done lookup_parent visit_parent
visit zero entries e m = err out_of_fuel
visit (suc fuel) entries e m =
    if contains e.id m.visited
    then ok m
    else if contains e.id m.visiting
    then err (parent_cycle e.id)
    else do
      m' ←
          visit_parent (visit fuel entries) (lookup_parent entries e.parent_id)
            (record m { visiting = e.id ∷ m.visiting })
      ok (done e.id m')

visit_all : ℕ → Entries → List Entry → Marks → Result Error Marks
unfolding visit
visit_all fuel entries [] m = ok m
visit_all fuel entries (e ∷ es) m = do m' ← visit fuel entries e m; visit_all fuel entries es m'

-- One step of fuel for each entry, and one to find that the chain goes round.
pub assert_acyclic : Entries → Result Error Marks
unfolding visit_all
assert_acyclic entries =
    visit_all (length entries + 1) entries (Dict.values entries)
      (record { visited = []; visiting = [] })

is_empty : List Text → Bool
is_empty [] = true
is_empty (_ ∷ _) = false

-- The last entry with no children.
current_from : Option Text → Children → List Text → Option Text
unfolding is_empty
current_from current children [] = current
current_from current children (id ∷ ids) =
    current_from (if is_empty (get_or (Dict.get id children) []) then some id else current) children
      ids

pub find_current_id : Entries → Children → Option Text
unfolding current_from
find_current_id entries children = current_from none children (Dict.keys entries)

pub record Validation : Type 0 where
  pub index : Index
  pub open index use *
  pub current_id : Option Text

pub index_of : List Entry → Index
unfolding index_entries link_entries
index_of es =
    let first = index_entries (record { diagnostics = []; entries = []; children = [] }) es in
    link_entries first (Dict.values first.entries)

pub validate_session_entry_graph : List Entry → Result Error Validation
unfolding index_of assert_acyclic find_current_id
validate_session_entry_graph es =
    let x = index_of es in
    assert_acyclic x.entries >>= λ _.
    ok (record { index = x; current_id = find_current_id x.entries x.children })
