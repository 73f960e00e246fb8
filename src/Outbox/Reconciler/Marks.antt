-- ===== src/Outbox/Reconciler/Marks.antt =====
-- A change of one stored row, named by its identity, returns, and what it leaves behind.
use openwebui_gjc_adapter.Outbox.{Operation, key_of}
use openwebui_gjc_adapter.Outbox.Memory.{Store, update, require_operation, resolve_key}
use openwebui_gjc_adapter.Outbox.Memory.Calls.{after}
use openwebui_gjc_adapter.Outbox.Memory.Invariant.{
  IsNormal, IsRow, key_of-same, IsWellFormed, SameIdentity, update-IsWellFormed,
}
use openwebui_gjc_adapter.Outbox.Memory.Rows.{Keeps, update-Write, Write-Keeps}
use openwebui_gjc_adapter.Outbox.Reconciler.{reference_to}
use openwebui_gjc_adapter.Prelude.{
  ◌≤◌, ◌≡◌, refl, sym, ◌∙◌, [], ◌∷◌, some, Text, ok, All, filter, Bool, Bool-cases, inl, inr,
}
use openwebui_gjc_adapter.Prelude.Dict
use openwebui_gjc_adapter.Prelude.Dict.{All-get, get-set_self, Distinct, get-head, get-tail}

-- The row that a reference by identity names is in the store.
pub record IsStored (s : Store) (o : Operation) : Type 0 where
  pub row : Operation
  pub found : Dict.get (key_of o) s ≡ some row
  pub normal : IsNormal o.principal_id

require_operation-stored :
    (s : Store) (o row : Operation)
    → IsNormal o.principal_id
    → Dict.get (key_of o) s ≡ some row
    → require_operation (reference_to o) s ≡ ok (key_of o, row)
unfolding require_operation resolve_key key_of
require_operation-stored s o row n h = rw n (rw h refl)

-- A change of a stored row returns.
update-stored :
    (s : Store) (o row : Operation) (change : Operation → Operation)
    → IsNormal o.principal_id
    → Dict.get (key_of o) s ≡ some row
    → update (reference_to o) change s ≡ ok (change row, Dict.set (key_of o) (change row) s)
unfolding update
update-stored s o row change n h = rw (require_operation-stored s o row n h)

-- What a change of a stored row leaves behind.
pub record Marked (s : Store) (o q : Operation) (t : Store) : Type 0 where
  pub well_formed : IsWellFormed t
  pub keeps : Keeps s t
  pub same_key : key_of q ≡ key_of o
  pub normal : IsNormal q.principal_id
  pub stored : Dict.get (key_of q) t ≡ some q

pub update-Marked :
    (s : Store) (o : Operation) (change : Operation → Operation)
    → ((o : Operation) → SameIdentity o (change o))
    → ((o : Operation) → o.attempts ≤ (change o).attempts)
    → IsWellFormed s
    → IsStored s o
    → (q : Operation) × (t : Store) × (update (reference_to o) change s ≡ ok (q, t))
      × Marked s o q t
update-Marked s o change same more w h =
    let row = h.row in
    let q = change row in
    let t = Dict.set (key_of o) q s in
    let returns = update-stored s o row change h.normal h.found in
    let is_row = All-get IsRow (key_of o) row s w.rows h.found in
    let same_key : key_of q ≡ key_of o = sym (key_of-same (same row)) ∙ sym is_row.keyed in
    (
      q,
      t,
      returns,
      record {
        well_formed = rw (returns, after) at (update-IsWellFormed (reference_to o) change s same w);
        keeps = Write-Keeps (update-Write (reference_to o) change s same more w returns);
        same_key = same_key;
        normal = rw (← (same row).principal_id) is_row.normal;
        stored = rw same_key (get-set_self (key_of o) q s);
      },
    )

pub IsStored-Keeps : {s t : Store} {o : Operation} → Keeps s t → IsStored s o → IsStored t o
IsStored-Keeps {o = o} keeps h =
    let (p, found, _, _) = keeps (key_of o) h.row h.found in
    record { row = p; found = found; normal = h.normal }

pub Marked-IsStored : {s : Store} {o q : Operation} {t : Store} → Marked s o q t → IsStored t q
Marked-IsStored {q = q} m = record { row = q; found = m.stored; normal = m.normal }

filter-IsStored :
    (test : Operation → Bool) (s m : Store)
    → ((k : Text) (o : Operation) → Dict.get k m ≡ some o → Dict.get k s ≡ some o)
    → Distinct m
    → All IsRow m
    → All (IsStored s) (filter test (Dict.values m))
unfolding filter
filter-IsStored test s [] sub d rows = tt
filter-IsStored test s ((k, o) ∷ m) sub d rows =
    let rest = filter-IsStored test s m (λ j v h. sub j v (get-tail k j o v m d.0 h)) d.1 rows.1 in
    let here : IsStored s o = record {
      row = o;
      found = rw (← rows.0.keyed) (sub k o (get-head k o m));
      normal = rows.0.normal;
    } in
    elim (Bool-cases (test o)) [ inl e ↦ rw e (here, rest) | inr e ↦ rw e rest ]

-- The rows that a listing returns are stored.
pub list-IsStored :
    (test : Operation → Bool) (s : Store)
    → IsWellFormed s
    → All (IsStored s) (filter test (Dict.values s))
list-IsStored test s w = filter-IsStored test s s (λ k o h. h) w.distinct w.rows
