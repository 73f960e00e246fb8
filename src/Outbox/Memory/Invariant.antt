-- ===== src/Outbox/Memory/Invariant.antt =====
-- What holds of the store between two calls: every row stands under its own canonical key.
use openwebui_gjc_adapter.Outbox.{
  Operation, EnqueueInput, Reference, key_of, canonical_key, normalize_principal_id,
  assert_same_enqueue_identity, new_operation, operation_id_for, to_timestamp,
}
use openwebui_gjc_adapter.Outbox.Memory.{
  Store, update, enqueue, enqueue_at, require_operation, require_found, resolve_key, lookup_key,
  mark_applying, mark_applied, mark_failed, mark_reconcile, normalized_input,
}
use openwebui_gjc_adapter.Outbox.Memory.Calls.{
  Call, enqueues, applies, applieds, reconciles, fails, after, after_cases, call, step, run,
}
use openwebui_gjc_adapter.Metadata.{Runtime, Readings}
use openwebui_gjc_adapter.Prelude.{
  ◌≡◌, refl, subst, List, [], ◌∷◌, Option, none, some, Text, ok, >>=-eq-ok, All, arith, trim_idem,
}
use openwebui_gjc_adapter.Prelude.Dict
use openwebui_gjc_adapter.Prelude.Dict.{Distinct, set-Distinct, All-set, All-get}

-- A principal ID as it is stored: trimmed, and not empty.
abbrev pub IsNormal : Option Text → Type 0
IsNormal p = normalize_principal_id p ≡ ok p

pub record IsRow (e : Text × Operation) : Type 0 where
  pub keyed : e.0 ≡ key_of e.1
  pub normal : IsNormal e.1.principal_id

pub record IsWellFormed (s : Store) : Type 0 where
  pub distinct : Distinct s
  pub rows : All IsRow s

-- What `update` may change: the state, the attempts, the time of the change and the error.
pub record SameIdentity (o p : Operation) : Type 0 where
  pub operation_id : o.operation_id ≡ p.operation_id
  pub principal_id : o.principal_id ≡ p.principal_id
  pub owner_user_id : o.owner_user_id ≡ p.owner_user_id
  pub project_id : o.project_id ≡ p.project_id
  pub chat_id : o.chat_id ≡ p.chat_id
  pub kind : o.kind ≡ p.kind
  pub payload_hash : o.payload_hash ≡ p.payload_hash
  pub created_at : o.created_at ≡ p.created_at

pub normalize_idem : (p q : Option Text) → normalize_principal_id p ≡ ok q → IsNormal q
unfolding normalize_principal_id
normalize_idem none q h = ground arith
normalize_idem (some v) none h = ground arith
normalize_idem (some v) (some w) h = ground (arith, trim_idem v)

set-IsWellFormed :
    (o : Operation) (s : Store)
    → IsWellFormed s
    → IsNormal o.principal_id
    → IsWellFormed (Dict.set (key_of o) o s)
set-IsWellFormed o s w n = record {
  distinct = set-Distinct (key_of o) o s w.distinct;
  rows = All-set IsRow (key_of o) o s w.rows (record { keyed = refl; normal = n });
}

require_found-eq-ok :
    (reference : Reference) (key : Option Text) (s : Store) {k : Text} {o : Operation}
    → require_found reference key (lookup_key key s) ≡ ok (k, o)
    → Dict.get k s ≡ some o
unfolding require_found lookup_key
require_found-eq-ok reference none s h = cc
require_found-eq-ok reference (some key) s h = ground arith

pub require_operation-eq-ok :
    (reference : Reference) (s : Store) {k : Text} {o : Operation}
    → require_operation reference s ≡ ok (k, o)
    → Dict.get k s ≡ some o
unfolding require_operation
require_operation-eq-ok reference s h =
    let (key, _, found) = >>=-eq-ok (resolve_key reference s) _ h in
    require_found-eq-ok reference key s found

-- A change of one row writes it back under its key.
pub update-eq-ok :
    (reference : Reference) (change : Operation → Operation) (s : Store) {p : Operation} {t : Store}
    → update reference change s ≡ ok (p, t)
    → (k : Text) × (o : Operation) × (Dict.get k s ≡ some o) × (p ≡ change o) × (t ≡ Dict.set k p s)
unfolding update
update-eq-ok reference change s h =
    let ((k, o), required, rest) = >>=-eq-ok (require_operation reference s) _ h in
    (k, o, require_operation-eq-ok reference s required, cc, cc)

pub key_of-same : {o p : Operation} → SameIdentity o p → key_of o ≡ key_of p
unfolding key_of
key_of-same h = cc

pub update-IsWellFormed :
    (reference : Reference) (change : Operation → Operation) (s : Store)
    → ((o : Operation) → SameIdentity o (change o))
    → IsWellFormed s
    → IsWellFormed (after s (update reference change s))
update-IsWellFormed reference change s same w =
    after_cases IsWellFormed s (update reference change s) w λ p t h.
      let (k, o, found, changed, written) = update-eq-ok reference change s h in
      let row = All-get IsRow k o s w.rows found in
      let keyed : k ≡ key_of p = cc (row.keyed, key_of-same (same o), changed) in
      rw (written, keyed)
        (set-IsWellFormed p s w (rw changed (rw (← (same o).principal_id) row.normal)))

-- A row is written as pending under its own key, or the row that is there has the same purpose.
pub enqueue-eq-ok :
    (rt : Runtime) (r : Readings) (input : EnqueueInput) (s : Store) {o : Operation} {t : Store}
    → enqueue rt r input s ≡ ok (o, t)
    → (p : Option Text) × (normalize_principal_id input.principal_id ≡ ok p)
      × (enqueue_at
            (canonical_key p input.chat_id (operation_id_for rt r input))
            (Dict.get (canonical_key p input.chat_id (operation_id_for rt r input)) s)
            (new_operation (operation_id_for rt r input) p input (to_timestamp rt r input.now))
            (normalized_input p input)
            s
          ≡ ok (o, t))
unfolding enqueue
enqueue-eq-ok rt r input s h = >>=-eq-ok (normalize_principal_id input.principal_id) _ h

enqueue_at-IsWellFormed :
    (key : Text) (found : Option Operation) (operation : Operation) (input : EnqueueInput)
    (s : Store) {o : Operation} {t : Store}
    → enqueue_at key found operation input s ≡ ok (o, t)
    → key ≡ key_of operation
    → IsNormal operation.principal_id
    → IsWellFormed s
    → IsWellFormed t
unfolding enqueue_at
enqueue_at-IsWellFormed key none operation input s h k n w =
    subst IsWellFormed (cc) (set-IsWellFormed operation s w n)
enqueue_at-IsWellFormed key (some existing) operation input s h k n w =
    let (_, _, kept) = >>=-eq-ok (assert_same_enqueue_identity existing input) _ h in
    subst IsWellFormed (cc kept) w

enqueue-IsWellFormed :
    (rt : Runtime) (r : Readings) (input : EnqueueInput) (s : Store)
    → IsWellFormed s
    → IsWellFormed (after s (enqueue rt r input s))
enqueue-IsWellFormed rt r input s w = after_cases IsWellFormed s (enqueue rt r input s) w λ o t h.
    let (p, normal, stored) = enqueue-eq-ok rt r input s h in
    enqueue_at-IsWellFormed _ _ _ _ s stored (unfold key_of new_operation in refl)
      (unfold new_operation in normalize_idem input.principal_id p normal) w

-- Every call keeps each row under its own canonical key, with a trimmed principal, and no key twice.
pub step-IsWellFormed :
    (rt : Runtime) (r : Readings) (c : Call) (s : Store)
    → IsWellFormed s
    → IsWellFormed (step rt r c s)
unfolding step call mark_applying mark_applied mark_failed mark_reconcile
step-IsWellFormed rt r (enqueues input) s w = enqueue-IsWellFormed rt r input s w
step-IsWellFormed rt r (applies reference now) s w =
    update-IsWellFormed reference _ s (λ o. ground arith) w
step-IsWellFormed rt r (applieds reference now) s w =
    update-IsWellFormed reference _ s (λ o. ground arith) w
step-IsWellFormed rt r (reconciles reference now) s w =
    update-IsWellFormed reference _ s (λ o. ground arith) w
step-IsWellFormed rt r (fails reference error now) s w =
    update-IsWellFormed reference _ s (λ o. ground arith) w

-- Every history of calls on a well-formed store leaves it well formed: no key has two rows, and
-- each row stands under the canonical key of its own identity, with a normalized principal.
pub run-IsWellFormed :
    (rt : Runtime) (calls : List (Readings × Call)) (s : Store)
    → IsWellFormed s
    → IsWellFormed (run rt calls s)
unfolding run
run-IsWellFormed rt [] s w = w
run-IsWellFormed rt ((r, c) ∷ calls) s w =
    run-IsWellFormed rt calls (step rt r c s) (step-IsWellFormed rt r c s w)

pub call-IsWellFormed :
    (rt : Runtime) (r : Readings) (c : Call) (s : Store) {o : Operation} {t : Store}
    → IsWellFormed s
    → call rt r c s ≡ ok (o, t)
    → IsWellFormed t
unfolding step
call-IsWellFormed rt r c s w h = rw (h, after) at (step-IsWellFormed rt r c s w)
