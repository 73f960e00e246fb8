-- ===== src/Outbox/Memory/Rows.antt =====
-- What a call does to the rows, as a reader by identity sees them.
use openwebui_gjc_adapter.Json.Injective.{stringify-injective}
use openwebui_gjc_adapter.Outbox.{
  Operation, EnqueueInput, Reference, key_of, canonical_key, by_identity, normalize_principal_id,
  assert_same_enqueue_identity, new_operation,
}
use openwebui_gjc_adapter.Outbox.Memory.{
  Store, update, get, resolve_key, lookup_key, enqueue_at, mark_applying, mark_applied, mark_failed,
  mark_reconcile,
}
use openwebui_gjc_adapter.Outbox.Memory.Calls.{
  Call, enqueues, applies, applieds, reconciles, fails, after_cases, call, step, run,
}
use openwebui_gjc_adapter.Outbox.Memory.Invariant.{
  step-IsWellFormed, call-IsWellFormed, IsRow, IsWellFormed, SameIdentity, update-eq-ok,
  enqueue-eq-ok, key_of-same,
}
use openwebui_gjc_adapter.Metadata.{Runtime, Readings}
use openwebui_gjc_adapter.Prelude.{
  ◌≤◌, ◌≡◌, ◌≢◌, refl, sym, ap, subst, ◌∙◌, ◌⊎◌, inl, inr, List, [], ◌∷◌, Option, none, some, Text,
  ok, >>=-eq-ok, arith, if◌then◌else◌, text_eq, text_eq_iff, text_eq_refl, Bool-cases,
}
use openwebui_gjc_adapter.Prelude.Dict
use openwebui_gjc_adapter.Prelude.Dict.{All-get, get-set, get-set_self, get-set_ne}

-- Operations with the same canonical key have the same principal, chat and operation ID.
pub canonical_key-injective :
    (p q : Option Text) (c d i j : Text)
    → canonical_key p c i ≡ canonical_key q d j
    → (p ≡ q) × (c ≡ d) × (i ≡ j)
unfolding canonical_key
canonical_key-injective p q c d i j h =
    let same = stringify-injective _ _ h in (cc same, cc same, cc same)

-- How a call that returns changes the store: not at all, or by writing a row that is new, or that
-- has the identity of the row that was there and no fewer attempts.
pub data Write (s : Store) (o : Operation) (t : Store) : Type 0 where
  keeps : Dict.get (key_of o) s ≡ some o → t ≡ s → Write s o t
  adds : Dict.get (key_of o) s ≡ none → t ≡ Dict.set (key_of o) o s → Write s o t
  changes :
      (old : Operation)
      → Dict.get (key_of o) s ≡ some old
      → SameIdentity old o
      → old.attempts ≤ o.attempts
      → t ≡ Dict.set (key_of o) o s
      → Write s o t

pub update-Write :
    (reference : Reference) (change : Operation → Operation) (s : Store) {o : Operation} {t : Store}
    → ((o : Operation) → SameIdentity o (change o))
    → ((o : Operation) → o.attempts ≤ (change o).attempts)
    → IsWellFormed s
    → update reference change s ≡ ok (o, t)
    → Write s o t
update-Write reference change s {o} {t} same more w h =
    let (k, old, found, changed, written) = update-eq-ok reference change s h in
    let keyed : k ≡ key_of o =
      cc ((All-get IsRow k old s w.rows found).keyed, key_of-same (same old), changed) in
    changes old (cc (keyed, found)) (rw changed (same old)) (rw changed (more old))
      (cc (keyed, written))

enqueue_at-Write :
    (key : Text) (found : Option Operation) (operation : Operation) (input : EnqueueInput)
    (s : Store) {o : Operation} {t : Store}
    → enqueue_at key found operation input s ≡ ok (o, t)
    → found ≡ Dict.get key s
    → key ≡ key_of operation
    → IsWellFormed s
    → Write s o t
unfolding enqueue_at
enqueue_at-Write key none operation input s h f k w = adds (cc) (cc)
enqueue_at-Write key (some existing) operation input s h f k w =
    let (_, _, kept) = >>=-eq-ok (assert_same_enqueue_identity existing input) _ h in
    let row = All-get IsRow key existing s w.rows (sym f) in keeps (cc (kept, row.keyed)) (cc kept)

call-Write :
    (rt : Runtime) (r : Readings) (c : Call) (s : Store) {o : Operation} {t : Store}
    → IsWellFormed s
    → call rt r c s ≡ ok (o, t)
    → Write s o t
unfolding call mark_applying mark_applied mark_failed mark_reconcile
call-Write rt r (enqueues input) s w h =
    let (p, normal, stored) = enqueue-eq-ok rt r input s h in
    enqueue_at-Write _ _ _ _ s stored refl (unfold key_of new_operation in refl) w
call-Write rt r (applies reference now) s w h =
    update-Write reference _ s (λ o. ground arith) (λ o. omega arith) w h
call-Write rt r (applieds reference now) s w h =
    update-Write reference _ s (λ o. ground arith) (λ o. omega arith) w h
call-Write rt r (reconciles reference now) s w h =
    update-Write reference _ s (λ o. ground arith) (λ o. omega arith) w h
call-Write rt r (fails reference error now) s w h =
    update-Write reference _ s (λ o. ground arith) (λ o. omega arith) w h

pub Write-get :
    {s : Store} {o : Operation} {t : Store} (k : Text)
    → Write s o t
    → Dict.get k t ≡ (if text_eq (key_of o) k then some o else Dict.get k s)
Write-get {s} {o} {t} k (keeps found same) = ground (arith, text_eq_iff (key_of o) k)
Write-get {s} {o} {t} k (adds found written) = rw written (get-set (key_of o) k o s)
Write-get {s} {o} {t} k (changes old found same more written) =
    rw written (get-set (key_of o) k o s)

abbrev identity : Operation → Reference
identity o = by_identity o.principal_id o.chat_id o.operation_id

get-by_identity :
    (p q : Option Text) (c i : Text) (s : Store)
    → normalize_principal_id p ≡ ok q
    → get (by_identity p c i) s ≡ ok (Dict.get (canonical_key q c i) s)
unfolding get resolve_key lookup_key
get-by_identity p q c i s h = rw h

identities_apart :
    (o : Operation) (q : Option Text) (chat_id operation_id : Text)
    → ((q ≢ o.principal_id) ⊎ ((chat_id ≢ o.chat_id) ⊎ (operation_id ≢ o.operation_id)))
    → ¬ (key_of o ≡ canonical_key q chat_id operation_id)
unfolding key_of
identities_apart o q chat_id operation_id other e =
    let same =
      canonical_key-injective o.principal_id q o.chat_id chat_id o.operation_id operation_id e in
    elim other [
      | inl p ↦ p (sym same.0)
      | inr (inl p) ↦ p (sym same.1)
      | inr (inr p) ↦ p (sym same.2)
    ]

-- After a call of the in-memory outbox that returns a row, on a well-formed store, reading that
-- row's identity gives the row.
pub get-call_self :
    (rt : Runtime) (r : Readings) (c : Call) (s : Store) {o : Operation} {t : Store}
    → IsWellFormed s
    → call rt r c s ≡ ok (o, t)
    → get (by_identity o.principal_id o.chat_id o.operation_id) t ≡ ok (some o)
get-call_self rt r c s {o} {t} w h =
    let stored : Dict.get (key_of o) t ≡ some o =
      Write-get (key_of o) (call-Write rt r c s w h) ∙ rw text_eq_refl in
    let row = All-get IsRow (key_of o) o t (call-IsWellFormed rt r c s w h).rows stored in
    get-by_identity o.principal_id o.principal_id o.chat_id o.operation_id t row.normal
    ∙ (unfold key_of in ap ok stored)

-- After a call of the in-memory outbox that returns, on a well-formed store, reading any identity
-- that differs from the returned row's in its normalized principal, its chat or its operation ID
-- gives what it gave before.
pub get-call_other :
    (rt : Runtime) (r : Readings) (c : Call) (s : Store) {o : Operation} {t : Store}
    (p q : Option Text) (chat_id operation_id : Text)
    → IsWellFormed s
    → call rt r c s ≡ ok (o, t)
    → normalize_principal_id p ≡ ok q
    → ((q ≢ o.principal_id) ⊎ ((chat_id ≢ o.chat_id) ⊎ (operation_id ≢ o.operation_id)))
    → get (by_identity p chat_id operation_id) t ≡ get (by_identity p chat_id operation_id) s
get-call_other rt r c s {o} {t} p q chat_id operation_id w h n other =
    let key = canonical_key q chat_id operation_id in
    let apart : key_of o ≢ key = λ e. identities_apart o q chat_id operation_id other e in
    get-by_identity p q chat_id operation_id t n
    ∙ ap ok (Write-get key (call-Write rt r c s w h) ∙ ground (arith, text_eq_iff (key_of o) key))
    ∙ sym (get-by_identity p q chat_id operation_id s n)

-- The row under each key of `s` is in `t`, with the same identity and no fewer attempts.
abbrev pub Keeps : Store → Store → Type 0
Keeps s t =
    (k : Text) (o : Operation)
    → Dict.get k s ≡ some o
    → (p : Operation) × (Dict.get k t ≡ some p) × SameIdentity o p × (o.attempts ≤ p.attempts)

SameIdentity-refl : (o : Operation) → SameIdentity o o
SameIdentity-refl o = ground arith

SameIdentity-trans : {o p q : Operation} → SameIdentity o p → SameIdentity p q → SameIdentity o q
SameIdentity-trans h k = ground arith

pub Keeps-refl : (s : Store) → Keeps s s
Keeps-refl s k o h = (o, h, SameIdentity-refl o, omega arith)

pub Keeps-trans : (s t u : Store) → Keeps s t → Keeps t u → Keeps s u
Keeps-trans s t u h l k o found =
    let (p, found', same, more) = h k o found in
    let (q, found'', same', more') = l k p found' in
    (q, found'', SameIdentity-trans same same', omega arith)

pub Write-Keeps : {s : Store} {o : Operation} {t : Store} → Write s o t → Keeps s t
Write-Keeps {s} (keeps found same) k old h = (old, rw same h, SameIdentity-refl old, omega arith)
Write-Keeps {s} {o} {t} (adds found written) k old h = elim (Bool-cases (text_eq (key_of o) k)) [
  | inl e ↦ absurd (cc ((text_eq_iff (key_of o) k).0 e))
  | inr e ↦ (old, Write-get k (adds found written) ∙ rw e h, SameIdentity-refl old, omega arith)
]
Write-Keeps {s} {o} {t} (changes before found same more written) k old h =
    elim (Bool-cases (text_eq (key_of o) k)) [
      | inl e ↦
          let eq : before ≡ old = cc ((text_eq_iff (key_of o) k).0 e) in
          (
            o,
            Write-get k (changes before found same more written) ∙ rw e,
            subst (λ b. SameIdentity b o) eq same,
            subst (λ (b : Operation). b.attempts ≤ o.attempts) eq more,
          )
      | inr e ↦ (
        old,
        Write-get k (changes before found same more written) ∙ rw e h,
        SameIdentity-refl old,
        omega arith,
      )
    ]

step-Keeps :
    (rt : Runtime) (r : Readings) (c : Call) (s : Store) → IsWellFormed s → Keeps s (step rt r c s)
unfolding step
step-Keeps rt r c s w =
    after_cases (Keeps s) s (call rt r c s) (Keeps-refl s)
      λ o t h. Write-Keeps (call-Write rt r c s w h)

-- From a well-formed store no history of calls, thrown ones included, loses a row: each stays
-- under its key with its operation ID, principal, owner, project, chat, kind, payload and creation
-- time, and its attempts never go down.
pub run-Keeps :
    (rt : Runtime) (calls : List (Readings × Call)) (s : Store)
    → IsWellFormed s
    → Keeps s (run rt calls s)
unfolding run
run-Keeps rt [] s w = Keeps-refl s
run-Keeps rt ((r, c) ∷ calls) s w =
    Keeps-trans s (step rt r c s) _ (step-Keeps rt r c s w)
      (run-Keeps rt calls (step rt r c s) (step-IsWellFormed rt r c s w))
