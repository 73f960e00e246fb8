-- ===== src/Outbox/Memory/Enqueue.antt =====
-- Enqueueing is idempotent, and refuses an operation ID that is used for something else.
use openwebui_gjc_adapter.Outbox.{
  Kind, Operation, EnqueueInput, id_conflict, canonical_key, key_of, normalize_principal_id,
  assert_same_enqueue_identity, new_operation, operation_id_for, kind_eq, same_enqueue_fields,
}
use openwebui_gjc_adapter.Outbox.Memory.{Store, enqueue, enqueue_at, normalized_input}
use openwebui_gjc_adapter.Outbox.Memory.Invariant.{
  enqueue-eq-ok, normalize_idem, IsRow, IsWellFormed, call-IsWellFormed,
}
use openwebui_gjc_adapter.Outbox.Memory.Calls.{call, enqueues}
use openwebui_gjc_adapter.Outbox.Memory.Rows.{canonical_key-injective}
use openwebui_gjc_adapter.Metadata.{Runtime, Readings}
use openwebui_gjc_adapter.Prelude.{
  ◌≡◌, ◌↔◌, refl, ap, subst, ◌∙◌, inl, inr, true, Option, none, some, Text, ok, err, ◌>>◌,
  >>=-eq-ok, arith, text_eq_iff, option_eq_iff, Bool-cases,
}
use openwebui_gjc_adapter.Prelude.Dict
use openwebui_gjc_adapter.Prelude.Dict.{get-set_self, All-get}

-- The row and the input agree on everything but the operation ID and the time.
pub record SamePurpose (o : Operation) (input : EnqueueInput) : Type 0 where
  pub owner_user_id : o.owner_user_id ≡ input.owner_user_id
  pub project_id : o.project_id ≡ input.project_id
  pub chat_id : o.chat_id ≡ input.chat_id
  pub kind : o.kind ≡ input.kind
  pub payload_hash : o.payload_hash ≡ input.payload_hash

kind_eq_iff : (k l : Kind) → (kind_eq k l ≡ true) ↔ (k ≡ l)
unfolding kind_eq
kind_eq_iff k l = ground arith

assert-same :
    (o : Operation) (input : EnqueueInput)
    → normalize_principal_id input.principal_id ≡ ok o.principal_id
    → SamePurpose o input
    → assert_same_enqueue_identity o input ≡ ok tt
unfolding assert_same_enqueue_identity
assert-same o input n h = ground (
  arith,
  text_eq_iff o.owner_user_id input.owner_user_id,
  text_eq_iff o.project_id input.project_id,
  text_eq_iff o.chat_id input.chat_id,
  kind_eq_iff o.kind input.kind,
  text_eq_iff o.payload_hash input.payload_hash,
  option_eq_iff o.principal_id o.principal_id,
)

same_fields :
    (o : Operation) (input : EnqueueInput)
    → same_enqueue_fields o input ≡ true
    → SamePurpose o input
unfolding same_enqueue_fields
same_fields o input h = ground (
  arith,
  text_eq_iff o.owner_user_id input.owner_user_id,
  text_eq_iff o.project_id input.project_id,
  text_eq_iff o.chat_id input.chat_id,
  kind_eq_iff o.kind input.kind,
  text_eq_iff o.payload_hash input.payload_hash,
)

same_of_assert :
    (o : Operation) (input : EnqueueInput)
    → assert_same_enqueue_identity o input ≡ ok tt
    → SamePurpose o input
unfolding assert_same_enqueue_identity
same_of_assert o input h = elim (Bool-cases (same_enqueue_fields o input)) [
  | inl e ↦ same_fields o input e
  | inr e ↦ cc e
]

assert-differs :
    (o : Operation) (input : EnqueueInput)
    → ¬ SamePurpose o input
    → assert_same_enqueue_identity o input ≡ err (id_conflict o.operation_id)
unfolding assert_same_enqueue_identity
assert-differs o input h = elim (Bool-cases (same_enqueue_fields o input)) [
  | inl e ↦ absurd (h (same_fields o input e))
  | inr e ↦ rw e
]

normalized_purpose :
    (o : Operation) (p : Option Text) (input : EnqueueInput)
    → SamePurpose o (normalized_input p input) ↔ SamePurpose o input
unfolding normalized_input
normalized_purpose o p input = (λ h. ground arith, λ h. ground arith)

normalized_principal :
    (p : Option Text) (input : EnqueueInput) → (normalized_input p input).principal_id ≡ p
unfolding normalized_input
normalized_principal p input = ground (arith, option_eq_iff p input.principal_id)

module _ (rt : Runtime) (r : Readings) (input : EnqueueInput) (s : Store) (o : Operation) where
  -- On a row that is there, `enqueue` is the comparison with it.
  enqueue-existing :
      normalize_principal_id input.principal_id ≡ ok o.principal_id
      → Dict.get (canonical_key o.principal_id input.chat_id (operation_id_for rt r input)) s
        ≡ some o
      → enqueue rt r input s
        ≡ (assert_same_enqueue_identity o (normalized_input o.principal_id input) >> ok (o, s))
  unfolding enqueue
  enqueue-existing n h = rw n (rw h (unfold enqueue_at in refl))

  enqueue-same :
      normalize_principal_id input.principal_id ≡ ok o.principal_id
      → Dict.get (canonical_key o.principal_id input.chat_id (operation_id_for rt r input)) s
        ≡ some o
      → SamePurpose o input
      → enqueue rt r input s ≡ ok (o, s)
  enqueue-same n h same =
      enqueue-existing n h
      ∙ rw (
          assert-same o (normalized_input o.principal_id input)
            (rw normalized_principal (normalize_idem _ o.principal_id n))
            ((normalized_purpose o o.principal_id input).1 same))

  enqueue-differs :
      normalize_principal_id input.principal_id ≡ ok o.principal_id
      → Dict.get (canonical_key o.principal_id input.chat_id (operation_id_for rt r input)) s
        ≡ some o
      → ¬ SamePurpose o input
      → enqueue rt r input s ≡ err (id_conflict o.operation_id)
  enqueue-differs n h differs =
      enqueue-existing n h
      ∙ rw (
          assert-differs o (normalized_input o.principal_id input)
            (λ same. differs ((normalized_purpose o o.principal_id input).0 same)))

-- What `enqueue` returns carries the input, and is stored under the key.
enqueue_at-SamePurpose :
    (key : Text) (found : Option Operation) (p : Option Text) (operation_id timestamp : Text)
    (input : EnqueueInput) (s : Store) {o : Operation} {t : Store}
    → enqueue_at key found
        (new_operation operation_id p input timestamp)
        (normalized_input p input)
        s
      ≡ ok (o, t)
    → found ≡ Dict.get key s
    → SamePurpose o input × (Dict.get key t ≡ some o)
unfolding enqueue_at
enqueue_at-SamePurpose key none p operation_id timestamp input s h f =
    let row = new_operation operation_id p input timestamp in
    (
      subst (λ x. SamePurpose x input) {x = row} (cc) (unfold new_operation in ground arith),
      cc (get-set_self key row s),
    )
enqueue_at-SamePurpose key (some existing) p operation_id timestamp input s {o} {t} h f =
    let (_, same, kept) =
      >>=-eq-ok (assert_same_enqueue_identity existing (normalized_input p input)) _ h in
    let purpose = same_of_assert existing (normalized_input p input) same in
    (
      subst (λ x. SamePurpose x input) (cc kept) ((normalized_purpose existing p input).0 purpose),
      cc kept,
    )

module _ (rt : Runtime) (r r' : Readings) (s : Store) (input : EnqueueInput) (i : Text)
    {o : Operation} {t : Store} (w : IsWellFormed s) (named : input.operation_id ≡ some i)
    (h : enqueue rt r input s ≡ ok (o, t)) where
  -- The row that `enqueue` returned: its identity, its purpose, and where it is stored.
  enqueued :
      (normalize_principal_id input.principal_id ≡ ok o.principal_id)
      × SamePurpose o input
      × (Dict.get (canonical_key o.principal_id o.chat_id i) t ≡ some o)
      × (o.operation_id ≡ i)
  unfolding operation_id_for call
  enqueued =
      let (p, n, stored) = enqueue-eq-ok rt r input s h in
      let (purpose, there) = enqueue_at-SamePurpose _ _ p _ _ input s stored refl in
      let row = All-get IsRow _ o t (call-IsWellFormed rt r (enqueues input) s w h).rows there in
      let id : operation_id_for rt r input ≡ i = rw named refl in
      let same =
        canonical_key-injective p o.principal_id input.chat_id o.chat_id
          (operation_id_for rt r input) o.operation_id (row.keyed ∙ (unfold key_of in refl)) in
      (cc (n, same.0), purpose, cc (there, same.0, same.1, id), cc (same.2, id))

  -- After an enqueue with an operation ID has returned on a well-formed store, the same input
  -- enqueued again, at any later time, returns the same row and stores nothing.
  pub enqueue_again : enqueue rt r' input t ≡ ok (o, t)
  unfolding operation_id_for
  enqueue_again =
      let (n, purpose, there, _) = enqueued in
      enqueue-same rt r' input t o n (rw named (rw (← purpose.chat_id) there)) purpose

  -- After an enqueue with an operation ID has returned on a well-formed store, an enqueue with
  -- that operation ID, principal and chat, but for another owner, project, kind or payload, throws
  -- the conflict error for that ID.
  pub enqueue_conflict :
      (other : EnqueueInput)
      → other.operation_id ≡ some i
      → normalize_principal_id other.principal_id ≡ normalize_principal_id input.principal_id
      → other.chat_id ≡ input.chat_id
      → ¬ SamePurpose o other
      → enqueue rt r' other t ≡ err (id_conflict i)
  unfolding operation_id_for
  enqueue_conflict other named' principal chat differs =
      let (n, purpose, there, id) = enqueued in
      enqueue-differs rt r' other t o (principal ∙ n)
        (rw (named', chat) (rw (← purpose.chat_id) there)) differs
      ∙ ap (λ x. err (id_conflict x)) id
