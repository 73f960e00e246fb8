-- ===== src/Authority/Journal/Lookup.antt =====
-- The lookups of an operation, in the record of its chat and in the tombstones
-- (src/gjc/session-authority-journal.ts).
use openwebui_gjc_adapter.Authority.{Operation, Record, Retired}
use openwebui_gjc_adapter.Authority.Codec.{or_else, is_named}
use openwebui_gjc_adapter.Authority.Journal.{
  Journal, Holder, held_by_record, held_by_tombstone, lookup_operation, lookup_operation_authority,
  lookup_in, lookup_retired, holder_in, retired_holder, journal_for, chain_journal, tombstone_roots,
}
use openwebui_gjc_adapter.Prelude.{
  ◌≡◌, refl, sym, ap, ◌∙◌, inl, inr, Bool, true, false, List, [], ◌∷◌, ◌++◌, Option, none, some,
  Text, find, any, is_some, Bool-cases, Option-cases,
}
use openwebui_gjc_adapter.Prelude.Dict

pub find-append :
    (p : Operation → Bool) (xs ys : List Operation)
    → find p (xs ++ ys) ≡ or_else (find p xs) (find p ys)
unfolding find
find-append p [] ys = refl
find-append p (x ∷ xs) ys = elim (Bool-cases (p x)) [
  | inl e ↦ rw e refl
  | inr e ↦ rw e (find-append p xs ys)
]

any-find : (p : Operation → Bool) (xs : List Operation) → any p xs ≡ false → find p xs ≡ none
unfolding any find
any-find p [] h = refl
any-find p (x ∷ xs) h = elim (Bool-cases (p x)) [
  | inl e ↦ cc (rw e at h)
  | inr e ↦ rw e (any-find p xs (rw e at h))
]

find-any :
    (p : Operation → Bool) (xs : List Operation)
    → any p xs ≡ true
    → (o : Operation) × (find p xs ≡ some o)
unfolding any find
find-any p [] h = cc h
find-any p (x ∷ xs) h = elim (Bool-cases (p x)) [
  | inl e ↦ (x, rw e refl)
  | inr e ↦ let (o, f) = find-any p xs (rw e at h) in (o, rw e f)
]

lookup_retired_flat :
    (id : Text) (chain : List Retired)
    → lookup_retired id chain ≡ find (λ o. is_named id o) (chain_journal chain)
unfolding lookup_retired chain_journal
lookup_retired_flat id [] = unfold find in refl
lookup_retired_flat id (t ∷ ts) =
    ap (or_else (find (λ o. is_named id o) t.journal)) (lookup_retired_flat id ts)
    ∙ sym (find-append (λ o. is_named id o) t.journal (chain_journal ts))

lookup_in_flat :
    (id : Text) (r : Option Record) → lookup_in id r ≡ find (λ o. is_named id o) (journal_for r)
unfolding lookup_in journal_for
lookup_in_flat id none = unfold find in refl
lookup_in_flat id (some r) =
    let chain = tombstone_roots r.reassignment in
    ap (or_else (find (λ o. is_named id o) r.journal)) (lookup_retired_flat id chain)
    ∙ sym (find-append (λ o. is_named id o) r.journal (chain_journal chain))

-- The lookup of an operation, which walks through the chat's record and its chain of tombstones,
-- finds the first operation with the ID in the journal that the identity checks read.
pub lookup_operation_flat :
    (chat_id id : Text) (j : Journal)
    → lookup_operation chat_id id j
      ≡ find (λ o. is_named id o) (journal_for (Dict.get chat_id j.records))
unfolding lookup_operation
lookup_operation_flat chat_id id j = lookup_in_flat id (Dict.get chat_id j.records)

holder_journal : Holder → List Operation
holder_journal (held_by_record r) = r.journal
holder_journal (held_by_tombstone t) = t.journal

-- The operation in what holds it.
pub found_in : Text → Option Holder → Option Operation
unfolding holder_journal
found_in id none = none
found_in id (some h) = find (λ o. is_named id o) (holder_journal h)

or_else-some : (a b : Option Operation) {o : Operation} → a ≡ some o → or_else a b ≡ a
or_else-some a b h = rw h refl

retired_holder-found :
    (id : Text) (chain : List Retired)
    → found_in id (retired_holder id chain) ≡ lookup_retired id chain
unfolding retired_holder lookup_retired found_in
retired_holder-found id [] = refl
retired_holder-found id (t ∷ ts) = elim (Bool-cases (any (λ o. is_named id o) t.journal)) [
  | inl e ↦
      let (o, f) = find-any (λ o. is_named id o) t.journal e in rw e (sym (or_else-some _ _ f))
  | inr e ↦ rw e (rw (any-find (λ o. is_named id o) t.journal e) (retired_holder-found id ts))
]

-- Whether the chain has a tombstone with the operation.
retired_holder-is_some :
    (id : Text) (chain : List Retired)
    → is_some (retired_holder id chain) ≡ is_some (lookup_retired id chain)
unfolding retired_holder lookup_retired
retired_holder-is_some id [] = refl
retired_holder-is_some id (t ∷ ts) = elim (Bool-cases (any (λ o. is_named id o) t.journal)) [
  | inl e ↦ let (o, f) = find-any (λ o. is_named id o) t.journal e in rw e (rw f refl)
  | inr e ↦ rw e (rw (any-find (λ o. is_named id o) t.journal e) (retired_holder-is_some id ts))
]

lookup_authority-is_some :
    (chat_id id : Text) (j : Journal)
    → is_some (lookup_operation_authority chat_id id j) ≡ is_some (lookup_operation chat_id id j)
unfolding lookup_operation lookup_operation_authority holder_in lookup_in
lookup_authority-is_some chat_id id j = elim (Option-cases (Dict.get chat_id j.records)) [
  | inl g ↦ rw g refl
  | inr (r, g) ↦ elim (Bool-cases (any (λ o. is_named id o) r.journal)) [
    | inl e ↦ let (o, f) = find-any (λ o. is_named id o) r.journal e in rw g (rw e (rw f refl))
    | inr e ↦ rw g (
        rw e (
          rw (any-find (λ o. is_named id o) r.journal e)
            (retired_holder-is_some id (tombstone_roots r.reassignment))))
  ]
]

lookup_authority-found :
    (chat_id id : Text) (j : Journal)
    → found_in id (lookup_operation_authority chat_id id j) ≡ lookup_operation chat_id id j
unfolding lookup_operation lookup_operation_authority holder_in lookup_in found_in
lookup_authority-found chat_id id j = elim (Option-cases (Dict.get chat_id j.records)) [
  | inl g ↦ rw g refl
  | inr (r, g) ↦ elim (Bool-cases (any (λ o. is_named id o) r.journal)) [
    | inl e ↦
        let (o, f) = find-any (λ o. is_named id o) r.journal e in
        rw g (rw e (sym (or_else-some _ _ f)))
    | inr e ↦ rw g (
        rw e (
          rw (any-find (λ o. is_named id o) r.journal e)
            (retired_holder-found id (tombstone_roots r.reassignment))))
  ]
]

-- The record or the tombstone that the lookup of an operation's authority returns has, as its
-- first operation with the ID, the one that the lookup of the operation returns; where the one
-- lookup finds nothing, nor does the other.
pub lookup_authority_agrees :
    (chat_id id : Text) (j : Journal)
    → (found_in id (lookup_operation_authority chat_id id j) ≡ lookup_operation chat_id id j)
      × (is_some (lookup_operation_authority chat_id id j)
          ≡ is_some (lookup_operation chat_id id j))
lookup_authority_agrees chat_id id j =
    (lookup_authority-found chat_id id j, lookup_authority-is_some chat_id id j)
