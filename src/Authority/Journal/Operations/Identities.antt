-- ===== src/Authority/Journal/Operations/Identities.antt =====
-- No two operations of a record's journal have an identifier in common
-- (src/gjc/session-authority-journal.ts, src/gjc/session-operation-codec.ts).
use openwebui_gjc_adapter.Authority.{Error, Input, Intent, Operation, Record}
use openwebui_gjc_adapter.Authority.Identity.{
  name_of, shares, operation_identifiers, assert_beginable_identity,
}
use openwebui_gjc_adapter.Authority.Codec.{
  Clock, append_journal, append_operation, duplicate_in, implicit_operation, is_named,
  with_implicit, create_authority_identity, update_authority_identity, is_unsettled,
}
use openwebui_gjc_adapter.Authority.Journal.{Encoding, Journal, require, set_record, journal_for}
use openwebui_gjc_adapter.Authority.Journal.Operations.{
  begin, begin_with, started, store, next_record, is_same_operation, is_awaited_reassignment,
  is_other_project, conflicts_with, reassignment_of, assert_input_identity_fence, with_journal,
  provisional_names,
}
use openwebui_gjc_adapter.Authority.Journal.Writes.{require_found}
use openwebui_gjc_adapter.Prelude.{
  ◌≡◌, refl, sym, ◌∙◌, subst, inl, inr, Bool, false, not, ◌&&◌, List, [], ◌∷◌, ◌++◌, Option, none,
  some, Text, Result, ok, >>=-eq-ok, throw_if, find, any, contains, All, Bool-cases, Option-cases,
  arith, text_eq, text_eq_iff, option_eq, get_or,
}
use openwebui_gjc_adapter.Prelude.Dict
use openwebui_gjc_adapter.Prelude.Dict.{get-set}

-- Each operation has no identifier of an earlier one.
abbrev pub IsUnique : List Operation → Type 0
IsUnique [] = Unit
IsUnique (o ∷ os) = All (λ c. shares (name_of c.intent) (name_of o.intent) ≡ false) os × IsUnique os

find-none :
    (p : Operation → Bool) (os : List Operation) → find p os ≡ none → All (λ o. p o ≡ false) os
unfolding find
find-none p [] h = tt
find-none p (o ∷ os) h = elim (Bool-cases (p o)) [
  | inl e ↦ cc (rw e at h)
  | inr e ↦ (e, find-none p os (rw e at h))
]

All-snoc :
    (P : Operation → Type 0) (os : List Operation) (o : Operation)
    → All P os
    → P o
    → All P (os ++ (o ∷ []))
All-snoc P [] o a h = (h, tt)
All-snoc P (x ∷ xs) o a h = (a.0, All-snoc P xs o a.1 h)

snoc-IsUnique :
    (os : List Operation) (o : Operation)
    → All (λ c. shares (name_of o.intent) (name_of c.intent) ≡ false) os
    → IsUnique os
    → IsUnique (os ++ (o ∷ []))
snoc-IsUnique [] o a u = (tt, tt)
snoc-IsUnique (x ∷ xs) o a u = (All-snoc _ xs o u.0 a.0, snoc-IsUnique xs o a.1 u.1)

list_same : {a b : List Operation} → ◌≡◌ {A = Result Error (List Operation)} (ok a) (ok b) → a ≡ b
list_same h = cc h

append_operation-IsUnique :
    (o : Operation) (os : List Operation) (found : Option Operation) {os' : List Operation}
    → duplicate_in o os ≡ found
    → append_operation o found os ≡ ok os'
    → IsUnique os
    → IsUnique os'
unfolding append_operation duplicate_in
append_operation-IsUnique o os none f h u =
    subst IsUnique (list_same h) (snoc-IsUnique os o (find-none _ os f) u)
append_operation-IsUnique o os (some d) f h u =
    elim (Bool-cases (text_eq d.id o.id && option_eq d.ingress_id o.ingress_id)) [
      | inl e ↦ subst IsUnique (list_same (rw e at h)) u
      | inr e ↦ cc (rw e at h)
    ]

append_journal-IsUnique :
    (os incoming : List Operation) {os' : List Operation}
    → append_journal os incoming ≡ ok os'
    → IsUnique os
    → IsUnique os'
unfolding append_journal
append_journal-IsUnique os [] h u = subst IsUnique (list_same h) u
append_journal-IsUnique os (o ∷ incoming) h u =
    let (next, first, rest) = >>=-eq-ok (append_operation o (duplicate_in o os) os) _ h in
    append_journal-IsUnique next incoming rest (append_operation-IsUnique o os _ refl first u)

implicit-apart :
    (id started now : Text) (c : Operation)
    → is_named id c ≡ false
    → shares (name_of (implicit_operation id started now).intent) (name_of c.intent) ≡ false
unfolding is_named shares implicit_operation operation_identifiers any contains option_eq
implicit-apart id started now c h = elim (Option-cases c.ingress_id) [
  | inl g ↦ rw g (ground (arith, text_eq_iff id c.id, text_eq_iff c.id id, text_eq_iff id id))
  | inr (i, g) ↦ rw g (
      ground (
        arith,
        rw g at h,
        text_eq_iff id c.id,
        text_eq_iff c.id id,
        text_eq_iff id id,
        text_eq_iff i id,
        text_eq_iff id i,
        text_eq_iff i c.id,
      ))
]

All-map :
    {P Q : Operation → Type 0} (os : List Operation)
    → All P os
    → ((o : Operation) → P o → Q o)
    → All Q os
All-map [] a f = tt
All-map (o ∷ os) a f = (f o a.0, All-map os a.1 f)

pub record_ok : {a b : Record} → ◌≡◌ {A = Result Error Record} (ok a) (ok b) → a ≡ b
record_ok h = cc h

pub record_some : {a b : Record} → ◌≡◌ {A = Option Record} (some a) (some b) → a ≡ b
record_some h = cc h

pub journal_ok :
    {j k : Journal} {r s : Record}
    → ◌≡◌ {A = Result Error (Journal × Record)} (ok (j, r)) (ok (k, s))
    → j ≡ k
journal_ok h = cc h

with_implicit-IsUnique :
    (id started now : Text) (os : List Operation) (found : Option Operation)
    → find (λ o. is_named id o) os ≡ found
    → IsUnique os
    → IsUnique (with_implicit found (implicit_operation id started now) os)
unfolding with_implicit
with_implicit-IsUnique id started now os none f u =
    snoc-IsUnique os (implicit_operation id started now)
      (All-map os (find-none (λ o. is_named id o) os f) (λ c h. implicit-apart id started now c h))
      u
with_implicit-IsUnique id started now os (some o) f u = u

next_record-IsUnique :
    (clock : Clock) (input : Input) (existing : Option Record) (r : Record)
    → ((q : Record) → existing ≡ some q → IsUnique q.journal)
    → next_record clock input existing ≡ ok r
    → IsUnique r.journal
unfolding next_record create_authority_identity update_authority_identity
next_record-IsUnique clock input none r u h =
    let (os, appended, made) = >>=-eq-ok (append_journal [] (get_or input.journal [])) _ h in
    subst (λ (q : Record). IsUnique q.journal) (record_ok made)
      (with_implicit-IsUnique input.operation_id _ _ os _ refl
        (append_journal-IsUnique [] (get_or input.journal []) appended tt))
next_record-IsUnique clock input (some q) r u h =
    let (os, appended, rest) = >>=-eq-ok (append_journal q.journal (get_or input.journal [])) _ h in
    let (_, _, made) =
      >>=-eq-ok (throw_if (is_unsettled (find (λ o. is_named input.operation_id o) os)) _) _ rest in
    subst (λ (q : Record). IsUnique q.journal) (record_ok made)
      (with_implicit-IsUnique input.operation_id _ _ os _ refl
        (append_journal-IsUnique q.journal (get_or input.journal []) appended (u q refl)))

-- The records of the journal have unique operations.
abbrev pub AreUnique : Journal → Type 0
AreUnique j = (k : Text) (r : Record) → Dict.get k j.records ≡ some r → IsUnique r.journal

set_record-AreUnique :
    (enc : Encoding) (k : Text) (r : Record) (j : Journal)
    → IsUnique r.journal
    → AreUnique j
    → AreUnique (set_record enc k r j)
unfolding set_record
set_record-AreUnique enc k r j u a i q g = elim (Bool-cases (text_eq k i)) [
  | inl e ↦
      subst (λ (q : Record). IsUnique q.journal)
        (record_some (rw e at (sym (get-set k i r j.records) ∙ g))) u
  | inr e ↦ a i q (rw e at (sym (get-set k i r j.records) ∙ g))
]

-- If no two operations of a record have an identifier in common, storing an input, when it
-- returns, leaves it so, whatever journal comes with the input.
pub store-AreUnique :
    (enc : Encoding) (clock : Clock) (input : Input) (j j' : Journal) (r : Record)
    → AreUnique j
    → store enc clock input j ≡ ok (j', r)
    → AreUnique j'
unfolding store
store-AreUnique enc clock input j j' r u h =
    let existing = Dict.get input.chat_id j.records in
    let (_, _, h1) = >>=-eq-ok (throw_if (is_other_project input.project_id existing) _) _ h in
    let (_, _, h2) =
      >>=-eq-ok
        (throw_if
          (any (λ o. conflicts_with input (reassignment_of existing) o) (Dict.values j.provisional))
          _)
        _ h1 in
    let (_, _, h3) =
      >>=-eq-ok (assert_input_identity_fence (get_or input.journal []) (journal_for existing)) _
        h2 in
    let (next, made, h4) = >>=-eq-ok (next_record clock input existing) _ h3 in
    subst AreUnique (journal_ok h4) (
      set_record-AreUnique enc next.chat_id next j
        (next_record-IsUnique clock input existing next (λ q g. u input.chat_id q g) made) u)

begin_with-AreUnique :
    (enc : Encoding) (clock : Clock) (chat_id : Text) (operation : Intent) (r : Record)
    (found : Option Operation) (j j' : Journal) (r' : Record)
    → find (λ o. shares (name_of operation) (name_of o.intent)) r.journal ≡ found
    → IsUnique r.journal
    → AreUnique j
    → begin_with enc clock chat_id operation r found j ≡ ok (j', r')
    → AreUnique j'
unfolding begin_with started with_journal
begin_with-AreUnique enc clock chat_id operation r none j j' r' f own u h =
    let (_, _, h1) = >>=-eq-ok (throw_if (is_awaited_reassignment r.reassignment) _) _ h in
    let (_, _, h2) =
      >>=-eq-ok (assert_beginable_identity (name_of operation) (provisional_names j.provisional)) _
        h1 in
    subst AreUnique (journal_ok h2) (
      set_record-AreUnique enc chat_id _ j
        (snoc-IsUnique r.journal (started clock operation)
          (find-none (λ o. shares (name_of operation) (name_of o.intent)) r.journal f) own)
        u)
begin_with-AreUnique enc clock chat_id operation r (some prior) j j' r' f own u h =
    let (_, _, h1) = >>=-eq-ok (throw_if (not (is_same_operation operation prior)) _) _ h in
    subst AreUnique (journal_ok h1) u

-- If no two operations of a record have an identifier in common, beginning an operation, when it
-- returns, leaves it so.
pub begin-AreUnique :
    (enc : Encoding) (clock : Clock) (chat_id : Text) (operation : Intent) (j j' : Journal)
    (r' : Record)
    → AreUnique j
    → begin enc clock chat_id operation j ≡ ok (j', r')
    → AreUnique j'
unfolding begin
begin-AreUnique enc clock chat_id operation j j' r' u h =
    let (r, required, rest) = >>=-eq-ok (require chat_id j) _ h in
    begin_with-AreUnique enc clock chat_id operation r _ j j' r' refl
      (u chat_id r (require_found chat_id j required)) u rest
