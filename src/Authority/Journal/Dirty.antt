-- ===== src/Authority/Journal/Dirty.antt =====
-- The records and provisional operations that are still to be written to the log
-- (src/gjc/session-authority-journal.ts).
pub mod Tests
use openwebui_gjc_adapter.Authority.{
  Error, Input, Intent, OperationResult, Provisional, Record, State,
}
use openwebui_gjc_adapter.Authority.Codec.{Clock}
use openwebui_gjc_adapter.Authority.Journal.{Encoding, Journal, add_key, set_record, same_text}
use openwebui_gjc_adapter.Authority.Journal.Operations.{begin, store}
use openwebui_gjc_adapter.Authority.Journal.Operations.Writes.{
  HasWritten, store-HasWritten, begin-HasWritten,
}
use openwebui_gjc_adapter.Authority.Journal.Writes.{set_record-get_self}
use openwebui_gjc_adapter.Authority.Journal.Transitions.{transition}
use openwebui_gjc_adapter.Authority.Journal.Transitions.Steps.{transition-HasWritten}
use openwebui_gjc_adapter.Prelude.{
  ◌≡◌, refl, sym, ap, ◌∙◌, subst, Result, ok, ◌⊎◌, inl, inr, Bool, true, false, not, ◌||◌, List, [],
  ◌∷◌, ◌++◌, Option, none, some, Text, contains, text_eq, text_eq_iff, text_eq_refl, Bool-cases,
  Option-cases, if◌then◌else◌, arith,
}
use openwebui_gjc_adapter.Prelude.Dict
use openwebui_gjc_adapter.Prelude.Dict.{Dict, get-set}

-- The dirty keys that are still there, with what stands under them.
entries_at {ℓ} : {V : Type ℓ} → List Text → Dict V → List (Text × V)
entries_at [] d = []
entries_at (k ∷ ks) d =
    let rest = entries_at ks d in elim (Dict.get k d) [ none ↦ rest | some v ↦ (k, v) ∷ rest ]

pub take_dirty_records : Journal → Journal × List Record
unfolding entries_at
take_dirty_records j =
    (record j { dirty_records = [] }, Dict.values (entries_at j.dirty_records j.records))

pub take_dirty_provisional : Journal → Journal × List (Text × Provisional)
unfolding entries_at
take_dirty_provisional j =
    (record j { dirty_provisional = [] }, entries_at j.dirty_provisional j.provisional)

is_empty : List Text → Bool
is_empty [] = true
is_empty (_ ∷ _) = false

pub has_dirty : Journal → Bool
unfolding is_empty
has_dirty j =
    j.force_compaction || (not (is_empty j.dirty_records) || not (is_empty j.dirty_provisional))

pub clear_dirty : Journal → Journal
clear_dirty j = record j { dirty_records = []; dirty_provisional = []; force_compaction = false }

-- The records that differ from those that were last written are dirty.
abbrev pub IsTracked : Dict Record → Journal → Type 0
IsTracked written j =
    (k : Text) → (Dict.get k j.records ≡ Dict.get k written) ⊎ (contains k j.dirty_records ≡ true)

contains-last : (k : Text) (ks : List Text) → contains k (ks ++ (k ∷ [])) ≡ true
unfolding contains
contains-last k [] = rw text_eq_refl refl
contains-last k (j ∷ js) = ground (arith, contains-last k js)

contains-left :
    (k i : Text) (ks : List Text) → contains i ks ≡ true → contains i (ks ++ (k ∷ [])) ≡ true
unfolding contains
contains-left k i [] h = cc h
contains-left k i (j ∷ js) h = ground (arith, contains-left k i js)

unchanged :
    (k i : Text) (p r : Record) (d : Dict Record)
    → Dict.get k d ≡ some p
    → p ≡ r
    → (if text_eq k i then some r else Dict.get i d) ≡ Dict.get i d
unchanged k i p r d g same = elim (Bool-cases (text_eq k i)) [
  | inl e ↦ rw e (sym (rw (← (text_eq_iff k i).0 e) (g ∙ ap some same)))
  | inr e ↦ rw e refl
]

contains-add_key : (k : Text) (ks : List Text) → contains k (add_key k ks) ≡ true
unfolding add_key
contains-add_key k ks = elim (Bool-cases (contains k ks)) [
  | inl e ↦ rw e e
  | inr e ↦ rw e (contains-last k ks)
]

contains-kept :
    (k i : Text) (ks : List Text) → contains i ks ≡ true → contains i (add_key k ks) ≡ true
unfolding add_key
contains-kept k i ks h = elim (Bool-cases (contains k ks)) [
  | inl e ↦ rw e h
  | inr e ↦ rw e (contains-left k i ks h)
]

-- A write keeps the records tracked, where the record before has the same JSON text only if it is the
-- same.
set_record-IsTracked :
    (enc : Encoding) (k : Text) (r : Record) (written : Dict Record) (j : Journal)
    → ((p : Record) → Dict.get k j.records ≡ some p → enc.record_json p ≡ enc.record_json r → p ≡ r)
    → IsTracked written j
    → IsTracked written (set_record enc k r j)
unfolding set_record same_text
set_record-IsTracked enc k r written j same t i = elim (Option-cases (Dict.get k j.records)) [
  | inl g ↦ elim (Bool-cases (text_eq k i)) [
    | inl e ↦ inr (rw g (rw (← (text_eq_iff k i).0 e) (contains-add_key k j.dirty_records)))
    | inr e ↦ elim (t i) [
      | inl h ↦ inl (get-set k i r j.records ∙ rw e h)
      | inr h ↦ inr (rw g (contains-kept k i j.dirty_records h))
    ]
  ]
  | inr (p, g) ↦ elim (Bool-cases (text_eq (enc.record_json p) (enc.record_json r))) [
    | inl e ↦ elim (t i) [
      | inl h ↦
          let equal = same p g ((text_eq_iff (enc.record_json p) (enc.record_json r)).0 e) in
          inl (get-set k i r j.records ∙ unchanged k i p r j.records g equal ∙ h)
      | inr h ↦ inr (rw g (rw e h))
    ]
    | inr e ↦ elim (Bool-cases (text_eq k i)) [
      | inl f ↦
          inr (rw g (rw e (rw (← (text_eq_iff k i).0 f) (contains-add_key k j.dirty_records))))
      | inr f ↦ elim (t i) [
        | inl h ↦ inl (get-set k i r j.records ∙ rw f h)
        | inr h ↦ inr (rw g (rw e (contains-kept k i j.dirty_records h)))
      ]
    ]
  ]
]

-- The methods that write one record of the journal.
pub data Call : Type 0 where
  stores : Input → Call
  begins : Text → Intent → Call
  transitions : Text → Text → State → Option Text → Option OperationResult → Call

pub call : Encoding → Clock → Call → Journal → Result Error (Journal × Record)
call enc clock (stores input) j = store enc clock input j
call enc clock (begins chat_id operation) j = begin enc clock chat_id operation j
call enc clock (transitions chat_id operation_id state detail result) j =
    transition enc clock chat_id operation_id state detail result j

call-HasWritten :
    (enc : Encoding) (clock : Clock) (c : Call) (j j' : Journal) (r : Record)
    → call enc clock c j ≡ ok (j', r)
    → HasWritten enc j j'
unfolding call
call-HasWritten enc clock (stores input) j j' r h = store-HasWritten enc clock input j j' r h
call-HasWritten enc clock (begins chat_id operation) j j' r h =
    begin-HasWritten enc clock chat_id operation j j' r h
call-HasWritten enc clock (transitions chat_id operation_id state detail result) j j' r h =
    transition-HasWritten enc clock chat_id operation_id state detail result j j' r h

-- If every record that differs from what was written to the log is dirty, then that holds again
-- after a store, a begin or a transition that returns, where a record before and after with the
-- same JSON text is the same record.
pub call-IsTracked :
    (enc : Encoding) (clock : Clock) (c : Call) (written : Dict Record) (j j' : Journal)
    (r : Record)
    → ((k : Text) (p q : Record)
        → Dict.get k j.records ≡ some p
        → Dict.get k j'.records ≡ some q
        → enc.record_json p ≡ enc.record_json q
        → p ≡ q)
    → IsTracked written j
    → call enc clock c j ≡ ok (j', r)
    → IsTracked written j'
call-IsTracked enc clock c written j j' r same t h = elim (call-HasWritten enc clock c j j' r h) [
  | inl kept ↦ subst (IsTracked written) kept t
  | inr (k, q, set) ↦ subst (IsTracked written) set (
      set_record-IsTracked enc k q written j
        (λ p g e.
          same k p q g
            (subst (λ (i : Journal). Dict.get k i.records ≡ some q) set
              (set_record-get_self enc k q j))
            e)
        t)
]
