-- ===== src/Authority/Journal/Transitions/Steps.antt =====
-- The states of an operation of a record (`transition`, src/gjc/session-authority-journal.ts, and
-- src/gjc/session-authority-operation-validation.ts).
use openwebui_gjc_adapter.Authority.{
  Error, Operation, OperationResult, Record, State, Successor, create, is_complete, is_uncertain,
  kind_eq,
}
use openwebui_gjc_adapter.Authority.Codec.{Clock, is_named}
use openwebui_gjc_adapter.Authority.Journal.{Encoding, Journal, require, set_record}
use openwebui_gjc_adapter.Authority.Journal.Transitions.{
  transition, transition_found, transitioned, may_transition, requires_uncertain_reconciliation,
  completes_acknowledged, change_first, with_journal,
}
use openwebui_gjc_adapter.Authority.Journal.Operations.Writes.{HasWritten}
use openwebui_gjc_adapter.Prelude.{
  ◌≡◌, refl, sym, ap, ◌∙◌, subst, inl, inr, Bool, true, false, not, ◌&&◌, List, [], ◌∷◌, ◌++◌, ◌≢◌,
  All, Option, none, some, Text, Result, ok, >>=-eq-ok, throw_if, find, is_some, Bool-cases, arith,
  text_eq,
}
use openwebui_gjc_adapter.Prelude.Dict
use openwebui_gjc_adapter.Prelude.Dict.{get-set_self, get-set_ne}
use openwebui_gjc_adapter.Authority.Journal.Operations.{change_first, with_journal}
use openwebui_gjc_adapter.Authority.Journal.Writes.{
  throw_if-false, require_found, set_record-get_self, set_record-get_ne, set_record-provisional,
}

-- How an operation may change: it keeps its identity, a completed one stays completed, a completed
-- one has a result and no successor, one that is not complete gets no result, and an uncertain one is
-- completed only by a result that is bound to the successor acknowledged for it.
pub record Step (enc : Encoding) (before after : Operation) : Type 0 where
  pub id : after.id ≡ before.id
  pub kind : after.kind ≡ before.kind
  pub ingress_id : after.ingress_id ≡ before.ingress_id
  pub started_at : after.started_at ≡ before.started_at
  pub stays_complete : is_complete before.state ≡ true → is_complete after.state ≡ true
  pub completed :
      is_complete after.state ≡ true
      → (is_some after.intent.result ≡ true)
        × (is_some after.completed_at ≡ true)
        × (after.intent.acknowledged_successor ≡ none)
  pub unbound : is_complete after.state ≡ false → after.intent.result ≡ before.intent.result
  pub settled :
      is_uncertain before.state ≡ true
      → is_complete after.state ≡ true
      → (result : OperationResult) × (known : Successor) × (after.intent.result ≡ some result)
        × (before.intent.acknowledged_successor ≡ some known)
        × (kind_eq before.kind create ≡ true)
        × (text_eq result.mapping.operation_id before.id ≡ true)
        × (text_eq result.mapping.session_id known.session_id ≡ true)

operation_same : {a b : Operation} → ◌≡◌ {A = Option Operation} (some a) (some b) → a ≡ b
operation_same h = cc h

pair_same :
    {j k : Journal} {r s : Record}
    → ◌≡◌ {A = Result Error (Journal × Record)} (ok (j, r)) (ok (k, s))
    → (j ≡ k) × (r ≡ s)
pair_same h = (cc h, cc h)

bound_to_successor :
    (enc : Encoding) (o : Operation) (detail : Option Text) (r : Option OperationResult)
    (s : Option Successor)
    → completes_acknowledged enc o detail r s ≡ true
    → (result : OperationResult) × (known : Successor) × (r ≡ some result)
      × (s ≡ some known)
      × (kind_eq o.kind create ≡ true)
      × (text_eq result.mapping.operation_id o.id ≡ true)
      × (text_eq result.mapping.session_id known.session_id ≡ true)
unfolding completes_acknowledged
bound_to_successor enc o detail none s h = cc h
bound_to_successor enc o detail (some result) none h = cc h
bound_to_successor enc o detail (some result) (some known) h =
    (result, known, refl, refl, ground arith, ground arith, ground arith)

may_transition-Step :
    (enc : Encoding) (clock : Clock) (operation_id : Text) (o : Operation) (state : State)
    (detail : Option Text) (result : Option OperationResult) {u : Unit {0}}
    → may_transition enc operation_id o state detail result ≡ ok u
    → Step enc o (transitioned clock state detail result o)
unfolding may_transition transitioned requires_uncertain_reconciliation
may_transition-Step enc clock operation_id o state detail result h =
    let (_, a, h1) =
      >>=-eq-ok (throw_if (requires_uncertain_reconciliation enc o state detail result) _) _ h in
    let (_, b, h2) = >>=-eq-ok (throw_if (is_complete o.state && not (is_complete state)) _) _ h1 in
    let (_, c, h3) =
      >>=-eq-ok
        (throw_if (is_complete state && (not (is_some result) && not (is_some o.intent.result))) _)
        _ h2 in
    let fa = throw_if-false _ _ a in
    let fb = throw_if-false (is_complete o.state && not (is_complete state)) _ b in
    let fc =
      throw_if-false (is_complete state && (not (is_some result) && not (is_some o.intent.result)))
        _ c in
    let fd = throw_if-false (not (is_complete state) && is_some result) _ h3 in
    record {
      id = refl;
      kind = refl;
      ingress_id = refl;
      started_at = refl;
      stays_complete = λ x. ground arith;
      completed = λ x. (ground arith, rw x refl, rw x refl);
      unbound = λ x. ground arith;
      settled = λ x y.
          let bound : completes_acknowledged enc o detail result o.intent.acknowledged_successor
              ≡ true =
            ground arith in
          let (r, k, p, q, created, operation, session) =
            bound_to_successor enc o detail result o.intent.acknowledged_successor bound in
          (r, k, rw p refl, q, created, operation, session);
    }

-- The first operation that satisfies the test stands between others, and only it is changed.
pub record Split (p : Operation → Bool) (f : Operation → Operation) (os : List Operation)
    (o : Operation) : Type 0 where
  pub before : List Operation
  pub after : List Operation
  pub was : os ≡ before ++ (o ∷ after)
  pub is : change_first p f os ≡ before ++ (f o ∷ after)
  pub first : All (λ x. p x ≡ false) before
  pub holds : p o ≡ true

find-Split :
    (p : Operation → Bool) (f : Operation → Operation) (os : List Operation) (o : Operation)
    → find p os ≡ some o
    → Split p f os o
unfolding find change_first
find-Split p f [] o h = cc h
find-Split p f (x ∷ xs) o h = elim (Bool-cases (p x)) [
  | inl e ↦
      let same : x ≡ o = operation_same (rw e at h) in
      record {
        before = [];
        after = xs;
        was = ap (λ y. y ∷ xs) same;
        is = rw e (ap (λ y. f y ∷ xs) same);
        first = tt;
        holds = rw (← same) e;
      }
  | inr e ↦
      let rest = find-Split p f xs o (rw e at h) in
      record {
        before = x ∷ rest.before;
        after = rest.after;
        was = ap (λ ys. x ∷ ys) rest.was;
        is = rw e (ap (λ ys. x ∷ ys) rest.is);
        first = (e, rest.first);
        holds = rest.holds;
      }
]

-- What a transition does: in the record of the chat it changes the first operation with the ID, by a
-- step, and nothing else in the journal.
pub record Moves (enc : Encoding) (chat_id operation_id : Text) (state : State) (j j' : Journal)
    (r' : Record) : Type 0 where
  pub record_before : Record
  pub operation : Operation
  pub next : Operation
  pub before : List Operation
  pub after : List Operation
  pub found : Dict.get chat_id j.records ≡ some record_before
  pub was : record_before.journal ≡ before ++ (operation ∷ after)
  pub is : r'.journal ≡ before ++ (next ∷ after)
  pub named : is_named operation_id operation ≡ true
  pub first : All (λ o. is_named operation_id o ≡ false) before
  pub step : Step enc operation next
  pub reached : next.state ≡ state
  pub stored : Dict.get chat_id j'.records ≡ some r'
  pub elsewhere : (k : Text) → k ≢ chat_id → Dict.get k j'.records ≡ Dict.get k j.records
  pub provisional : j'.provisional ≡ j.provisional

with_journal-journal : (os : List Operation) (r : Record) → (with_journal os r).journal ≡ os
unfolding with_journal
with_journal-journal os r = refl

moved :
    (enc : Encoding) (clock : Clock) (chat_id operation_id : Text) (state : State)
    (detail : Option Text) (result : Option OperationResult) (j : Journal) (r : Record)
    (o : Operation)
    (s : Split (λ o. is_named operation_id o) (transitioned clock state detail result) r.journal o)
    → Dict.get chat_id j.records ≡ some r
    → Step enc o (transitioned clock state detail result o)
    → (r' : Record)
    → r'
      ≡ with_journal
          (change_first
            (λ o. is_named operation_id o)
            (transitioned clock state detail result)
            r.journal)
          r
    → Moves enc chat_id operation_id state j (set_record enc chat_id r' j) r'
moved enc clock chat_id operation_id state detail result j r o s found step r' made = record {
  record_before = r;
  operation = o;
  next = transitioned clock state detail result o;
  before = s.before;
  after = s.after;
  found = found;
  was = s.was;
  is = ap (λ (q : Record). q.journal) made ∙ with_journal-journal _ r ∙ s.is;
  named = s.holds;
  first = s.first;
  step = step;
  reached = unfold transitioned in refl;
  stored = set_record-get_self enc chat_id r' j;
  elsewhere = λ k apart. set_record-get_ne enc chat_id k r' j apart;
  provisional = set_record-provisional enc chat_id r' j;
}

found_moves :
    (enc : Encoding) (clock : Clock) (chat_id operation_id : Text) (state : State)
    (detail : Option Text) (result : Option OperationResult) (r : Record) (found : Option Operation)
    (j j' : Journal) (r' : Record)
    → find (λ o. is_named operation_id o) r.journal ≡ found
    → Dict.get chat_id j.records ≡ some r
    → transition_found enc clock chat_id operation_id state detail result r found j ≡ ok (j', r')
    → Moves enc chat_id operation_id state j j' r'
unfolding transition_found
found_moves enc clock chat_id operation_id state detail result r none j j' r' f g h = cc h
found_moves enc clock chat_id operation_id state detail result r (some o) j j' r' f g h =
    let (_, may, h2) = >>=-eq-ok (may_transition enc operation_id o state detail result) _ h in
    let (same_journal, same_record) = pair_same h2 in
    let named = λ (o : Operation). is_named operation_id o in
    let change = transitioned clock state detail result in
    subst (λ k. Moves enc chat_id operation_id state j k r')
      (ap (λ q. set_record enc chat_id q j) (sym same_record) ∙ same_journal)
      (moved enc clock chat_id operation_id state detail result j r o
        (find-Split named change r.journal o f) g
        (may_transition-Step enc clock operation_id o state detail result may) r' (sym same_record))

-- A transition that returns moves the first operation with the ID in the chat's record to the
-- state that is asked for, by an allowed step, and changes no other operation, no other chat and
-- no provisional operation. An allowed step keeps the operation's identity and kind, leaves a
-- completed operation completed, gives a completed one a result, an end and no successor, gives no
-- result to one that is not complete, and completes an uncertain one only if it is a creation and
-- the result has its ID and the session of the successor that was acknowledged for it.
pub transition_moves :
    (enc : Encoding) (clock : Clock) (chat_id operation_id : Text) (state : State)
    (detail : Option Text) (result : Option OperationResult) (j j' : Journal) (r' : Record)
    → transition enc clock chat_id operation_id state detail result j ≡ ok (j', r')
    → Moves enc chat_id operation_id state j j' r'
unfolding transition
transition_moves enc clock chat_id operation_id state detail result j j' r' h =
    let (r, required, rest) = >>=-eq-ok (require chat_id j) _ h in
    found_moves enc clock chat_id operation_id state detail result r _ j j' r' refl
      (require_found chat_id j required) rest

found-HasWritten :
    (enc : Encoding) (clock : Clock) (chat_id operation_id : Text) (state : State)
    (detail : Option Text) (result : Option OperationResult) (r : Record) (found : Option Operation)
    (j j' : Journal) (r' : Record)
    → transition_found enc clock chat_id operation_id state detail result r found j ≡ ok (j', r')
    → HasWritten enc j j'
unfolding transition_found
found-HasWritten enc clock chat_id operation_id state detail result r none j j' r' h = cc h
found-HasWritten enc clock chat_id operation_id state detail result r (some o) j j' r' h =
    let (_, _, h2) = >>=-eq-ok (may_transition enc operation_id o state detail result) _ h in
    inr (chat_id, _, (pair_same h2).0)

pub transition-HasWritten :
    (enc : Encoding) (clock : Clock) (chat_id operation_id : Text) (state : State)
    (detail : Option Text) (result : Option OperationResult) (j j' : Journal) (r' : Record)
    → transition enc clock chat_id operation_id state detail result j ≡ ok (j', r')
    → HasWritten enc j j'
unfolding transition
transition-HasWritten enc clock chat_id operation_id state detail result j j' r' h =
    let (r, _, rest) = >>=-eq-ok (require chat_id j) _ h in
    found-HasWritten enc clock chat_id operation_id state detail result r
      (find (λ o. is_named operation_id o) r.journal) j j' r' rest
