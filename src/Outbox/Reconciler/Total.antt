-- ===== src/Outbox/Reconciler/Total.antt =====
-- A pass never throws, whatever other calls run while it waits.
use openwebui_gjc_adapter.Outbox.{Operation, Error, to_timestamp}
use openwebui_gjc_adapter.Outbox.Memory.{
  Store, mark_applying, mark_applied, mark_failed, mark_reconcile, list_pending, list_applying,
  as_applying, as_applied, as_failed, as_reconcile,
}
use openwebui_gjc_adapter.Outbox.Memory.Calls.{run}
use openwebui_gjc_adapter.Outbox.Memory.Invariant.{IsWellFormed, run-IsWellFormed}
use openwebui_gjc_adapter.Outbox.Memory.Rows.{Keeps, run-Keeps, Keeps-refl, Keeps-trans}
use openwebui_gjc_adapter.Outbox.Reconciler.{
  Outcome, settled, obsolete, threw, Environment, Pass, recover_each, recover_applying_operations,
  mark_settled, mark_retried, or_retry, finish, round, rounds, reconcile_pending_operations,
}
use openwebui_gjc_adapter.Outbox.Reconciler.Marks.{
  IsStored, update-Marked, list-IsStored, IsStored-Keeps, Marked-IsStored,
}
use openwebui_gjc_adapter.Metadata.{Runtime}
use openwebui_gjc_adapter.Prelude.{
  ℕ, suc, ◌+◌, ◌≡◌, refl, ap, List, [], ◌∷◌, ◌++◌, none, Text, Result, ok, err, All, length,
  length-append, arith,
}

-- What a part of the pass does: it returns, having handled `n` rows and lost none.
record Advances (n : ℕ) (p : Pass) (m : Result Error Pass) : Type 0 where
  next : Pass
  returns : m ≡ ok next
  well_formed : IsWellFormed next.store
  keeps : Keeps p.store next.store
  counted : length next.applied + length next.failed ≡ n + (length p.applied + length p.failed)

module _ (rt : Runtime) (env : Environment) where
  mark_settled-Advances :
      (n : ℕ) (o : Operation) (p : Pass)
      → IsWellFormed p.store
      → IsStored p.store o
      → Advances 1 p (mark_settled rt env n o p)
  unfolding mark_settled mark_applied
  mark_settled-Advances n o p w h =
      let (q, t, returns, m) =
        update-Marked p.store o (as_applied (to_timestamp rt (env.on_finish n) none))
          (λ o. ground arith) (λ o. omega arith) w h in
      record {
        next = record p { store = t; applied = p.applied ++ (q ∷ []) };
        returns = rw returns;
        well_formed = m.well_formed;
        keeps = m.keeps;
        counted = omega (arith, length-append p.applied (q ∷ []));
      }

  mark_retried-Advances :
      (n : ℕ) (o : Operation) (message : Text) (p : Pass)
      → IsWellFormed p.store
      → IsStored p.store o
      → Advances 1 p (mark_retried rt env n o message p)
  unfolding mark_retried mark_failed mark_reconcile
  mark_retried-Advances n o message p w h =
      let (q, t, failing, m) =
        update-Marked p.store o (as_failed message (to_timestamp rt (env.on_finish n) none))
          (λ o. ground arith) (λ o. omega arith) w h in
      let (q', t', retrying, m') =
        update-Marked t q (as_reconcile (to_timestamp rt (env.on_retry n) none)) (λ o. ground arith)
          (λ o. omega arith) m.well_formed (Marked-IsStored m) in
      record {
        next = record p { store = t'; failed = p.failed ++ (q ∷ []) };
        returns = rw failing (rw retrying);
        well_formed = m'.well_formed;
        keeps = Keeps-trans p.store t t' m.keeps m'.keeps;
        counted = omega (arith, length-append p.failed (q ∷ []));
      }

  or_retry-Advances :
      (n : ℕ) (o : Operation) (p : Pass) (m : Result Error Pass)
      → Advances 1 p m
      → Advances 1 p (or_retry rt env n o p m)
  unfolding or_retry
  or_retry-Advances n o p (ok q) a = a
  or_retry-Advances n o p (err e) a = cc (a.returns)

  finish-Advances :
      (n : ℕ) (o : Operation) (p : Pass) (outcome : Outcome)
      → IsWellFormed p.store
      → IsStored p.store o
      → Advances 1 p (finish rt env n o p outcome)
  unfolding finish
  finish-Advances n o p settled w h = or_retry-Advances n o p _ (mark_settled-Advances n o p w h)
  finish-Advances n o p obsolete w h = mark_settled-Advances n o p w h
  finish-Advances n o p (threw message) w h = mark_retried-Advances n o message p w h

  round-Advances :
      (n : ℕ) (o : Operation) (p : Pass)
      → IsWellFormed p.store
      → IsStored p.store o
      → Advances 1 p (round rt env n o p)
  unfolding round mark_applying
  round-Advances n o p w h =
      let (q, t, returns, m) =
        update-Marked p.store o (as_applying (to_timestamp rt (env.on_start n) none))
          (λ o. ground arith) (λ o. omega arith) w h in
      let later = run-Keeps rt (env.meanwhile n) t m.well_formed in
      let rest =
        finish-Advances n q (record p { store = run rt (env.meanwhile n) t }) (env.applier q)
          (run-IsWellFormed rt (env.meanwhile n) t m.well_formed)
          (IsStored-Keeps later (Marked-IsStored m)) in
      record {
        next = rest.next;
        returns = rw returns rest.returns;
        well_formed = rest.well_formed;
        keeps = Keeps-trans p.store _ _ (Keeps-trans p.store t _ m.keeps later) rest.keeps;
        counted = rest.counted;
      }

  All-IsStored-Keeps :
      (s t : Store) (os : List Operation) → Keeps s t → All (IsStored s) os → All (IsStored t) os
  All-IsStored-Keeps s t [] k h = tt
  All-IsStored-Keeps s t (o ∷ os) k h = (IsStored-Keeps k h.0, All-IsStored-Keeps s t os k h.1)

  rounds-Advances :
      (n : ℕ) (os : List Operation) (p : Pass)
      → IsWellFormed p.store
      → All (IsStored p.store) os
      → Advances (length os) p (rounds rt env n os p)
  unfolding rounds
  rounds-Advances n [] p w h = record {
    next = p;
    returns = refl;
    well_formed = w;
    keeps = Keeps-refl p.store;
    counted = omega arith;
  }
  rounds-Advances n (o ∷ os) p w h =
      let first = round-Advances n o p w h.0 in
      let rest =
        rounds-Advances (n + 1) os first.next first.well_formed
          (All-IsStored-Keeps p.store first.next.store os first.keeps h.1) in
      record {
        next = rest.next;
        returns = rw (first.returns) rest.returns;
        well_formed = rest.well_formed;
        keeps = Keeps-trans p.store _ _ first.keeps rest.keeps;
        counted = omega (arith, first.counted, rest.counted);
      }

  record Recovers (n : ℕ) (s : Store) (m : Result Error (List Operation × Store)) : Type 0 where
    marked : List Operation
    store : Store
    returns : m ≡ ok (marked, store)
    well_formed : IsWellFormed store
    keeps : Keeps s store
    counted : length marked ≡ n

  recover_each-Recovers :
      (n : ℕ) (os : List Operation) (s : Store)
      → IsWellFormed s
      → All (IsStored s) os
      → Recovers (length os) s (recover_each rt env n os s)
  unfolding recover_each mark_reconcile
  recover_each-Recovers n [] s w h = record {
    marked = [];
    store = s;
    returns = refl;
    well_formed = w;
    keeps = Keeps-refl s;
    counted = refl;
  }
  recover_each-Recovers n (o ∷ os) s w h =
      let (q, t, returns, m) =
        update-Marked s o (as_reconcile (to_timestamp rt (env.on_recover n) none))
          (λ o. ground arith) (λ o. omega arith) w h.0 in
      let rest =
        recover_each-Recovers (n + 1) os t m.well_formed (All-IsStored-Keeps s t os m.keeps h.1) in
      record {
        marked = q ∷ rest.marked;
        store = rest.store;
        returns = rw returns (rw (rest.returns));
        well_formed = rest.well_formed;
        keeps = Keeps-trans s t _ m.keeps rest.keeps;
        counted = ap suc rest.counted;
      }

  -- From a well-formed store a reconciliation pass returns, whatever the applier does and whatever
  -- other tasks call while it is awaited: as many operations are marked by the recovery as were
  -- being applied, as many are reported, applied and failed together, as are listed after the
  -- recovery, the store stays well formed, and each row of the store is kept with its identity and
  -- no fewer attempts.
  pub reconcile_total :
      (s : Store)
      → IsWellFormed s
      → (t : Store) × (marked : List Operation) × (p : Pass) × (recover_applying_operations rt env s
          ≡ ok (marked, t))
        × (length marked ≡ length (list_applying s))
        × (reconcile_pending_operations rt env s ≡ ok p)
        × (length p.applied + length p.failed ≡ length (list_pending t))
        × IsWellFormed p.store
        × Keeps s p.store
  unfolding reconcile_pending_operations recover_applying_operations list_pending list_applying
  reconcile_total s w =
      let recovery = recover_each-Recovers 0 (list_applying s) s w (list-IsStored _ s w) in
      let t = recovery.store in
      let pass =
        rounds-Advances 0 (list_pending t) (record { store = t; applied = []; failed = [] })
          recovery.well_formed (list-IsStored _ t recovery.well_formed) in
      (
        t,
        recovery.marked,
        pass.next,
        recovery.returns,
        recovery.counted,
        rw (recovery.returns) (pass.returns),
        omega (arith, pass.counted),
        pass.well_formed,
        Keeps-trans s t _ recovery.keeps pass.keeps,
      )
