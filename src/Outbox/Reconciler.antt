-- ===== src/Outbox/Reconciler.antt =====
-- One pass over the outbox (src/state/reconciler.ts), on the in-memory store.
mod Marks
pub mod Total
pub mod Tests
use openwebui_gjc_adapter.Outbox.{Operation, Reference, Error, by_identity, error_message}
use openwebui_gjc_adapter.Outbox.Memory.{
  Store, mark_applying, mark_applied, mark_failed, mark_reconcile, list_pending, list_applying,
}
use openwebui_gjc_adapter.Outbox.Memory.Calls.{Call, run}
use openwebui_gjc_adapter.Metadata.{Runtime, Readings}
use openwebui_gjc_adapter.Prelude.{
  ℕ, ◌+◌, List, [], ◌∷◌, ◌++◌, Option, none, some, Text, Result, ok, err, ◌>>=◌,
}

-- How a call of the applier ends: it returns, it throws `ProjectionObsoleteError`, or it throws
-- another error, with its message.
pub data Outcome : Type 0 where
  settled obsolete : Outcome
  threw : Text → Outcome

-- What the pass meets: the applier, the calls that other tasks make on the store while the applier
-- is awaited in the n-th round, and what the clock reads at each call of the pass.
pub record Environment : Type 0 where
  pub applier : Operation → Outcome
  pub meanwhile : ℕ → List (Readings × Call)
  pub on_recover : ℕ → Readings
  pub on_start : ℕ → Readings
  pub on_finish : ℕ → Readings
  pub on_retry : ℕ → Readings

pub record Pass : Type 0 where
  pub store : Store
  pub applied : List Operation
  pub failed : List Operation

-- An operation that is passed as a reference is looked up by its identity.
abbrev pub reference_to : Operation → Reference
reference_to o = by_identity o.principal_id o.chat_id o.operation_id

module _ (rt : Runtime) (env : Environment) where
  recover_each : ℕ → List Operation → Store → Result Error (List Operation × Store)
  recover_each n [] s = ok ([], s)
  recover_each n (o ∷ os) s = do
    (marked, s') ← mark_reconcile rt (env.on_recover n) (reference_to o) none s
    (rest, s'') ← recover_each (n + 1) os s'
    ok (marked ∷ rest, s'')

  -- A row that was being applied when the process ended is to be applied again.
  pub recover_applying_operations : Store → Result Error (List Operation × Store)
  unfolding recover_each
  recover_applying_operations s = recover_each 0 (list_applying s) s

  mark_settled : ℕ → Operation → Pass → Result Error Pass
  mark_settled n o p = do
    (done, s) ← mark_applied rt (env.on_finish n) (reference_to o) none p.store
    ok (record p { store = s; applied = p.applied ++ (done ∷ []) })

  mark_retried : ℕ → Operation → Text → Pass → Result Error Pass
  mark_retried n o message p = do
    (failure, s) ← mark_failed rt (env.on_finish n) (reference_to o) none p.store message
    (_, s') ← mark_reconcile rt (env.on_retry n) (reference_to failure) none s
    ok (record p { store = s'; failed = p.failed ++ (failure ∷ []) })

  -- `markApplied` stands inside the `try`, so an error of its own is handled like the applier's.
  or_retry : ℕ → Operation → Pass → Result Error Pass → Result Error Pass
  unfolding mark_retried
  or_retry n o p (ok q) = ok q
  or_retry n o p (err e) = mark_retried n o (error_message e) p

  finish : ℕ → Operation → Pass → Outcome → Result Error Pass
  unfolding or_retry mark_settled
  finish n o p settled = or_retry n o p (mark_settled n o p)
  finish n o p obsolete = mark_settled n o p
  finish n o p (threw message) = mark_retried n o message p

  round : ℕ → Operation → Pass → Result Error Pass
  unfolding finish
  round n o p = do
    (started, s) ← mark_applying rt (env.on_start n) (reference_to o) none p.store
    finish n started (record p { store = run rt (env.meanwhile n) s }) (env.applier started)

  rounds : ℕ → List Operation → Pass → Result Error Pass
  unfolding round
  rounds n [] p = ok p
  rounds n (o ∷ os) p = do q ← round n o p; rounds (n + 1) os q

  -- The rows to apply are listed once, after the recovery.
  pub reconcile_pending_operations : Store → Result Error Pass
  unfolding rounds
  reconcile_pending_operations s = do
    (_, s') ← recover_applying_operations s
    rounds 0 (list_pending s') (record { store = s'; applied = []; failed = [] })
