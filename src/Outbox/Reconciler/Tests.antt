-- ===== src/Outbox/Reconciler/Tests.antt =====
-- A pass over a store with one row (src/state/reconciler.ts).
use openwebui_gjc_adapter.Outbox.{Operation}
use openwebui_gjc_adapter.Outbox.Memory.{Store, list_pending, list_applying}
use openwebui_gjc_adapter.Outbox.Memory.Invariant.{IsWellFormed}
use openwebui_gjc_adapter.Outbox.Memory.Rows.{Keeps}
use openwebui_gjc_adapter.Outbox.Memory.Tests.{
  test_runtime, test_readings, later, history, one_row, one_row-IsWellFormed,
}
use openwebui_gjc_adapter.Outbox.Reconciler.{
  Environment, Pass, threw, recover_applying_operations, reconcile_pending_operations,
}
use openwebui_gjc_adapter.Outbox.Reconciler.Total.{reconcile_total}
use openwebui_gjc_adapter.Prelude.{◌+◌, ◌≡◌, List, codes, ok, length}

-- The applier fails, and another task starts the row again while it is awaited.
abbrev busy : Environment
busy = record {
  applier = λ o. threw (codes "down");
  meanwhile = λ n. history;
  on_recover = λ n. test_readings;
  on_start = λ n. test_readings;
  on_finish = λ n. later;
  on_retry = λ n. later;
}

reconcile_total_example :
    (t : Store) × (marked : List Operation) × (p : Pass) × (recover_applying_operations test_runtime
        busy one_row
      ≡ ok (marked, t))
    × (length marked ≡ length (list_applying one_row))
    × (reconcile_pending_operations test_runtime busy one_row ≡ ok p)
    × (length p.applied + length p.failed ≡ length (list_pending t))
    × IsWellFormed p.store
    × Keeps one_row p.store
reconcile_total_example = reconcile_total test_runtime busy one_row one_row-IsWellFormed
