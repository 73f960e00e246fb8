-- ===== src/Outbox/Memory/Calls.antt =====
-- Histories of calls on an outbox store.
use openwebui_gjc_adapter.Outbox.{Operation, EnqueueInput, Reference, Error}
use openwebui_gjc_adapter.Outbox.Memory.{
  Store, enqueue, mark_applying, mark_applied, mark_failed, mark_reconcile,
}
use openwebui_gjc_adapter.Metadata.{Runtime, Readings}
use openwebui_gjc_adapter.Prelude.{ℕ, ◌≡◌, refl, List, [], ◌∷◌, Option, Text, Result, ok, err}

pub data Call : Type 0 where
  enqueues : EnqueueInput → Call
  applies applieds reconciles : Reference → Option ℕ → Call
  fails : Reference → Text → Option ℕ → Call

-- A call that throws leaves the store as it was.
abbrev pub after : Store → Result Error (Operation × Store) → Store
after s (ok r) = r.1
after s (err e) = s

unfoldable pub call : Runtime → Readings → Call → Store → Result Error (Operation × Store)
call rt r (enqueues input) s = enqueue rt r input s
call rt r (applies reference now) s = mark_applying rt r reference now s
call rt r (applieds reference now) s = mark_applied rt r reference now s
call rt r (reconciles reference now) s = mark_reconcile rt r reference now s
call rt r (fails reference error now) s = mark_failed rt r reference now s error

unfoldable pub step : Runtime → Readings → Call → Store → Store
unfolding call
step rt r c s = after s (call rt r c s)

unfoldable pub run : Runtime → List (Readings × Call) → Store → Store
unfolding step
run rt [] s = s
run rt ((r, c) ∷ calls) s = run rt calls (step rt r c s)

pub after_cases {ℓ} :
    (P : Store → Type ℓ) (s : Store) (m : Result Error (Operation × Store))
    → P s
    → ((o : Operation) (t : Store) → m ≡ ok (o, t) → P t)
    → P (after s m)
after_cases P s (ok (o, t)) thrown returned = returned o t refl
after_cases P s (err e) thrown returned = thrown
