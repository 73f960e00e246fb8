-- ===== src/Outbox/File/Refine.antt =====
-- The file-backed outbox does what the in-memory outbox does, or it throws and keeps its operations.
use openwebui_gjc_adapter.Outbox.{
  Operation, EnqueueInput, Reference, Error, normalize_principal_id, assert_same_enqueue_identity,
}
use openwebui_gjc_adapter.Outbox.File.{
  Backed, Reads, put_operations, back, commit, enqueue_at, enqueue, update, mark_applying,
  mark_applied, mark_failed, mark_reconcile,
}
use openwebui_gjc_adapter.Outbox.File.Monad.{
  Action, Failure, rejected, then_do, of_result, pure, ◌>>◌,
}
use openwebui_gjc_adapter.Outbox.File.Persist.{FileSystem, Node, persist}
use openwebui_gjc_adapter.Outbox.Document.Written.{document_value}
use openwebui_gjc_adapter.Prelude
use openwebui_gjc_adapter.Outbox.Memory
use openwebui_gjc_adapter.Outbox.Memory.{Store, require_operation}
use openwebui_gjc_adapter.Outbox.Memory.Calls.{Call, enqueues, applies, applieds, reconciles, fails}
use openwebui_gjc_adapter.Outbox.Memory.Calls
use openwebui_gjc_adapter.Metadata.{Runtime}
use openwebui_gjc_adapter.Prelude.{
  ◌≡◌, refl, List, [], ◌∷◌, Option, none, some, Text, Result, ok, err, arith, Result-cases, inl,
  inr,
}
use openwebui_gjc_adapter.Prelude.Dict

-- What came out of a call on the file-backed outbox `b`, against what the in-memory outbox gives on
-- the same operations.
abbrev pub Refines :
    {W : Type 0}
    → Result Error (Operation × Store)
    → Backed W
    → Result Failure Operation × Backed W
    → Type 0
Refines memory b (ok o, b') = memory ≡ ok (o, b'.operations)
Refines memory b (err f, b') =
    (b'.operations ≡ b.operations)
    × ((e : Error) → memory ≡ err e → (f ≡ rejected e) × (b'.world ≡ b.world))

-- A step that needs no file system, and that both stores make.
of_result-Refines :
    {W A : Type 0} (b : Backed W) (m : Result Error A) (k : A → Result Error (Operation × Store))
    (f : A → Action (Backed W) Operation)
    → ((a : A) → Refines (k a) b (f a b))
    → Refines (Prelude.◌>>=◌ m k) b (then_do f (of_result rejected m b))
of_result-Refines b (ok a) k f h = h a
of_result-Refines b (err e) k f h = (refl, λ e' same. (cc same, refl))

module _ (fs : FileSystem) (node : Node) (rt : Runtime) (file_path : Text) where
  open fs use {World}

  written-Refines :
      (candidate : Store) (o : Operation) (b : Backed World)
      (out : Result Failure (Unit {0}) × World)
      → Refines
          (ok (o, candidate))
          b
          (then_do (λ _. put_operations candidate >> pure o) (back b out))
  written-Refines candidate o b (ok u, w) = refl
  written-Refines candidate o b (err f, w) = (refl, λ e h. cc h)

  commit-Refines :
      (r : Reads) (candidate : Store) (o : Operation) (b : Backed World)
      → Refines (ok (o, candidate)) b (commit fs node rt file_path r candidate o b)
  unfolding commit
  commit-Refines r candidate o b = written-Refines candidate o b (
      persist fs node rt r.temporary file_path
        (node.stringify (document_value (Dict.values candidate))) b.world)

  update-Refines :
      (r : Reads) (reference : Reference) (change : Operation → Operation) (b : Backed World)
      → Refines
          (Memory.update reference change b.operations)
          b
          (update fs node rt file_path r reference change b)
  unfolding update Memory.update
  update-Refines r reference change b =
      of_result-Refines b (require_operation reference b.operations) _ _ (λ found.
        commit-Refines r (Dict.set found.0 (change found.1) b.operations) (change found.1) b)

  enqueue_at-Refines :
      (r : Reads) (key : Text) (existing : Option Operation) (o : Operation) (input : EnqueueInput)
      (b : Backed World)
      → Refines
          (Memory.enqueue_at key existing o input b.operations)
          b
          (enqueue_at fs node rt file_path r key existing o input b.operations b)
  unfolding enqueue_at Memory.enqueue_at
  enqueue_at-Refines r key (some existing) o input b =
      of_result-Refines b (assert_same_enqueue_identity existing input) _ _ (λ _. refl)
  enqueue_at-Refines r key none o input b = commit-Refines r (Dict.set key o b.operations) o b

  enqueue-Refines :
      (r : Reads) (input : EnqueueInput) (b : Backed World)
      → Refines
          (Memory.enqueue rt r.call input b.operations)
          b
          (enqueue fs node rt file_path r input b)
  unfolding enqueue Memory.enqueue
  enqueue-Refines r input b =
      of_result-Refines b (normalize_principal_id input.principal_id) _ _
        (λ p. enqueue_at-Refines r _ _ _ _ b)

  unfoldable pub call : Reads → Call → Action (Backed World) Operation
  unfolding mark_applying mark_applied mark_failed mark_reconcile
  call r (enqueues input) = enqueue fs node rt file_path r input
  call r (applies reference now) = mark_applying fs node rt file_path r reference now
  call r (applieds reference now) = mark_applied fs node rt file_path r reference now
  call r (reconciles reference now) = mark_reconcile fs node rt file_path r reference now
  call r (fails reference error now) = mark_failed fs node rt file_path r reference now error

  -- A call of the file-backed outbox that returns gives the row that the in-memory outbox gives on
  -- the same operations, and leaves the operations that it leaves; a call that throws keeps the
  -- operations, and where the in-memory outbox throws too it throws the same error and has called
  -- nothing outside.
  pub call-Refines :
      (r : Reads) (c : Call) (b : Backed World)
      → Refines (Calls.call rt r.call c b.operations) b (call r c b)
  unfolding call Calls.call Memory.mark_applying Memory.mark_applied Memory.mark_failed
      Memory.mark_reconcile
  call-Refines r (enqueues input) b = enqueue-Refines r input b
  call-Refines r (applies reference now) b = update-Refines r reference _ b
  call-Refines r (applieds reference now) b = update-Refines r reference _ b
  call-Refines r (reconciles reference now) b = update-Refines r reference _ b
  call-Refines r (fails reference error now) b = update-Refines r reference _ b
