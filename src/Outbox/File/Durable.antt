-- ===== src/Outbox/File/Durable.antt =====
-- What a call that returns has changed is there after a restart.
use openwebui_gjc_adapter.Outbox.{
  Operation, EnqueueInput, Reference, Error, normalize_principal_id, assert_same_enqueue_identity,
}
use openwebui_gjc_adapter.Outbox.Document.{Host}
use openwebui_gjc_adapter.Outbox.Document.Written.{IsStorable, document_value}
use openwebui_gjc_adapter.Outbox.File.{
  Backed, Reads, back, put_operations, commit, enqueue_at, enqueue, update, load,
}
use openwebui_gjc_adapter.Outbox.File.Monad.{
  Action, Failure, rejected, then_do, of_result, pure, ◌>>◌,
}
use openwebui_gjc_adapter.Outbox.File.Persist.{FileSystem, Node, persist, temp_path_of}
use openwebui_gjc_adapter.Outbox.File.Persist.Disk.{Disk, IsLawful}
use openwebui_gjc_adapter.Outbox.File.Persist.Atomic.{persist-atomic}
use openwebui_gjc_adapter.Outbox.File.Refine.{Refines, call, call-Refines}
use openwebui_gjc_adapter.Outbox.File.Restart.{Restores, load-Restores}
use openwebui_gjc_adapter.Outbox.Memory.{Store, require_operation}
use openwebui_gjc_adapter.Outbox.Memory.Calls.{Call, enqueues, applies, applieds, reconciles, fails}
use openwebui_gjc_adapter.Outbox.Memory.Invariant.{IsWellFormed, call-IsWellFormed}
use openwebui_gjc_adapter.Metadata.{Runtime}
use openwebui_gjc_adapter.Prelude.{
  ◌≡◌, ◌≢◌, ◌⊎◌, refl, subst, inl, inr, [], Option, none, some, Text, Result, ok, err, All,
}
use openwebui_gjc_adapter.Prelude.Dict

nothing_found : (key : Text) (found : Operation) → ¬ (Dict.get key [] ≡ some found)
unfolding Dict.get
nothing_found key found h = cc h

module _ (fs : FileSystem) (disk : Disk fs) (law : IsLawful fs disk) (node : Node) (rt : Runtime)
    (file : Text) where
  -- The file holds the document of the operations in memory.
  abbrev pub IsCurrent : Backed fs.World → Type 0
  IsCurrent b =
      disk.content b.world file ≡ some (node.stringify (document_value (Dict.values b.operations)))

  Stored : Result Failure Operation × Backed fs.World → Type 0
  Stored (ok o, b) = IsCurrent b
  Stored (err e, b) = Unit

  -- The temporary file is another file.
  abbrev pub IsApart : Reads → Type 0
  IsApart r = file ≢ temp_path_of node rt r.temporary (node.dirname file)

  written-Stored :
      (candidate : Store) (o : Operation) (b : Backed fs.World)
      (x : Result Failure (Unit {0}) × fs.World)
      → (x.0 ≡ ok tt
          → disk.content x.1 file ≡ some (node.stringify (document_value (Dict.values candidate))))
      → Stored (then_do (λ _. put_operations candidate >> pure o) (back b x))
  unfolding Stored
  written-Stored candidate o b (ok u, w) h = h refl
  written-Stored candidate o b (err e, w) h = tt

  commit-Stored :
      (r : Reads) (candidate : Store) (o : Operation) (b : Backed fs.World)
      → IsApart r
      → Stored (commit fs node rt file r candidate o b)
  unfolding commit
  commit-Stored r candidate o b apart =
      let text = node.stringify (document_value (Dict.values candidate)) in
      written-Stored candidate o b (persist fs node rt r.temporary file text b.world)
        (persist-atomic fs disk law node rt r.temporary file text b.world apart).1

  of_result-Stored :
      {A : Type 0} (b : Backed fs.World) (m : Result Error A)
      (f : A → Action (Backed fs.World) Operation)
      → ((a : A) → Stored (f a b))
      → Stored (then_do f (of_result rejected m b))
  unfolding Stored
  of_result-Stored b (ok a) f h = h a
  of_result-Stored b (err e) f h = tt

  update-Stored :
      (r : Reads) (reference : Reference) (change : Operation → Operation) (b : Backed fs.World)
      → IsApart r
      → Stored (update fs node rt file r reference change b)
  unfolding update
  update-Stored r reference change b apart =
      of_result-Stored b (require_operation reference b.operations) _ (λ found.
        commit-Stored r (Dict.set found.0 (change found.1) b.operations) (change found.1) b apart)

  -- A row is found only where the file holds it.
  enqueue_at-Stored :
      (r : Reads) (key : Text) (existing : Option Operation) (o : Operation) (input : EnqueueInput)
      (b : Backed fs.World)
      → IsApart r
      → ((found : Operation) → existing ≡ some found → IsCurrent b)
      → Stored (enqueue_at fs node rt file r key existing o input b.operations b)
  unfolding enqueue_at
  enqueue_at-Stored r key (some found) o input b apart h =
      of_result-Stored b (assert_same_enqueue_identity found input) _
        (λ _. unfold Stored in h found refl)
  enqueue_at-Stored r key none o input b apart h =
      commit-Stored r (Dict.set key o b.operations) o b apart

  found-IsCurrent :
      (key : Text) (b : Backed fs.World) (found : Operation)
      → IsCurrent b ⊎ (b.operations ≡ [])
      → Dict.get key b.operations ≡ some found
      → IsCurrent b
  unfolding Dict.get
  found-IsCurrent key b found (inl h) g = h
  found-IsCurrent key b found (inr e) g =
      absurd (nothing_found key found (subst (λ (s : Store). Dict.get key s ≡ some found) e g))

  enqueue-Stored :
      (r : Reads) (input : EnqueueInput) (b : Backed fs.World)
      → IsApart r
      → IsCurrent b ⊎ (b.operations ≡ [])
      → Stored (enqueue fs node rt file r input b)
  unfolding enqueue
  enqueue-Stored r input b apart h =
      of_result-Stored b (normalize_principal_id input.principal_id) _
        (λ p. enqueue_at-Stored r _ _ _ _ b apart (λ found g. found-IsCurrent _ b found h g))

  call-Stored :
      (r : Reads) (c : Call) (b : Backed fs.World)
      → IsApart r
      → IsCurrent b ⊎ (b.operations ≡ [])
      → Stored (call fs node rt file r c b)
  unfolding call
  call-Stored r (enqueues input) b apart h = enqueue-Stored r input b apart h
  call-Stored r (applies reference now) b apart h = update-Stored r reference _ b apart
  call-Stored r (applieds reference now) b apart h = update-Stored r reference _ b apart
  call-Stored r (reconciles reference now) b apart h = update-Stored r reference _ b apart
  call-Stored r (fails reference error now) b apart h = update-Stored r reference _ b apart

  Stored-ok :
      (x : Result Failure Operation × Backed fs.World) (o : Operation)
      → x.0 ≡ ok o
      → Stored x
      → IsCurrent x.1
  unfolding Stored
  Stored-ok (ok p, b) o h s = s
  Stored-ok (err e, b) o h s = cc h

  Refines-ok :
      (memory : Result Error (Operation × Store)) (b : Backed fs.World)
      (x : Result Failure Operation × Backed fs.World) (o : Operation)
      → x.0 ≡ ok o
      → Refines memory b x
      → memory ≡ ok (o, x.1.operations)
  Refines-ok memory b (ok p, b') o h s = cc (h, s)
  Refines-ok memory b (err e, b') o h s = cc h

  -- On a lawful file system, where the temporary file is another file, a call returns on well-
  -- formed operations that the file holds, or on none. If the document check admits each row that
  -- it leaves, and JSON reads back the document written, then a new instance that loads has
  -- exactly the operations that the call left, or it throws an error of the file system or of the
  -- check of the path.
  pub call-durable :
      (host : Host) (r : Reads) (c : Call) (b : Backed fs.World) (o : Operation)
      → IsApart r
      → IsCurrent b ⊎ (b.operations ≡ [])
      → IsWellFormed b.operations
      → (call fs node rt file r c b).0 ≡ ok o
      → All (IsStorable host) (Dict.values (call fs node rt file r c b).1.operations)
      → host.json_parse
          (node.stringify (document_value (Dict.values (call fs node rt file r c b).1.operations)))
        ≡ ok (document_value (Dict.values (call fs node rt file r c b).1.operations))
      → Restores
          (call fs node rt file r c b).1.operations
          (load fs file host (call fs node rt file r c b).1.world).0
  call-durable host r c b o apart stored well returned storable json =
      let x = call fs node rt file r c b in
      let current = Stored-ok x o returned (call-Stored r c b apart stored) in
      let memory = Refines-ok _ b x o returned (call-Refines fs node rt file r c b) in
      load-Restores fs disk law file host _ x.1.operations
        (call-IsWellFormed rt r.call c b.operations well memory) storable json x.1.world current
