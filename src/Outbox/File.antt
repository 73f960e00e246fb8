-- ===== src/Outbox/File.antt =====
-- The file-backed outbox (src/state/file-outbox.ts). A method is an action on the operations in
-- memory and on the world: it returns its result, or the error that it threw, beside both.
pub mod Monad
pub mod Persist
pub mod Refine
pub mod Restart
pub mod Durable
mod Tests
use openwebui_gjc_adapter.Outbox.{
  Operation, EnqueueInput, Reference, key_of, canonical_key, normalize_principal_id,
  assert_same_enqueue_identity, to_timestamp, new_operation, operation_id_for,
}
use openwebui_gjc_adapter.Outbox.Document.{Host, parse_persisted_outbox_document}
use openwebui_gjc_adapter.Outbox.Document.Written.{document_value}
use openwebui_gjc_adapter.Outbox.File.Monad.{
  Action, Failure, rejected, unreadable, ◌>>=◌, ◌>>◌, pure, of_result,
}
use openwebui_gjc_adapter.Outbox.File.Persist.{FileSystem, Node, assert_regular_file, persist}
use openwebui_gjc_adapter.Outbox.Memory.{
  Store, require_operation, normalized_input, as_applying, as_applied, as_failed, as_reconcile,
}
use openwebui_gjc_adapter.Outbox.Memory
use openwebui_gjc_adapter.Metadata.{Runtime, Readings}
use openwebui_gjc_adapter.Prelude.{
  ℕ, Result, List, [], ◌∷◌, Option, none, some, Text, if◌then◌else◌,
}
use openwebui_gjc_adapter.Prelude.Dict

-- The operations in memory, and everything outside.
pub record Backed (W : Type 0) : Type 0 where
  pub operations : Store
  pub world : W

abbrev back : {W A : Type 0} → Backed W → Result Failure A × W → Result Failure A × Backed W
back b (outcome, w) = (outcome, record b { world = w })

abbrev on_world : {W A : Type 0} → Action W A → Action (Backed W) A
on_world m b = back b (m b.world)

abbrev pub operations_of : {W : Type 0} → Action (Backed W) Store
operations_of b = pure b.operations b

abbrev put_operations : {W : Type 0} → Store → Action (Backed W) (Unit {0})
put_operations s b = pure tt (record b { operations = s })

-- `new Map(operations.map(operation => [key, operation]))`
map_of : List Operation → Store → Store
map_of [] s = s
map_of (o ∷ os) s = map_of os (Dict.set (key_of o) o s)

list_pending : {W : Type 0} → Action (Backed W) (List Operation)
list_pending = do s ← operations_of; pure (Memory.list_pending s)

list_applying : {W : Type 0} → Action (Backed W) (List Operation)
list_applying = do s ← operations_of; pure (Memory.list_applying s)

get : {W : Type 0} → Reference → Action (Backed W) (Option Operation)
get reference = do s ← operations_of; of_result rejected (Memory.get reference s)

-- What a call reads from outside: where it makes an ID or a time, and where it names its temporary
-- file.
pub record Reads : Type 0 where
  pub call : Readings
  pub temporary : Readings

module _ (fs : FileSystem) (node : Node) (rt : Runtime) (file_path : Text) where
  open fs use {World}

  -- The operations are written first, and take their place in memory when that has succeeded.
  commit : Reads → Store → Operation → Action (Backed World) Operation
  commit r candidate operation = do
    on_world (
        persist fs node rt r.temporary file_path
          (node.stringify (document_value (Dict.values candidate))))
    put_operations candidate
    pure operation

  enqueue_at :
      Reads
      → Text
      → Option Operation
      → Operation
      → EnqueueInput
      → Store
      → Action (Backed World) Operation
  unfolding commit
  enqueue_at r key (some existing) operation input s = do
    of_result rejected (assert_same_enqueue_identity existing input)
    pure existing
  enqueue_at r key none operation input s = commit r (Dict.set key operation s) operation

  pub enqueue : Reads → EnqueueInput → Action (Backed World) Operation
  unfolding enqueue_at
  enqueue r input = do
    let operation_id = operation_id_for rt r.call input
    principal_id ← of_result rejected (normalize_principal_id input.principal_id)
    let key = canonical_key principal_id input.chat_id operation_id
    let operation = new_operation operation_id principal_id input (to_timestamp rt r.call input.now)
    s ← operations_of
    enqueue_at r key (Dict.get key s) operation (normalized_input principal_id input) s

  update : Reads → Reference → (Operation → Operation) → Action (Backed World) Operation
  unfolding commit
  update r reference change = do
    s ← operations_of
    (key, operation) ← of_result rejected (require_operation reference s)
    commit r (Dict.set key (change operation) s) (change operation)

  module _ (r : Reads) (reference : Reference) (now : Option ℕ) where
    pub mark_applying : Action (Backed World) Operation
    unfolding update
    mark_applying = update r reference (as_applying (to_timestamp rt r.call now))

    pub mark_applied : Action (Backed World) Operation
    unfolding update
    mark_applied = update r reference (as_applied (to_timestamp rt r.call now))

    pub mark_failed : Text → Action (Backed World) Operation
    unfolding update
    mark_failed error = update r reference (as_failed error (to_timestamp rt r.call now))

    pub mark_reconcile : Action (Backed World) Operation
    unfolding update
    mark_reconcile = update r reference (as_reconcile (to_timestamp rt r.call now))

module _ (fs : FileSystem) (file_path : Text) where
  open fs use {World, exists, read_file}

  read_document : Host → Action World Store
  unfolding map_of
  read_document host = do
    assert_regular_file fs file_path
    text ← read_file file_path
    operations ← of_result unreadable (parse_persisted_outbox_document host text)
    pure (map_of operations [])

  -- What the constructor puts into memory.
  pub load : Host → Action World Store
  unfolding read_document
  load host w = (if exists file_path w then read_document host else pure []) w
