-- ===== src/Outbox/File/Tests.antt =====
-- Runs of the file-backed outbox (src/state/file-outbox.ts) on a file system in memory.
use openwebui_gjc_adapter.Outbox.{
  Operation, by_identity, new_operation, to_timestamp, normalize_principal_id, canonical_key,
}
use openwebui_gjc_adapter.Outbox.Document.{Host}
use openwebui_gjc_adapter.Outbox.Document.Written.{IsStorable, document_value}
use openwebui_gjc_adapter.Outbox.File.{Backed, Reads, load}
use openwebui_gjc_adapter.Outbox.File.Monad.{Failure, system}
use openwebui_gjc_adapter.Outbox.File.Persist.{
  FileSystem, Node, Flags, exclusive, reading, persist, temp_path_of,
}
use openwebui_gjc_adapter.Outbox.File.Persist.Disk.{Disk, IsLawful}
use openwebui_gjc_adapter.Outbox.File.Persist.Atomic.{persist-atomic}
use openwebui_gjc_adapter.Outbox.File.Refine.{Refines, call, call-Refines}
use openwebui_gjc_adapter.Outbox.File.Restart.{Restores}
use openwebui_gjc_adapter.Outbox.File.Durable.{call-durable}
use openwebui_gjc_adapter.Outbox.Memory.{as_applying, require_operation, resolve_key}
use openwebui_gjc_adapter.Outbox.Memory.Calls.{Call, applies}
use openwebui_gjc_adapter.Outbox.Memory.Calls
use openwebui_gjc_adapter.Json.{stringify}
use openwebui_gjc_adapter.Metadata.{create_operation_id}
use openwebui_gjc_adapter.Outbox.Memory.Tests.{
  test_runtime, later, row, one_row, one_row-IsWellFormed,
}
use openwebui_gjc_adapter.Prelude.{
  ◌≡◌, ◌≢◌, ◌⊎◌, refl, ap, subst, inl, ℕ, true, false, [], ◌∷◌, ◌++◌, Option, none, some, Text,
  codes, Result, ok, err, arith, text_eq, text_eq_iff, text_ne, option_eq, contains, trim, All,
  is_some, if◌then◌else◌,
}
use openwebui_gjc_adapter.Prelude.Dict

-- What each path holds, and the path of the descriptor that was opened last.
record Memory : Type 0 where
  held : Text → Option Text
  last : Option Text

abbrev put : Text → Option Text → Memory → Memory
put p t m = record m { held = λ q. if text_eq p q then t else m.held q }

abbrev write_last : Option Text → Text → Memory → Result Failure (Unit {0}) × Memory
write_last none t m = (err (system (codes "EBADF")), m)
write_last (some p) t m = (ok tt, put p (some t) m)

abbrev open_last : Text → Flags → Memory → Result Failure ℕ × Memory
open_last p exclusive m =
    if is_some (m.held p)
    then (err (system (codes "EEXIST")), m)
    else (ok 3, record (put p (some []) m) { last = some p })
open_last p reading m = (ok 4, m)

abbrev read_held : Option Text → Memory → Result Failure Text × Memory
read_held none m = (err (system (codes "ENOENT")), m)
read_held (some t) m = (ok t, m)

abbrev in_memory : FileSystem
in_memory = record {
  World = Memory;
  exists = λ p m. is_some (m.held p);
  lstat = λ p m. (
    ok (record { is_symbolic_link = false; is_file = is_some (m.held p); is_directory = true }),
    m,
  );
  mkdir = λ p m. (ok tt, m);
  open_file = open_last;
  read_file = λ p m. read_held (m.held p) m;
  write_file = λ d t m. write_last m.last t m;
  fsync = λ d m. (ok tt, m);
  close = λ d m. (ok tt, m);
  rename = λ p q m. (ok tt, put q (m.held p) (put p none m));
  rm = λ p m. (ok tt, put p none m);
}

abbrev memory_disk : Disk in_memory
memory_disk = record { content = λ m p. m.held p; opened = λ m d. m.last }

write_last_keeps :
    (o : Option Text) (t p q : Text) (w : Memory)
    → o ≡ some p
    → q ≢ p
    → (write_last o t w).1.held q ≡ w.held q
write_last_keeps none t p q w e a = cc e
write_last_keeps (some r) t p q w e a = ground (arith, text_eq_iff r q)

write_last_writes :
    (o : Option Text) (t p : Text) (w w' : Memory)
    → o ≡ some p
    → write_last o t w ≡ (ok tt, w')
    → w'.held p ≡ some t
write_last_writes none t p w w' e h = cc e
write_last_writes (some r) t p w w' e h =
    subst (λ (m : Memory). m.held p ≡ some t) (ap (λ x. x.1) h) (ground (arith, text_eq_iff r p))

renamed :
    (p q : Text) (w w' : Memory)
    → ◌≡◌ {A = Result Failure (Unit {0}) × Memory}
        (ok tt, put q (w.held p) (put p none w))
        (ok tt, w')
    → w'.held q ≡ w.held p
renamed p q w w' h =
    subst (λ (m : Memory). m.held q ≡ w.held p) (ap (λ x. x.1) h) (ground (arith, text_eq_iff q q))

read_held_fails :
    (o : Option Text) (w w' : Memory) (e : Failure)
    → read_held o w ≡ (err e, w')
    → (message : Text) × (e ≡ system message)
read_held_fails none w w' e h = (codes "ENOENT", cc h)
read_held_fails (some t) w w' e h = cc h

in_memory-IsLawful : IsLawful in_memory memory_disk
in_memory-IsLawful = record {
  lstat_keeps = λ p q w. refl;
  mkdir_keeps = λ p q w. refl;
  fsync_keeps = λ d q w. refl;
  close_keeps = λ d q w. refl;
  read_keeps = λ p q w. refl;
  open_keeps = λ p q w h. ground (arith, text_eq_iff p q);
  open_opens = λ p w d w' h. ground arith;
  write_keeps = λ d t p q w o a. write_last_keeps w.last t p q w o a;
  write_writes = λ d t p w w' o h. write_last_writes w.last t p w w' o h;
  rename_moves = λ p q w w' h. renamed p q w w' h;
  rename_fails = λ p q w w' e h. cc h;
  rm_keeps = λ p q w h. ground (arith, text_eq_iff p q);
  exists_content = λ p t w h. ground arith;
  read_content = λ p s w w' h. ground arith;
  read_fails = λ p w w' e h. read_held_fails (w.held p) w w' e h;
  lstat_fails = λ p w w' e h. cc h;
}

abbrev reads : Reads
reads = record { call = later; temporary = later }

abbrev file : Text
file = codes "state/outbox.json"

abbrev start : Call
start = applies (by_identity (some (codes "ann")) (codes "c") (codes "op")) none

-- One text stands for every document, which is enough where one is written.
abbrev node : Node
node = record {
  dirname = λ p. codes "state";
  join = λ p q. p ++ (b'/' ∷ q);
  stringify = λ v. codes "document";
}

abbrev backed : Backed Memory
backed = record {
  operations = one_row;
  world = record {
    held = λ p. if text_eq p file then some (codes "document") else none;
    last = none;
  };
}

apart : file ≢ temp_path_of node test_runtime later (node.dirname file)
unfolding temp_path_of create_operation_id text_eq
apart h = text_ne file (temp_path_of node test_runtime later (node.dirname file)) refl h

call-Refines_example :
    Refines
      (Calls.call test_runtime later start one_row)
      backed
      (call in_memory node test_runtime file reads start backed)
call-Refines_example = call-Refines in_memory node test_runtime file reads start backed

persist-atomic_example :
    (((persist in_memory node test_runtime later file (codes "new") backed.world).1.held file
        ≡ backed.world.held file)
      ⊎ ((persist in_memory node test_runtime later file (codes "new") backed.world).1.held file
          ≡ some (codes "new")))
    × ((persist in_memory node test_runtime later file (codes "new") backed.world).0 ≡ ok tt
        → (persist in_memory node test_runtime later file (codes "new") backed.world).1.held file
          ≡ some (codes "new"))
persist-atomic_example =
    persist-atomic in_memory memory_disk in_memory-IsLawful node test_runtime later file
      (codes "new") backed.world apart

abbrev started : Operation
started = as_applying (70 ∷ []) row

abbrev after_start : Result Failure Operation × Backed Memory
after_start = call in_memory node test_runtime file reads start backed

returned : after_start.0 ≡ ok started
unfolding call persist new_operation to_timestamp require_operation resolve_key
    normalize_principal_id canonical_key stringify create_operation_id text_eq trim option_eq
    contains Dict.get Dict.set
returned = refl

after_operations : Dict.values after_start.1.operations ≡ started ∷ []
unfolding call persist new_operation to_timestamp require_operation resolve_key
    normalize_principal_id canonical_key stringify create_operation_id text_eq trim option_eq
    contains Dict.get Dict.set
after_operations = refl

abbrev host : Host
host = record {
  json_parse = λ t. ok (document_value (Dict.values after_start.1.operations));
  iso_of = some;
}

storable : All (IsStorable host) (Dict.values after_start.1.operations)
unfolding new_operation normalize_principal_id trim
storable = rw after_operations (
  record {
    operation_id = λ h. ground (arith, h);
    owner_user_id = λ h. ground (arith, h);
    project_id = λ h. ground (arith, h);
    chat_id = λ h. ground (arith, h);
    payload_hash = λ h. ground (arith, h);
    attempts = omega arith;
    created_at = refl;
    updated_at = refl;
    normal = refl;
  },
  tt,
)

call-durable_example :
    Restores after_start.1.operations (load in_memory file host after_start.1.world).0
unfolding text_eq
call-durable_example =
    call-durable in_memory memory_disk in_memory-IsLawful node test_runtime file host reads start
      backed started apart (inl refl) one_row-IsWellFormed returned storable refl
