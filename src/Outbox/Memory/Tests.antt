-- ===== src/Outbox/Memory/Tests.antt =====
-- Runs of the in-memory outbox (src/state/outbox.ts).
use openwebui_gjc_adapter.Outbox.{
  Operation, EnqueueInput, chat, by_identity, id_conflict, normalize_principal_id, canonical_key,
  new_operation, to_timestamp, operation_id_for,
}
use openwebui_gjc_adapter.Outbox.Memory.{Store, get, enqueue, enqueue_at}
use openwebui_gjc_adapter.Outbox.Memory.Calls.{Call, enqueues, applies, call, run}
use openwebui_gjc_adapter.Outbox.Memory.Invariant.{
  IsWellFormed, run-IsWellFormed, call-IsWellFormed,
}
use openwebui_gjc_adapter.Outbox.Memory.Rows.{
  Keeps, get-call_self, get-call_other, run-Keeps, canonical_key-injective,
}
use openwebui_gjc_adapter.Outbox.Memory.Enqueue.{SamePurpose, enqueue_again, enqueue_conflict}
use openwebui_gjc_adapter.Metadata.{Runtime, Readings}
use openwebui_gjc_adapter.Prelude.{
  ◌≡◌, ◌≢◌, refl, inl, List, [], ◌∷◌, Option, none, some, Text, codes, ok, err, trim, text_eq,
  text_ne,
}
use openwebui_gjc_adapter.Prelude.Dict

abbrev pub test_runtime : Runtime
test_runtime = record { iso = λ n. n ∷ []; sha256_hex = λ t. t; basename = λ t. t }

abbrev pub test_readings : Readings
test_readings = record { id_clock = 5; clock = 7; uuid = codes "u-1" }

abbrev pub input : EnqueueInput
input = record {
  operation_id = some (codes "op");
  principal_id = some (codes " ann ");
  owner_user_id = codes "owner";
  project_id = codes "p";
  chat_id = codes "c";
  kind = chat;
  payload_hash = codes "h";
  now = some 3;
}

abbrev pub row : Operation
row = new_operation (codes "op") (some (codes "ann")) input (3 ∷ [])

abbrev pub one_row : Store
one_row = (canonical_key (some (codes "ann")) (codes "c") (codes "op"), row) ∷ []

normal : normalize_principal_id (some (codes " ann ")) ≡ ok (some (codes "ann"))
unfolding normalize_principal_id trim
normal = refl

enqueued : enqueue test_runtime test_readings input [] ≡ ok (row, one_row)
unfolding enqueue enqueue_at operation_id_for to_timestamp new_operation Dict.get Dict.set
enqueued = rw normal refl

abbrev no_rows : Store
no_rows = []

no_rows-IsWellFormed : IsWellFormed no_rows
no_rows-IsWellFormed = record { distinct = tt; rows = tt }

normal_bob : normalize_principal_id (some (codes "bob")) ≡ ok (some (codes "bob"))
unfolding normalize_principal_id trim
normal_bob = refl

bob_apart : some (codes "bob") ≢ some (codes "ann")
unfolding text_eq
bob_apart h = text_ne (codes "bob") (codes "ann") refl (cc h)

get-call_other_example :
    get (by_identity (some (codes "bob")) (codes "c") (codes "op")) one_row
    ≡ get (by_identity (some (codes "bob")) (codes "c") (codes "op")) no_rows
unfolding call new_operation
get-call_other_example =
    get-call_other test_runtime test_readings (enqueues input) no_rows (some (codes "bob"))
      (some (codes "bob")) (codes "c") (codes "op") no_rows-IsWellFormed enqueued normal_bob
      (inl bob_apart)

get-call_self_example :
    get (by_identity (some (codes "ann")) (codes "c") (codes "op")) one_row ≡ ok (some row)
unfolding call new_operation
get-call_self_example =
    get-call_self test_runtime test_readings (enqueues input) no_rows no_rows-IsWellFormed enqueued

abbrev pub later : Readings
later = record { id_clock = 50; clock = 70; uuid = codes "u-2" }

enqueue_again_example : enqueue test_runtime later input one_row ≡ ok (row, one_row)
enqueue_again_example =
    enqueue_again test_runtime test_readings later no_rows input (codes "op") no_rows-IsWellFormed
      refl enqueued

abbrev other_input : EnqueueInput
other_input = record input { payload_hash = codes "g" }

other_purpose : ¬ SamePurpose row other_input
unfolding new_operation text_eq
other_purpose h = text_ne (codes "h") (codes "g") refl h.payload_hash

enqueue_conflict_example :
    enqueue test_runtime later other_input one_row ≡ err (id_conflict (codes "op"))
enqueue_conflict_example =
    enqueue_conflict test_runtime test_readings later no_rows input (codes "op")
      no_rows-IsWellFormed refl enqueued other_input refl refl refl other_purpose

abbrev pub history : List (Readings × Call)
history =
    (test_readings, enqueues input)
    ∷ (later, applies (by_identity (some (codes "ann")) (codes "c") (codes "op")) none)
    ∷ []

run-IsWellFormed_example : IsWellFormed (run test_runtime history no_rows)
run-IsWellFormed_example = run-IsWellFormed test_runtime history no_rows no_rows-IsWellFormed

pub one_row-IsWellFormed : IsWellFormed one_row
unfolding call
one_row-IsWellFormed =
    call-IsWellFormed test_runtime test_readings (enqueues input) no_rows no_rows-IsWellFormed
      enqueued

run-Keeps_example : Keeps one_row (run test_runtime history one_row)
run-Keeps_example = run-Keeps test_runtime history one_row one_row-IsWellFormed

canonical_key-injective_example :
    (◌≡◌ {A = Option Text} none none) × (codes "c" ≡ codes "c") × (codes "op" ≡ codes "op")
canonical_key-injective_example =
    canonical_key-injective none none (codes "c") (codes "c") (codes "op") (codes "op") refl
