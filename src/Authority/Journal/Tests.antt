-- ===== src/Authority/Journal/Tests.antt =====
-- A session authority with one chat, whose operation was pending at a restart
-- (src/gjc/session-authority-journal.ts).
use openwebui_gjc_adapter.Authority.{
  Intent, Operation, Provisional, Record, Reservation, State, Kind, is_pending, pending, complete,
  prompt,
}
use openwebui_gjc_adapter.Authority.Codec.{Clock, is_named}
use openwebui_gjc_adapter.Authority.Journal.{
  Encoding, Journal, journal_for, key_of, lookup_operation, lookup_operation_authority,
  needs_restart, reconcile,
}
use openwebui_gjc_adapter.Authority.Journal.Lookup.{
  found_in, lookup_operation_flat, lookup_authority_agrees,
}
use openwebui_gjc_adapter.Authority.Journal.Reconcile.{IsKeyed, reconcile_settles, reconcile_keeps}
use openwebui_gjc_adapter.Prelude.{
  ◌+◌, ◌≡◌, refl, false, List, [], ◌∷◌, none, some, Text, codes, find, is_some, text_eq, any,
}
use openwebui_gjc_adapter.Prelude.Dict
use openwebui_gjc_adapter.Prelude.Dict.{Dict}

abbrev pub encoding : Encoding
encoding = record {
  record_json = λ r. [];
  provisional_json = λ o. [];
  attachment_json = λ a. [];
  successor_json = λ s. [];
}

abbrev pub clock : Clock
clock = λ n. (n + 48) ∷ []

abbrev pub intent : Text → Kind → Intent
intent id kind = record {
  id = id;
  kind = kind;
  ingress_id = none;
  detail = none;
  result = none;
  acknowledged_successor = none;
}

abbrev pub operation : Text → State → Operation
operation id state = record {
  intent = intent id prompt;
  state = state;
  started_at = codes "t";
  completed_at = none;
}

abbrev pub chat_record : Text → List Operation → Record
chat_record chat_id journal = record {
  source = record {
    chat_id = chat_id;
    project_id = codes "p";
    session_id = codes "s";
    created_at = codes "t";
    header = record { chat_id = chat_id; project_id = codes "p"; session_id = codes "s" };
    session_file = none;
    active_leaf = none;
    raw_frame_cursor = 0;
    event_cursor = 0;
    operation_id = codes "a";
    assistant_text = none;
    model_selection = none;
    observations = none;
    attachment = none;
    journal = journal;
  };
  events = none;
  reassignment = none;
}

abbrev pub reservation : Text → Reservation
reservation project_id = record {
  intent = intent (codes "r") prompt;
  chat_id = codes "c";
  project_id = project_id;
  session_id = none;
  session_file = none;
  attachment = none;
}

abbrev pub provisional : Provisional
provisional = record {
  reservation = reservation (codes "p");
  state = pending;
  started_at = codes "t";
  completed_at = none;
}

abbrev pub settled : Record
settled = chat_record (codes "d") (operation (codes "b") complete ∷ [])

-- Two chats, and a provisional operation.
abbrev pub journal : Journal
journal = record {
  records =
      (codes "c", chat_record (codes "c") (operation (codes "a") pending ∷ []))
      ∷ (codes "d", settled)
      ∷ [];
  provisional = (key_of provisional, provisional) ∷ [];
  dirty_records = [];
  dirty_provisional = [];
  force_compaction = false;
}

lookup_operation_flat_example :
    lookup_operation (codes "c") (codes "a") journal
    ≡ find (λ o. is_named (codes "a") o) (journal_for (Dict.get (codes "c") journal.records))
lookup_operation_flat_example = lookup_operation_flat (codes "c") (codes "a") journal

lookup_authority_agrees_example :
    (found_in (codes "a") (lookup_operation_authority (codes "c") (codes "a") journal)
      ≡ lookup_operation (codes "c") (codes "a") journal)
    × (is_some (lookup_operation_authority (codes "c") (codes "a") journal)
        ≡ is_some (lookup_operation (codes "c") (codes "a") journal))
lookup_authority_agrees_example = lookup_authority_agrees (codes "c") (codes "a") journal

journal-IsKeyed : IsKeyed journal
unfolding Dict.get text_eq
journal-IsKeyed = record {
  records = (refl, (refl, tt));
  provisional = (refl, tt);
  distinct = (refl, (refl, tt));
}

reconcile_settles_example :
    ((k : Text) (r : Record)
      → Dict.get k (reconcile clock journal).0.records ≡ some r
      → needs_restart r ≡ false)
    × ((k : Text) (o : Provisional)
        → Dict.get k (reconcile clock journal).0.provisional ≡ some o
        → is_pending o.state ≡ false)
reconcile_settles_example = reconcile_settles clock journal journal-IsKeyed

settled_found : Dict.get (codes "d") journal.records ≡ some settled
unfolding Dict.get text_eq
settled_found = refl

settled_rests : needs_restart settled ≡ false
unfolding needs_restart any
settled_rests = refl

reconcile_keeps_example : Dict.get (codes "d") (reconcile clock journal).0.records ≡ some settled
reconcile_keeps_example =
    reconcile_keeps clock journal (codes "d") settled journal-IsKeyed settled_found settled_rests
