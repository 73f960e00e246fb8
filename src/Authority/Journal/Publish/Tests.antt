-- ===== src/Authority/Journal/Publish/Tests.antt =====
-- A publication that commits a reassignment (src/gjc/session-authority-journal.ts).
use openwebui_gjc_adapter.Authority.{
  Input, Provisional, Reassignment, Record, complete, prompt, awaiting, committed,
}
use openwebui_gjc_adapter.Authority.Identity.{provisional_key, assert_publishable_identity}
use openwebui_gjc_adapter.Authority.Codec.{create_authority_identity}
use openwebui_gjc_adapter.Authority.Journal.{Journal, journal_for, set_record, set_provisional}
use openwebui_gjc_adapter.Authority.Journal.Operations.{assert_input_identity_fence}
use openwebui_gjc_adapter.Authority.Journal.Publish.{publish, published, to_tombstone, completed}
use openwebui_gjc_adapter.Authority.Journal.Publish.Commit.{publish-commit}
use openwebui_gjc_adapter.Authority.Journal.Tests.{
  encoding, clock, operation, chat_record, reservation, provisional,
}
use openwebui_gjc_adapter.Json.{stringify}
use openwebui_gjc_adapter.Prelude.{
  ◌≡◌, refl, false, [], ◌∷◌, ◌++◌, none, some, codes, ok, find, text_eq, contains, any, filter,
  option_eq,
}
use openwebui_gjc_adapter.Prelude.Dict

abbrev reassignment : Reassignment
reassignment = record {
  state = awaiting;
  source_project_id = codes "p";
  target_project_id = codes "q";
  started_at = codes "t";
  completed_at = none;
  target = some (record { id = codes "r"; ingress_id = none; kind = prompt; detail = none });
  source_tombstone = [];
  prior_tombstone = [];
}

abbrev moving : Record
moving = record (chat_record (codes "c") (operation (codes "a") complete ∷ [])) {
  reassignment = some reassignment;
}

abbrev reserved : Provisional
reserved = record provisional { reservation = reservation (codes "q") }

abbrev before : Journal
before = record {
  records = (codes "c", moving) ∷ [];
  provisional = (provisional_key (codes "c") (codes "r"), reserved) ∷ [];
  dirty_records = [];
  dirty_provisional = [];
  force_compaction = false;
}

abbrev mapping : Input
mapping = record {
  chat_id = codes "c";
  project_id = codes "q";
  session_id = codes "s";
  session_file = none;
  active_leaf = none;
  raw_frame_cursor = 0;
  event_cursor = 0;
  operation_id = codes "r";
  assistant_text = none;
  events = none;
  model_selection = none;
  observations = none;
  attachment = none;
  reassignment = none;
  created_at = some (codes "t");
  header = none;
  journal = none;
}

abbrev moved : Record
moved = record {
  source = record {
    chat_id = codes "c";
    project_id = codes "q";
    session_id = codes "s";
    created_at = codes "t";
    header = record { chat_id = codes "c"; project_id = codes "q"; session_id = codes "s" };
    session_file = none;
    active_leaf = none;
    raw_frame_cursor = 0;
    event_cursor = 0;
    operation_id = codes "r";
    assistant_text = none;
    model_selection = none;
    observations = none;
    attachment = none;
    journal = published clock (reservation (codes "q")) mapping reserved ∷ [];
  };
  events = none;
  reassignment = some (record reassignment {
    state = committed;
    completed_at = some (clock 0);
    source_tombstone = to_tombstone moving (clock 0);
  });
}

abbrev after : Journal
after = record before {
  records = (codes "c", moved) ∷ [];
  provisional = (provisional_key (codes "c") (codes "r"), completed clock reserved) ∷ [];
}

publishes : publish encoding clock (reservation (codes "q")) mapping before ≡ ok (after, moved)
unfolding publish Dict.get text_eq option_eq assert_publishable_identity provisional_key stringify
    any journal_for contains filter create_authority_identity find assert_input_identity_fence
    set_provisional set_record Dict.set
publishes = refl

moving_found : Dict.get (codes "c") before.records ≡ some moving
unfolding Dict.get text_eq
moving_found = refl

publish-commit_example :
    (Dict.get (codes "c") after.records ≡ some moved)
    × (moved.project_id ≡ codes "q")
    × (journal_for (Dict.get (codes "c") after.records)
        ≡ moved.journal ++ journal_for (Dict.get (codes "c") before.records))
publish-commit_example =
    publish-commit encoding clock (reservation (codes "q")) mapping before after moved moving
      reassignment publishes moving_found refl refl refl refl
