-- ===== src/Authority/Journal/Reassign/Tests.antt =====
-- A reassignment that begins (src/gjc/session-authority-journal.ts).
use openwebui_gjc_adapter.Authority.{Record, complete, awaiting}
use openwebui_gjc_adapter.Authority.Journal.{Journal, lookup_operation, set_record}
use openwebui_gjc_adapter.Authority.Journal.Reassign.{begin_project_reassignment}
use openwebui_gjc_adapter.Authority.Journal.Reassign.History.{never, begin_project-lookup}
use openwebui_gjc_adapter.Authority.Journal.Tests.{encoding, clock, operation, chat_record}
use openwebui_gjc_adapter.Prelude.{◌≡◌, refl, false, [], ◌∷◌, none, some, codes, ok, find, text_eq}
use openwebui_gjc_adapter.Prelude.Dict

abbrev idle : Record
idle = chat_record (codes "c") (operation (codes "a") complete ∷ [])

abbrev before : Journal
before = record {
  records = (codes "c", idle) ∷ [];
  provisional = [];
  dirty_records = [];
  dirty_provisional = [];
  force_compaction = false;
}

abbrev moving : Record
moving = record idle {
  reassignment = some (record {
    state = awaiting;
    source_project_id = codes "p";
    target_project_id = codes "q";
    started_at = clock 0;
    completed_at = none;
    target = none;
    source_tombstone = [];
    prior_tombstone = [];
  });
}

abbrev after : Journal
after = record before { records = (codes "c", moving) ∷ [] }

begins :
    begin_project_reassignment encoding clock (codes "c") (codes "p") (codes "q") none before
    ≡ ok (after, moving)
unfolding begin_project_reassignment set_record Dict.get Dict.set text_eq find
begins = refl

idle_found : Dict.get (codes "c") before.records ≡ some idle
unfolding Dict.get text_eq
idle_found = refl

begin_project-lookup_example :
    lookup_operation (codes "c") (codes "a") after ≡ lookup_operation (codes "c") (codes "a") before
begin_project-lookup_example =
    begin_project-lookup encoding clock (codes "c") (codes "p") (codes "q") (codes "a") none before
      after idle moving begins idle_found never
