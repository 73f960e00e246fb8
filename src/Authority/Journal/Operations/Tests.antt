-- ===== src/Authority/Journal/Operations/Tests.antt =====
-- Runs of the methods that write operations (src/gjc/session-authority-journal.ts).
use openwebui_gjc_adapter.Authority.{Input, Record, pending, prompt}
use openwebui_gjc_adapter.Authority.Identity.{assert_beginable_identity}
use openwebui_gjc_adapter.Authority.Codec.{create_authority_identity}
use openwebui_gjc_adapter.Authority.Journal.{Journal, journal_for, require, set_record}
use openwebui_gjc_adapter.Authority.Journal.Operations.{begin, store}
use openwebui_gjc_adapter.Authority.Journal.Operations.Identities.{
  AreUnique, store-AreUnique, begin-AreUnique,
}
use openwebui_gjc_adapter.Authority.Journal.Operations.Project.{store-project}
use openwebui_gjc_adapter.Authority.Journal.Tests.{encoding, clock, intent, operation, chat_record}
use openwebui_gjc_adapter.Prelude.{
  ◌≡◌, ◌≢◌, refl, false, [], ◌∷◌, none, some, Text, codes, ok, find, any, contains, text_eq,
  option_eq,
}
use openwebui_gjc_adapter.Prelude.Dict
use openwebui_gjc_adapter.Prelude.Dict.{Dict}

abbrev pub empty : Journal
empty = record {
  records = [];
  provisional = [];
  dirty_records = [];
  dirty_provisional = [];
  force_compaction = false;
}

abbrev pub input : Input
input = record {
  chat_id = codes "c";
  project_id = codes "p";
  session_id = codes "s";
  session_file = none;
  active_leaf = none;
  raw_frame_cursor = 0;
  event_cursor = 0;
  operation_id = codes "a";
  assistant_text = none;
  events = none;
  model_selection = none;
  observations = none;
  attachment = none;
  reassignment = none;
  created_at = some (codes "t");
  header = none;
  journal = some (operation (codes "a") pending ∷ []);
}

abbrev pub stored : Record
stored = chat_record (codes "c") (operation (codes "a") pending ∷ [])

abbrev pub holding : Record → Journal
holding r = record empty { records = (codes "c", r) ∷ []; dirty_records = codes "c" ∷ [] }

pub store_returns : store encoding clock input empty ≡ ok (holding stored, stored)
unfolding store Dict.get any find journal_for create_authority_identity set_record text_eq Dict.set
    contains
store_returns = refl

empty-AreUnique : AreUnique empty
unfolding Dict.get
empty-AreUnique k r h = cc h

store-AreUnique_example : AreUnique (holding stored)
store-AreUnique_example =
    store-AreUnique encoding clock input empty (holding stored) stored empty-AreUnique store_returns

store-project_example :
    (Dict.get (codes "c") (holding stored).records ≡ some stored)
    × (codes "p" ≡ codes "p")
    × ((q : Record) → Dict.get (codes "c") empty.records ≡ some q → q.project_id ≡ codes "p")
    × ((k : Text) → k ≢ codes "c" → Dict.get k (holding stored).records ≡ Dict.get k empty.records)
store-project_example =
    store-project encoding clock input empty (holding stored) stored store_returns

abbrev begun : Record
begun = chat_record (codes "c") (
    operation (codes "a") pending
    ∷ record {
      intent = intent (codes "b") prompt;
      state = pending;
      started_at = clock 0;
      completed_at = none;
    }
    ∷ [])

abbrev begun_journal : Journal
begun_journal = holding begun

begin_returns :
    begin encoding clock (codes "c") (intent (codes "b") prompt) (holding stored)
    ≡ ok (record (holding stored) { records = (codes "c", begun) ∷ [] }, begun)
unfolding begin require Dict.get text_eq find any option_eq contains assert_beginable_identity
    set_record Dict.set
begin_returns = refl

begin-AreUnique_example : AreUnique (record (holding stored) { records = (codes "c", begun) ∷ [] })
begin-AreUnique_example =
    begin-AreUnique encoding clock (codes "c") (intent (codes "b") prompt) (holding stored)
      (record (holding stored) { records = (codes "c", begun) ∷ [] }) begun
      (store-AreUnique encoding clock input empty (holding stored) stored empty-AreUnique
        store_returns)
      begin_returns
