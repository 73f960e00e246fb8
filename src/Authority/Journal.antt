-- ===== src/Authority/Journal.antt =====
-- `SessionAuthorityJournal` (src/gjc/session-authority-journal.ts), and `reconcileSessionAuthority`
-- (src/gjc/session-authority-reconciliation.ts). A method that returns gives the journal beside its
-- result; one that throws has written nothing, but for `reserve`. Copies are the values themselves.
pub mod Lookup
pub mod Reconcile
pub mod Writes
pub mod Operations
pub mod Transitions
pub mod Reassign
pub mod Publish
pub mod Access
pub mod Dirty
pub mod Tests
use openwebui_gjc_adapter.Authority.{
  Input, Operation, Provisional, Reassignment, Record, Reservation, Retired, Source, Target, Error,
  Attachment, Successor, is_pending, is_awaiting, is_rolled_back, is_complete, is_uncertain,
  is_conflict, kind_eq, uncertain, rolled_back, another_project, ingress_conflict,
  unknown_authority,
}
use openwebui_gjc_adapter.Authority.Identity.{
  Named, name_of, names_of, ingress, provisional_key, operation_identifiers, shares,
  operation_identity,
}
use openwebui_gjc_adapter.Authority.Codec.{Clock, or_else, is_named}
use openwebui_gjc_adapter.Json.{stringify}
use openwebui_gjc_adapter.Prelude.{
  ℕ, suc, ◌+◌, Bool, true, false, not, ◌&&◌, ◌||◌, List, [], ◌∷◌, ◌++◌, Option, none, some, Text,
  codes, Result, ok, err, ◌>>=◌, ◌>>◌, throw_if, text_eq, option_eq, find, any, all, filter, get_or,
  is_some, contains, if◌then◌else◌, map,
}
use openwebui_gjc_adapter.Prelude.Dict
use openwebui_gjc_adapter.Prelude.Dict.{Dict}

-- `JSON.stringify` on the objects that are compared by their texts.
pub record Encoding : Type 0 where
  pub record_json : Record → Text
  pub provisional_json : Provisional → Text
  pub attachment_json : Attachment → Text
  pub successor_json : Successor → Text

-- A set of dirty keys is a list without repetition.
pub record Journal : Type 0 where
  pub records : Dict Record
  pub provisional : Dict Provisional
  pub dirty_records : List Text
  pub dirty_provisional : List Text
  pub force_compaction : Bool

unfoldable pub add_key : Text → List Text → List Text
add_key k ks = if contains k ks then ks else ks ++ (k ∷ [])

same_text : Option Text → Text → Bool
same_text none t = false
same_text (some s) t = text_eq s t

-- Each caller stores a new object, so only the texts can agree.
unfoldable pub set_record : Encoding → Text → Record → Journal → Journal
unfolding add_key same_text
set_record enc chat_id record_ j =
    let prior = Dict.get chat_id j.records in
    record j {
      records = Dict.set chat_id record_ j.records;
      dirty_records =
          if same_text (elim prior [ none ↦ none | some r ↦ some (enc.record_json r) ])
            (enc.record_json record_)
          then j.dirty_records
          else add_key chat_id j.dirty_records;
    }

unfoldable pub set_provisional : Encoding → Text → Provisional → Journal → Journal
unfolding add_key same_text
set_provisional enc key operation j =
    let prior = Dict.get key j.provisional in
    record j {
      provisional = Dict.set key operation j.provisional;
      dirty_provisional =
          if same_text (elim prior [ none ↦ none | some o ↦ some (enc.provisional_json o) ])
            (enc.provisional_json operation)
          then j.dirty_provisional
          else add_key key j.dirty_provisional;
    }

-- The chain of tombstones that a reassignment leads to.
unfoldable pub tombstone_roots : Option Reassignment → List Retired
tombstone_roots none = []
tombstone_roots (some r) = elim r.source_tombstone [ [] ↦ r.prior_tombstone | t ∷ ts ↦ t ∷ ts ]

chain_contains_project : List Retired → Text → Bool
chain_contains_project chain project_id =
    any (λ (t : Retired). text_eq t.project_id project_id) chain

unfoldable pub chain_journal : List Retired → List Operation
chain_journal [] = []
chain_journal (t ∷ ts) = t.journal ++ chain_journal ts

unfoldable pub journal_for : Option Record → List Operation
unfolding tombstone_roots chain_journal
journal_for none = []
journal_for (some r) = r.journal ++ chain_journal (tombstone_roots r.reassignment)

unfoldable pub require : Text → Journal → Result Error Record
require chat_id j = elim (Dict.get chat_id j.records) [
  | none ↦ err (unknown_authority chat_id)
  | some r ↦ ok r
]

lookup_retired : Text → List Retired → Option Operation
unfolding is_named
lookup_retired id [] = none
lookup_retired id (t ∷ ts) = or_else (find (λ o. is_named id o) t.journal) (lookup_retired id ts)

lookup_in : Text → Option Record → Option Operation
unfolding is_named lookup_retired tombstone_roots
lookup_in id none = none
lookup_in id (some r) =
    or_else (find (λ o. is_named id o) r.journal)
      (lookup_retired id (tombstone_roots r.reassignment))

pub lookup_operation : Text → Text → Journal → Option Operation
unfolding lookup_in
lookup_operation chat_id operation_id j = lookup_in operation_id (Dict.get chat_id j.records)

-- `lookupOperationAuthority`: the record, or the tombstone of the chain, that has the operation.
pub data Holder : Type 0 where
  held_by_record : Record → Holder
  held_by_tombstone : Retired → Holder

retired_holder : Text → List Retired → Option Holder
unfolding is_named
retired_holder id [] = none
retired_holder id (t ∷ ts) =
    let rest = retired_holder id ts in
    if any (λ o. is_named id o) t.journal then some (held_by_tombstone t) else rest

holder_in : Text → Option Record → Option Holder
unfolding is_named retired_holder tombstone_roots
holder_in id none = none
holder_in id (some r) =
    if any (λ o. is_named id o) r.journal
    then some (held_by_record r)
    else retired_holder id (tombstone_roots r.reassignment)

pub lookup_operation_authority : Text → Text → Journal → Option Holder
unfolding holder_in
lookup_operation_authority chat_id operation_id j =
    holder_in operation_id (Dict.get chat_id j.records)

-- The restart: what was pending is uncertain, and a reassignment that was awaited is rolled back.
pub restarted : Operation → Operation
restarted o =
    if is_pending o.state
    then record o {
      state = uncertain;
      intent = record o.intent {
        detail = some (get_or o.detail (codes "restart before completion"));
      };
    }
    else o

restarted_reassignment : Text → Option Reassignment → Option Reassignment
restarted_reassignment now none = none
restarted_reassignment now (some r) =
    if is_awaiting r.state
    then some (record r { state = rolled_back; completed_at = some now })
    else some r

is_awaited : Option Reassignment → Bool
is_awaited none = false
is_awaited (some r) = is_awaiting r.state

pub needs_restart : Record → Bool
unfolding is_awaited
needs_restart r = any (λ (o : Operation). is_pending o.state) r.journal || is_awaited r.reassignment

pub restarted_record : Text → Record → Record
unfolding restarted restarted_reassignment
restarted_record now r = record r {
  source = record r.source { journal = map restarted r.journal };
  reassignment = restarted_reassignment now r.reassignment;
}

pub reconcile_records : Clock → ℕ → List Record → Journal → Journal × List Record
unfolding needs_restart restarted_record add_key
reconcile_records clock n [] j = (j, [])
reconcile_records clock n (r ∷ rs) j =
    let next = restarted_record (clock n) r in
    let changed = reconcile_records clock (suc n) rs (record j {
      records = Dict.set r.chat_id next j.records;
      dirty_records = add_key r.chat_id j.dirty_records;
    }) in
    let kept = reconcile_records clock (suc n) rs j in
    if needs_restart r then (changed.0, next ∷ changed.1) else kept

pub restarted_provisional : Provisional → Provisional
restarted_provisional o = record o {
  state = uncertain;
  reservation = record o.reservation {
    intent = record o.reservation.intent {
      detail = some (get_or o.detail (codes "restart before completion"));
    };
  };
}

pub key_of : Provisional → Text
unfolding provisional_key
key_of o = provisional_key o.chat_id (ingress (name_of o.reservation.intent))

pub reconcile_provisional : List Provisional → Journal → Journal
unfolding restarted_provisional key_of add_key
reconcile_provisional [] j = j
reconcile_provisional (o ∷ os) j =
    let changed = reconcile_provisional os (record j {
      provisional = Dict.set (key_of o) (restarted_provisional o) j.provisional;
      dirty_provisional = add_key (key_of o) j.dirty_provisional;
    }) in
    let kept = reconcile_provisional os j in if is_pending o.state then changed else kept

-- The records that were changed are returned.
pub reconcile : Clock → Journal → Journal × List Record
unfolding reconcile_records reconcile_provisional
reconcile clock j =
    let (j', reconciled) = reconcile_records clock 0 (Dict.values j.records) j in
    (reconcile_provisional (Dict.values j.provisional) j', reconciled)
