-- ===== src/Authority/Journal/Publish/Commit.antt =====
-- What the commit of a reassignment keeps (`publish`, src/gjc/session-authority-journal.ts).
use openwebui_gjc_adapter.Authority.{
  Error, Input, Provisional, Reassignment, Record, Reservation, is_awaiting,
}
use openwebui_gjc_adapter.Authority.Identity.{
  name_of, names_of, ingress, provisional_key, assert_publishable_identity,
}
use openwebui_gjc_adapter.Authority.Codec.{Clock, create_authority_identity, append_journal}
use openwebui_gjc_adapter.Authority.Journal.{
  Encoding, Journal, journal_for, tombstone_roots, chain_journal, set_provisional,
}
use openwebui_gjc_adapter.Authority.Journal.Operations.{
  provisional_names, assert_input_identity_fence,
}
use openwebui_gjc_adapter.Authority.Journal.Writes.{set_record-get_self}
use openwebui_gjc_adapter.Authority.Journal.Publish.{
  publish, check_project, awaited, awaited_of, commits, commit, published, others, to_tombstone,
  prior_of,
}
use openwebui_gjc_adapter.Prelude.{
  suc, ◌≡◌, refl, sym, ap, ◌∙◌, subst, true, [], ◌∷◌, ◌++◌, Option, none, some, Text, Result, ok,
  >>=-eq-ok, text_eq_refl, get_or,
}
use openwebui_gjc_adapter.Prelude.Dict

pair_of :
    {j k : Journal} {r s : Record}
    → ◌≡◌ {A = Result Error (Journal × Record)} (ok (j, r)) (ok (k, s))
    → (j ≡ k) × (r ≡ s)
pair_of h = (cc h, cc h)

record_ok : {a b : Record} → ◌≡◌ {A = Result Error Record} (ok a) (ok b) → a ≡ b
record_ok h = cc h

created-project :
    (clock : Clock) (input : Input) {r : Record}
    → create_authority_identity clock input ≡ ok r
    → r.project_id ≡ input.project_id
unfolding create_authority_identity
created-project clock input h =
    let (_, _, made) = >>=-eq-ok (append_journal [] (get_or input.journal [])) _ h in
    ap (λ (r : Record). r.project_id) (sym (record_ok made))

set_provisional-records :
    (enc : Encoding) (k : Text) (o : Provisional) (j : Journal)
    → (set_provisional enc k o j).records ≡ j.records
unfolding set_provisional
set_provisional-records enc k o j = refl

-- The chain of a commit: the record that was, and the chain that it kept.
committed_chain :
    (r : Record) (q : Reassignment) (now : Text)
    → r.reassignment ≡ some q
    → q.source_tombstone ≡ []
    → chain_journal (to_tombstone r now) ≡ journal_for (some r)
unfolding to_tombstone prior_of chain_journal journal_for tombstone_roots
committed_chain r q now a s = rw a (rw s refl)

-- What holds of a commit.
record Kept (chat_id project_id : Text) (j' : Journal) (next : Record) (r : Record) : Type 0 where
  stored : Dict.get chat_id j'.records ≡ some next
  project : next.project_id ≡ project_id
  history : journal_for (some next) ≡ next.journal ++ journal_for (some r)

commit-Kept :
    (enc : Encoding) (clock : Clock) (operation : Reservation) (mapping : Input) (key : Text)
    (reserved : Provisional) (r : Record) (q : Reassignment) (j j' : Journal) (next : Record)
    → r.reassignment ≡ some q
    → q.source_tombstone ≡ []
    → commit enc clock operation mapping key reserved (some (r, q)) j ≡ ok (j', next)
    → Kept operation.chat_id mapping.project_id j' next r
unfolding commit
commit-Kept enc clock operation mapping key reserved r q j j' next a s h =
    let input : Input = record mapping {
      journal = some (published clock operation mapping reserved ∷ []);
    } in
    let (target, made, h1) = >>=-eq-ok (create_authority_identity (λ n. clock (suc n)) input) _ h in
    let (_, _, h2) =
      >>=-eq-ok (assert_input_identity_fence target.journal (journal_for none)) _ h1 in
    let (same_journal, same_record) = pair_of h2 in
    record {
      stored =
          ap (λ (j : Journal). Dict.get operation.chat_id j.records) (sym same_journal)
          ∙ ap (Dict.get operation.chat_id) (set_provisional-records enc key _ _)
          ∙ set_record-get_self enc operation.chat_id _ j
          ∙ ap some same_record;
      project =
          ap (λ (r : Record). r.project_id) (sym same_record)
          ∙ created-project (λ n. clock (suc n)) input made;
      history =
          unfold journal_for tombstone_roots to_tombstone in
          ap (λ (n : Record). journal_for (some n)) (sym same_record)
          ∙ ap (λ c. target.journal ++ c) (committed_chain r q (clock 0) a s)
          ∙ ap (λ (n : Record). n.journal ++ journal_for (some r)) same_record;
    }

commits-awaited :
    (mapping : Input) (found : Option Record) (r : Record) (q : Reassignment)
    → found ≡ some r
    → r.reassignment ≡ some q
    → is_awaiting q.state ≡ true
    → mapping.project_id ≡ q.target_project_id
    → commits mapping found (awaited_of found) ≡ some (r, q)
unfolding commits awaited_of awaited
commits-awaited mapping found r q g a w p = rw g (rw a (rw w (rw p (rw text_eq_refl refl))))

-- On a journal whose chat's reassignment is awaited and has no tombstone of its source, a
-- publication for the target's project, when it returns, makes the chat's record one of that
-- project, and the journal that identity checks read is the new record's and after it all that
-- they read before.
pub publish-commit :
    (enc : Encoding) (clock : Clock) (operation : Reservation) (mapping : Input) (j j' : Journal)
    (next r : Record) (q : Reassignment)
    → publish enc clock operation mapping j ≡ ok (j', next)
    → Dict.get operation.chat_id j.records ≡ some r
    → r.reassignment ≡ some q
    → is_awaiting q.state ≡ true
    → q.source_tombstone ≡ []
    → mapping.project_id ≡ q.target_project_id
    → (Dict.get operation.chat_id j'.records ≡ some next)
      × (next.project_id ≡ q.target_project_id)
      × (journal_for (Dict.get operation.chat_id j'.records)
          ≡ next.journal ++ journal_for (Dict.get operation.chat_id j.records))
unfolding publish
publish-commit enc clock operation mapping j j' next r q h g a w s p =
    let found = Dict.get operation.chat_id j.records in
    let key = provisional_key operation.chat_id (ingress (name_of operation.intent)) in
    let (_, _, h1) = >>=-eq-ok (check_project operation mapping found (awaited_of found)) _ h in
    let (reserved, _, h2) =
      >>=-eq-ok
        (assert_publishable_identity operation (Dict.get key j.provisional)
          (names_of (journal_for found)) (provisional_names (others key j.provisional)))
        _ h1 in
    let kept = commit-Kept enc clock operation mapping key reserved r q j j' next a s (
      subst (λ c. commit enc clock operation mapping key reserved c j ≡ ok (j', next))
        (commits-awaited mapping found r q g a w p) h2) in
    (
      kept.stored,
      kept.project ∙ p,
      ap journal_for kept.stored ∙ kept.history ∙ ap (λ x. next.journal ++ journal_for x) (sym g),
    )
