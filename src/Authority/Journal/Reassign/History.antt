-- ===== src/Authority/Journal/Reassign/History.antt =====
-- What a reassignment keeps of a chat's operations while it is awaited
-- (src/gjc/session-authority-journal.ts).
use openwebui_gjc_adapter.Authority.{
  Error, Operation, Reassignment, Record, Retired, Target, rolled_back, committed, is_complete,
}
use openwebui_gjc_adapter.Authority.Codec.{Clock, is_named}
use openwebui_gjc_adapter.Authority.Journal.{
  Encoding, Journal, journal_for, tombstone_roots, chain_journal, lookup_operation,
}
use openwebui_gjc_adapter.Authority.Journal.Lookup.{lookup_operation_flat}
use openwebui_gjc_adapter.Authority.Journal.Writes.{set_record-get_self}
use openwebui_gjc_adapter.Authority.Journal.Reassign.{
  begin_project_reassignment, require_project, refuse_open, open_name, is_open_in, is_unrelated,
  is_invalid_target, retained_tombstone,
}
use openwebui_gjc_adapter.Prelude.{
  ◌≡◌, refl, sym, ap, ◌∙◌, inl, inr, not, List, [], ◌∷◌, ◌++◌, Option, none, some, Text, Result, ok,
  >>=-eq-ok, throw_if, find, Bool-cases, text_eq, text_eq_iff,
}
use openwebui_gjc_adapter.Prelude.Dict

-- A reassignment that has ended: a committed one has the tombstone of its source, and one that was
-- rolled back has none.
pub data HasEnded : Option Reassignment → Type 0 where
  never : HasEnded none
  rolled : (r : Reassignment) → r.state ≡ rolled_back → r.source_tombstone ≡ [] → HasEnded (some r)
  commits :
      (r : Reassignment) (t : Retired) (ts : List Retired)
      → r.state ≡ committed
      → r.source_tombstone ≡ t ∷ ts
      → HasEnded (some r)

retained-roots : {q : Option Reassignment} → HasEnded q → retained_tombstone q ≡ tombstone_roots q
unfolding retained_tombstone tombstone_roots
retained-roots never = refl
retained-roots (rolled r s t) = rw s (rw t refl)
retained-roots (commits r t ts s u) = rw s (rw u refl)

pair_of :
    {j k : Journal} {r s : Record}
    → ◌≡◌ {A = Result Error (Journal × Record)} (ok (j, r)) (ok (k, s))
    → (j ≡ k) × (r ≡ s)
pair_of h = (cc h, cc h)

record_ok : {a b : Record} → ◌≡◌ {A = Result Error Record} (ok a) (ok b) → a ≡ b
record_ok h = cc h

record_some : {a b : Record} → ◌≡◌ {A = Option Record} (some a) (some b) → a ≡ b
record_some h = cc h

require_project-ok :
    (chat_id project_id : Text) (found : Option Record) {r : Record}
    → require_project chat_id project_id found ≡ ok r
    → (found ≡ some r) × (r.project_id ≡ project_id)
unfolding require_project
require_project-ok chat_id project_id none h = cc h
require_project-ok chat_id project_id (some q) h =
    elim (Bool-cases (text_eq q.project_id project_id)) [
      | inl e ↦
          let same = record_ok (rw e at h) in
          (
            ap some same,
            ap (λ (r : Record). r.project_id) (sym same)
                ∙ (text_eq_iff q.project_id project_id).0 e,
          )
      | inr e ↦ cc (rw e at h)
    ]

-- Where the reassignment before has ended (there is none, or it was rolled back and has no
-- tombstone of its source, or it was committed and has one), a reassignment that begins keeps the
-- lookup of every operation ID of the chat.
pub begin_project-lookup :
    (enc : Encoding) (clock : Clock) (chat_id current next_ id : Text) (target : Option Target)
    (j j' : Journal) (r r' : Record)
    → begin_project_reassignment enc clock chat_id current next_ target j ≡ ok (j', r')
    → Dict.get chat_id j.records ≡ some r
    → HasEnded r.reassignment
    → lookup_operation chat_id id j' ≡ lookup_operation chat_id id j
unfolding begin_project_reassignment journal_for tombstone_roots
begin_project-lookup enc clock chat_id current next_ id target j j' r r' h g ended =
    let (q, required, h1) =
      >>=-eq-ok (require_project chat_id current (Dict.get chat_id j.records)) _ h in
    let (_, _, h2) = >>=-eq-ok (throw_if (text_eq current next_) _) _ h1 in
    let (_, _, h3) =
      >>=-eq-ok
        (refuse_open (
          open_name (find (λ o. is_open_in chat_id o) (Dict.values j.provisional))
            (find (λ (o : Operation). not (is_complete o.state)) q.journal)))
        _ h2 in
    let (_, _, h4) = >>=-eq-ok (throw_if (is_unrelated current next_ q.reassignment) _) _ h3 in
    let (_, _, h5) = >>=-eq-ok (throw_if (is_invalid_target target) _) _ h4 in
    let (same_journal, same_record) = pair_of h5 in
    let is_r : q ≡ r = record_some (sym (require_project-ok chat_id current _ required).0 ∙ g) in
    let stored =
      ap (λ (j : Journal). Dict.get chat_id j.records) (sym same_journal)
      ∙ set_record-get_self enc chat_id _ j in
    let flat : journal_for (Dict.get chat_id j'.records)
        ≡ journal_for (Dict.get chat_id j.records) =
      ap journal_for stored
      ∙ (ap (λ (q : Record). q.journal ++ chain_journal (retained_tombstone q.reassignment)) is_r
          ∙ ap (λ chain. r.journal ++ chain_journal chain) (retained-roots ended))
      ∙ sym (ap journal_for g) in
    lookup_operation_flat chat_id id j'
    ∙ ap (find (λ o. is_named id o)) flat
    ∙ sym (lookup_operation_flat chat_id id j)
