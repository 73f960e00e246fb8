-- ===== src/Branch/Checks.antt =====
-- The checks of a regeneration: what each throws, and what it says where it passes.
use openwebui_gjc_adapter.Branch.{
  Decision, Input, Mapping, Metadata, Reason, branch, uncertain, missing_session_mapping,
  missing_lineage_metadata, project_mismatch, missing_owner, owner_mismatch, session_mismatch,
  missing_message_entry, message_entry_mismatch, refuse, agrees, checked, needed, needed_owner,
  needed_entry,
}
use openwebui_gjc_adapter.Prelude.{
  ◌≡◌, sym, ap, ◌∙◌, inl, inr, Bool-cases, Bool, true, false, not, Option, none, some, Text,
  text_eq, text_eq_iff, Result, ok, err, ◌>>=◌, >>=-eq-ok, length, trim, get_or, ◌==◌, throw_if,
}

-- What a check throws is `uncertain`.
abbrev pub Refuses {ℓ} : {A : Type ℓ} → Result Decision A → Type ℓ
Refuses {A} m = (d : Decision) → m ≡ err d → (r : Reason) × (o : Option Text) × (d ≡ uncertain r o)

err_same {ℓ} : {A : Type ℓ} {d e : Decision} → ◌≡◌ {A = Result Decision A} (err d) (err e) → d ≡ e
err_same h = cc h

>>=-Refuses :
    {A B : Type 0} (m : Result Decision A) (f : A → Result Decision B)
    → Refuses m
    → ((a : A) → Refuses (f a))
    → Refuses (m >>= f)
>>=-Refuses (ok a) f h k d x = k a d x
>>=-Refuses (err e) f h k d x = h d (cc x)

pub ok-Refuses : {A : Type 0} (a : A) → Refuses (ok a)
ok-Refuses a d h = cc h

pub needed-Refuses :
    {A : Type 0} (r : Reason) (o : Option Text) (a : Option A) → Refuses (needed (uncertain r o) a)
unfolding needed
needed-Refuses r o none d h = (r, o, err_same (sym h))
needed-Refuses r o (some a) d h = cc h

pub throw_if-Refuses :
    (r : Reason) (o : Option Text) (b : Bool) → Refuses (throw_if b (uncertain r o))
throw_if-Refuses r o true d h = (r, o, err_same (sym h))
throw_if-Refuses r o false d h = cc h

pub needed_owner-Refuses :
    (r : Reason) (o : Option Text) (a : Option Text) → Refuses (needed_owner (uncertain r o) a)
unfolding needed_owner
needed_owner-Refuses r o none d h = (r, o, err_same (sym h))
needed_owner-Refuses r o (some a) d h = elim (Bool-cases (length (trim a) == 0)) [
  | inl e ↦ (r, o, err_same (sym (rw e at h)))
  | inr e ↦ cc (rw e at h)
]

pub needed_entry-Refuses :
    (r : Reason) (o : Option Text) (a : Option Text) → Refuses (needed_entry (uncertain r o) a)
unfolding needed_entry
needed_entry-Refuses r o none d h = (r, o, err_same (sym h))
needed_entry-Refuses r o (some a) d h = elim (Bool-cases (length a == 0)) [
  | inl e ↦ (r, o, err_same (sym (rw e at h)))
  | inr e ↦ cc (rw e at h)
]

pub agrees-Refuses :
    (mapping : Mapping) (r : Reason) (o : Option Text) (t : Text) → Refuses (agrees mapping r o t)
unfolding agrees refuse
agrees-Refuses mapping r o t =
    >>=-Refuses (needed (refuse mapping missing_lineage_metadata) o) _ (needed-Refuses _ _ o)
      λ found. throw_if-Refuses r _ _

pub checked-Refuses : (input : Input) (m : Metadata) → Refuses (checked input m)
unfolding checked refuse
checked-Refuses input m =
    >>=-Refuses (needed (uncertain missing_session_mapping none) (input.mappings input.chat_id)) _
      (needed-Refuses missing_session_mapping none (input.mappings input.chat_id))
      λ mapping.
        let id = some mapping.session_id in
        >>=-Refuses
          (throw_if (not (text_eq mapping.project_id input.project_id))
            (refuse mapping project_mismatch))
          _
          (throw_if-Refuses project_mismatch id (not (text_eq mapping.project_id input.project_id)))
          λ _.
            >>=-Refuses (needed_owner (refuse mapping missing_owner) input.owner_user_id) _
              (needed_owner-Refuses missing_owner id input.owner_user_id)
              λ owner.
                >>=-Refuses (agrees mapping owner_mismatch m.owner owner) _
                  (agrees-Refuses mapping owner_mismatch m.owner owner)
                  λ _.
                    >>=-Refuses (agrees mapping project_mismatch m.project input.project_id) _
                      (agrees-Refuses mapping project_mismatch m.project input.project_id)
                      λ _.
                        >>=-Refuses (agrees mapping session_mismatch m.session mapping.session_id) _
                          (agrees-Refuses mapping session_mismatch m.session mapping.session_id)
                          λ _.
                            >>=-Refuses
                              (needed_entry (refuse mapping missing_message_entry) m.entry) _
                              (needed_entry-Refuses missing_message_entry id m.entry)
                              λ entry.
                                let wrong =
                                  not (text_eq (get_or m.message entry) input.message_id) in
                                >>=-Refuses (throw_if wrong (refuse mapping message_entry_mismatch))
                                  _ (throw_if-Refuses message_entry_mismatch id wrong)
                                  λ _. ok-Refuses (branch entry mapping.session_id)

-- What a check that passes says.
pub throw_if-not :
    (s t : Text) (d : Decision) {u : Unit {0}} → throw_if (not (text_eq s t)) d ≡ ok u → s ≡ t
throw_if-not s t d h = elim (Bool-cases (text_eq s t)) [
  | inl e ↦ (text_eq_iff s t).0 e
  | inr e ↦ cc (rw e at h)
]

pub ok_same : {A : Type 0} {a b : A} → ◌≡◌ {A = Result Decision A} (ok a) (ok b) → a ≡ b
ok_same h = cc h

pub needed-ok : {A : Type 0} (d : Decision) (o : Option A) {a : A} → needed d o ≡ ok a → o ≡ some a
unfolding needed
needed-ok d none h = cc h
needed-ok d (some a) h = ap some (ok_same h)

pub needed_owner-ok :
    (d : Decision) (o : Option Text) {a : Text}
    → needed_owner d o ≡ ok a
    → (o ≡ some a) × ((length (trim a) == 0) ≡ false)
unfolding needed_owner
needed_owner-ok d none h = cc h
needed_owner-ok d (some b) {a} h = elim (Bool-cases (length (trim b) == 0)) [
  | inl e ↦ cc (rw e at h)
  | inr e ↦ let same = ok_same (rw e at h) in (ap some same, rw (← same) e)
]

pub needed_entry-ok :
    (d : Decision) (o : Option Text) {a : Text}
    → needed_entry d o ≡ ok a
    → (o ≡ some a) × ((length a == 0) ≡ false)
unfolding needed_entry
needed_entry-ok d none h = cc h
needed_entry-ok d (some b) {a} h = elim (Bool-cases (length b == 0)) [
  | inl e ↦ cc (rw e at h)
  | inr e ↦ let same = ok_same (rw e at h) in (ap some same, rw (← same) e)
]

pub agrees-ok :
    (mapping : Mapping) (r : Reason) (o : Option Text) (t : Text) {u : Unit {0}}
    → agrees mapping r o t ≡ ok u
    → o ≡ some t
unfolding agrees
agrees-ok mapping r o t h =
    let (found, there, same) = >>=-eq-ok (needed (refuse mapping missing_lineage_metadata) o) _ h in
    needed-ok _ o there ∙ ap some (throw_if-not found t _ same)
