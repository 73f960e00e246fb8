-- ===== src/Branch/Resolve.antt =====
-- When a regeneration is resolved to a branch (`resolveBranchRegenerateAction`).
use openwebui_gjc_adapter.Branch.{
  Decision, Input, Mapping, Reason, branch, uncertain, missing_session_mapping, metadata_of, agrees,
  checked, returned, needed, needed_owner, needed_entry, resolve_branch_regenerate_action,
}
use openwebui_gjc_adapter.Prelude.{
  ◌≡◌, ◌↔◌, refl, ap, ◌∙◌, false, not, Option, none, some, Text, text_eq, text_eq_refl, Result, ok,
  err, >>=-eq-ok, length, trim, get_or, ◌==◌, throw_if,
}
use openwebui_gjc_adapter.Branch.Checks.{
  Refuses, checked-Refuses, throw_if-not, ok_same, needed-ok, needed_owner-ok, needed_entry-ok,
  agrees-ok,
}

-- The lineage of a message: its chat's mapping and its metadata name the owner, the project and the
-- session of the request, and the metadata names the entry behind the message.
pub record HasLineage (input : Input) (entry session : Text) : Type 0 where
  pub mapping : Mapping
  pub owner : Text
  pub mapped : input.mappings input.chat_id ≡ some mapping
  pub session_is : mapping.session_id ≡ session
  pub project_is : mapping.project_id ≡ input.project_id
  pub owned : input.owner_user_id ≡ some owner
  pub owner_present : (length (trim owner) == 0) ≡ false
  pub same_owner : (metadata_of input.message_metadata).owner ≡ some owner
  pub same_project : (metadata_of input.message_metadata).project ≡ some input.project_id
  pub same_session : (metadata_of input.message_metadata).session ≡ some mapping.session_id
  pub entry_is : (metadata_of input.message_metadata).entry ≡ some entry
  pub entry_present : (length entry == 0) ≡ false
  pub message_is : get_or (metadata_of input.message_metadata).message entry ≡ input.message_id

branch_entry : {e f s t : Text} → branch e s ≡ branch f t → e ≡ f
branch_entry h = cc h

branch_session : {e f s t : Text} → branch e s ≡ branch f t → s ≡ t
branch_session h = cc h

checked-HasLineage :
    (input : Input) (entry session : Text)
    → checked input (metadata_of input.message_metadata) ≡ ok (branch entry session)
    → HasLineage input entry session
unfolding checked
checked-HasLineage input entry session h =
    let m = metadata_of input.message_metadata in
    let (mapping, mapped, h1) =
      >>=-eq-ok (needed (uncertain missing_session_mapping none) (input.mappings input.chat_id)) _
        h in
    let (_, project, h2) =
      >>=-eq-ok (throw_if (not (text_eq mapping.project_id input.project_id)) _) _ h1 in
    let (owner, owned, h3) = >>=-eq-ok (needed_owner _ input.owner_user_id) _ h2 in
    let (_, same_owner, h4) = >>=-eq-ok (agrees mapping _ m.owner owner) _ h3 in
    let (_, same_project, h5) = >>=-eq-ok (agrees mapping _ m.project input.project_id) _ h4 in
    let (_, same_session, h6) = >>=-eq-ok (agrees mapping _ m.session mapping.session_id) _ h5 in
    let (entry', entry_named, h7) = >>=-eq-ok (needed_entry _ m.entry) _ h6 in
    let (_, same_message, h8) =
      >>=-eq-ok (throw_if (not (text_eq (get_or m.message entry') input.message_id)) _) _ h7 in
    let (is_owned, present) = needed_owner-ok _ input.owner_user_id owned in
    let (is_entry, entry_there) = needed_entry-ok _ m.entry entry_named in
    let same_entry = branch_entry (ok_same h8) in
    record {
      mapping = mapping;
      owner = owner;
      mapped = needed-ok _ _ mapped;
      session_is = branch_session (ok_same h8);
      project_is = throw_if-not mapping.project_id input.project_id _ project;
      owned = is_owned;
      owner_present = present;
      same_owner = agrees-ok mapping _ m.owner owner same_owner;
      same_project = agrees-ok mapping _ m.project input.project_id same_project;
      same_session = agrees-ok mapping _ m.session mapping.session_id same_session;
      entry_is = is_entry ∙ ap some same_entry;
      entry_present = rw (← same_entry) entry_there;
      message_is = rw (← same_entry) (throw_if-not _ input.message_id _ same_message);
    }

HasLineage-checked :
    (input : Input) (entry session : Text)
    → HasLineage input entry session
    → checked input (metadata_of input.message_metadata) ≡ ok (branch entry session)
unfolding checked needed needed_owner needed_entry agrees
HasLineage-checked input entry session l = rw (l.mapped) (
    rw (l.project_is) (
      rw text_eq_refl (
        rw (l.owned) (
          rw (l.owner_present) (
            rw (l.same_owner) (
              rw (l.same_project) (
                rw (l.same_session) (
                  rw text_eq_refl (
                    rw text_eq_refl (
                      rw text_eq_refl (
                        rw (l.entry_is) (
                          rw (l.entry_present) (
                            rw (l.message_is) (
                              rw text_eq_refl
                                (ap (λ s. ok (branch entry s)) l.session_is)))))))))))))))

not_uncertain :
    {d : Decision} {e s : Text} {r : Reason} {o : Option Text}
    → d ≡ branch e s
    → d ≡ uncertain r o
    → ⊥
not_uncertain h u = cc (h, u)

returned-branch :
    (m : Result Decision Decision) (entry session : Text)
    → Refuses m
    → returned m ≡ branch entry session
    → m ≡ ok (branch entry session)
unfolding returned
returned-branch (ok d) entry session refuses h = ap ok h
returned-branch (err d) entry session refuses h =
    let (r, o, u) = refuses d refl in absurd (not_uncertain h u)

-- A regeneration is resolved to a branch from an entry of a session exactly if the chat has a
-- mapping whose project is the request's, the request has an owner that is not blank, the metadata
-- names that owner, that project and the mapping's session, it names the entry, which is not
-- empty, and the message's ID is the one that it names, or else the entry.
pub resolve_decides :
    (input : Input) (entry session : Text)
    → resolve_branch_regenerate_action input ≡ branch entry session ↔ HasLineage input entry session
unfolding resolve_branch_regenerate_action returned
resolve_decides input entry session =
    let m = metadata_of input.message_metadata in
    (
      λ h.
          checked-HasLineage input entry session
            (returned-branch (checked input m) entry session (checked-Refuses input m) h),
      λ l. ap returned (HasLineage-checked input entry session l),
    )
