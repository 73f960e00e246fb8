-- ===== src/Branch/Authorize.antt =====
-- When a branch is authorized by the branch candidates (`authorizeBranchRegenerateCandidate`).
use openwebui_gjc_adapter.Branch.{
  Candidate, branch, authorized_by, is_source_of, authorize_branch_regenerate_candidate,
}
use openwebui_gjc_adapter.Prelude.{
  ◌≡◌, ◌↔◌, refl, ap, inl, inr, Bool-cases, true, false, List, [], ◌∷◌, ◌++◌, Text, text_eq, All,
  filter,
}

-- Exactly one candidate has the entry, and its source is that message.
pub record IsOnly (entry : Text) (candidates : List Candidate) : Type 0 where
  pub before : List Candidate
  pub candidate : Candidate
  pub after : List Candidate
  pub split : candidates ≡ before ++ (candidate ∷ after)
  pub has_entry : text_eq candidate.entry_id entry ≡ true
  pub none_before : All (λ c. text_eq c.entry_id entry ≡ false) before
  pub none_after : All (λ c. text_eq c.entry_id entry ≡ false) after
  pub source_is : is_source_of entry candidate.source ≡ true

matches : Text → List Candidate → List Candidate
matches entry cs = filter (λ c. text_eq c.entry_id entry) cs

matches-none :
    (entry : Text) (cs : List Candidate)
    → matches entry cs ≡ []
    → All (λ c. text_eq c.entry_id entry ≡ false) cs
unfolding matches filter
matches-none entry [] h = tt
matches-none entry (c ∷ cs) h = elim (Bool-cases (text_eq c.entry_id entry)) [
  | inl e ↦ cc (rw e at h)
  | inr e ↦ (e, matches-none entry cs (rw e at h))
]

none-matches :
    (entry : Text) (cs : List Candidate)
    → All (λ c. text_eq c.entry_id entry ≡ false) cs
    → matches entry cs ≡ []
unfolding matches filter
none-matches entry [] h = refl
none-matches entry (c ∷ cs) h = rw (h.0) (none-matches entry cs h.1)

head_same : {c d : Candidate} {cs ds : List Candidate} → c ∷ cs ≡ d ∷ ds → c ≡ d
head_same h = cc h

tail_same : {c d : Candidate} {cs ds : List Candidate} → c ∷ cs ≡ d ∷ ds → cs ≡ ds
tail_same h = cc h

-- The candidates around the only match.
matches-one :
    (entry : Text) (cs : List Candidate) (c : Candidate)
    → matches entry cs ≡ c ∷ []
    → is_source_of entry c.source ≡ true
    → IsOnly entry cs
unfolding matches filter
matches-one entry [] c h s = cc h
matches-one entry (d ∷ cs) c h s = elim (Bool-cases (text_eq d.entry_id entry)) [
  | inl e ↦
      let h' : d ∷ matches entry cs ≡ c ∷ [] = rw e at h in
      record {
        before = [];
        candidate = d;
        after = cs;
        split = refl;
        has_entry = e;
        none_before = tt;
        none_after = matches-none entry cs (tail_same h');
        source_is = rw (head_same h') s;
      }
  | inr e ↦
      let rest = matches-one entry cs c (rw e at h) s in
      record {
        before = d ∷ rest.before;
        candidate = rest.candidate;
        after = rest.after;
        split = ap (λ xs. d ∷ xs) rest.split;
        has_entry = rest.has_entry;
        none_before = (e, rest.none_before);
        none_after = rest.none_after;
        source_is = rest.source_is;
      }
]

one-matches :
    (entry : Text) (before after : List Candidate) (c : Candidate)
    → text_eq c.entry_id entry ≡ true
    → All (λ c. text_eq c.entry_id entry ≡ false) before
    → All (λ c. text_eq c.entry_id entry ≡ false) after
    → matches entry (before ++ (c ∷ after)) ≡ c ∷ []
unfolding matches filter
one-matches entry [] after c h b a = rw h (ap (λ cs. c ∷ cs) (none-matches entry after a))
one-matches entry (d ∷ before) after c h b a = rw (b.0) (one-matches entry before after c h b.1 a)

only_match :
    (entry session : Text) (cs ms : List Candidate)
    → matches entry cs ≡ ms
    → authorized_by entry session ms ≡ branch entry session
    → IsOnly entry cs
unfolding authorized_by
only_match entry session cs [] m h = cc h
only_match entry session cs (c ∷ []) m h = elim (Bool-cases (is_source_of entry c.source)) [
  | inl e ↦ matches-one entry cs c m e
  | inr e ↦ cc (rw e at h)
]
only_match entry session cs (c ∷ d ∷ ms) m h = cc h

-- A branch from an entry is authorized, and is then the decision itself, exactly if one candidate
-- and no other has the entry's ID and its source is a message with that ID.
pub authorize_decides :
    (entry session : Text) (candidates : List Candidate)
    → authorize_branch_regenerate_candidate entry session candidates ≡ branch entry session
      ↔ IsOnly entry candidates
unfolding authorize_branch_regenerate_candidate authorized_by matches
authorize_decides entry session candidates = (
  λ h. only_match entry session candidates (matches entry candidates) refl h,
  λ o. rw (o.split) (
      rw (one-matches entry o.before o.after o.candidate o.has_entry o.none_before o.none_after)
        (rw (o.source_is) refl)),
)
