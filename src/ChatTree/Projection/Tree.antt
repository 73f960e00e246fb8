-- ===== src/ChatTree/Projection/Tree.antt =====
-- The nearest message above an entry (`findNearestMessageAncestor`).
use openwebui_gjc_adapter.ChatTree.{Entry, is_message}
use openwebui_gjc_adapter.ChatTree.Graph.{Entries, Error}
use openwebui_gjc_adapter.ChatTree.Graph.Depth.{
  HasDepth, absent, top, below, HasDepth-unique, HasDepth-le,
}
use openwebui_gjc_adapter.ChatTree.Graph.Visit.{Ends}
use openwebui_gjc_adapter.ChatTree.Projection.{nearest_at, nearest, find_nearest_message_ancestor}
use openwebui_gjc_adapter.Prelude.{
  ℕ, zero, suc, ◌+◌, ◌≡◌, ◌≤◌, ◌<◌, refl, subst, inl, inr, true, false, List, [], ◌∷◌, Option, none,
  some, Text, Result, ok, arith, All, length, contains, text_eq, text_eq_iff, Bool-cases,
  Option-cases, if◌then◌else◌,
}
use openwebui_gjc_adapter.Prelude.Dict

-- The specification: from a parent upwards, the first entry that is a message; none at the end of
-- the chain, which is an entry with no parent or a missing one.
pub data Nearest (entries : Entries) : Option Text → Option Text → Type 0 where
  root : Nearest entries none none
  gap : (p : Text) → Dict.get p entries ≡ none → Nearest entries (some p) none
  here :
      (p : Text) (e : Entry)
      → Dict.get p entries ≡ some e
      → is_message e ≡ true
      → Nearest entries (some p) (some e.id)
  above :
      (p : Text) (e : Entry) (r : Option Text)
      → Dict.get p entries ≡ some e
      → is_message e ≡ false
      → Nearest entries e.parent_id r
      → Nearest entries (some p) r

ok_option : {r s : Option Text} → ◌≡◌ {A = Result Error (Option Text)} (ok r) (ok s) → r ≡ s
ok_option h = cc

nearest-Nearest :
    (fuel : ℕ) (entries : Entries) (cursor : Option Text) (seen : List Text) {r : Option Text}
    → nearest fuel entries cursor seen ≡ ok r
    → Nearest entries cursor r
unfolding nearest
nearest-Nearest fuel entries none seen h = rw (← ok_option h) root
nearest-Nearest zero entries (some cursor) seen h = cc h
nearest-Nearest (suc fuel) entries (some cursor) seen {r} h =
    elim (Bool-cases (contains cursor seen)) [
      | inl c ↦ cc (rw c at h)
      | inr c ↦ elim (Option-cases (Dict.get cursor entries)) [
        | inl g ↦
            subst (Nearest entries (some cursor)) (ok_option (rw (c, g, nearest) at h))
              (gap cursor g)
        | inr (e, g) ↦ elim (Bool-cases (is_message e)) [
          | inl m ↦
              subst (Nearest entries (some cursor)) (ok_option (rw (c, g, nearest, m) at h))
                (here cursor e g m)
          | inr m ↦ above cursor e r g m (
              nearest-Nearest fuel entries e.parent_id (cursor ∷ seen) (rw (c, g, nearest, m) at h))
        ]
      ]
    ]

-- The entries that were passed on the way up are deeper than the cursor.
abbrev Deeper : Entries → ℕ → List Text → Type 0
Deeper entries n = All (λ v. (k : ℕ) × HasDepth entries v k × (n < k))

not-contains-Deeper :
    (entries : Entries) (id : Text) (n : ℕ) (vs : List Text)
    → HasDepth entries id n
    → Deeper entries n vs
    → contains id vs ≡ false
unfolding contains
not-contains-Deeper entries id n [] d a = refl
not-contains-Deeper entries id n (v ∷ vs) d a = elim (Bool-cases (text_eq v id)) [
  | inl e ↦
      let same = subst (λ y. HasDepth entries y a.0.0) ((text_eq_iff v id).0 e) a.0.1 in
      absurd (omega (arith, HasDepth-unique d same, a.0.2))
  | inr e ↦ rw e (not-contains-Deeper entries id n vs d a.1)
]

Deeper-mono :
    (entries : Entries) (m n : ℕ) (vs : List Text)
    → n ≤ m
    → Deeper entries m vs
    → Deeper entries n vs
Deeper-mono entries m n [] h a = tt
Deeper-mono entries m n (v ∷ vs) h a =
    ((a.0.0, a.0.1, omega (arith, a.0.2)), Deeper-mono entries m n vs h a.1)

-- With more fuel than the chain is long, the loop returns.
nearest-returns :
    (fuel : ℕ) (entries : Entries) (cursor : Text) (n : ℕ) (seen : List Text)
    → HasDepth entries cursor n
    → n < fuel
    → Deeper entries n seen
    → (r : Option Text) × (nearest fuel entries (some cursor) seen ≡ ok r)
unfolding nearest nearest_at
nearest-returns zero entries cursor n seen d f a = absurd (omega arith)
nearest-returns (suc fuel) entries _ _ seen (absent cursor g) f a = (
  none,
  rw (not-contains-Deeper entries cursor 0 seen (absent cursor g) a) (rw (g, nearest) refl),
)
nearest-returns (suc fuel) entries _ _ seen (top cursor e g p) f a = (
  if is_message e then some e.id else none,
  rw (not-contains-Deeper entries cursor 1 seen (top cursor e g p) a)
      (rw (g, nearest) (rw p (ground arith))),
)
nearest-returns (suc fuel) entries _ _ seen (below cursor e parent n g p d) f a =
    let fresh = not-contains-Deeper entries cursor (suc n) seen (below cursor e parent n g p d) a in
    let (r, h) = nearest-returns fuel entries parent n (cursor ∷ seen) d (omega arith) (
      (suc n, below cursor e parent n g p d, omega arith),
      Deeper-mono entries (suc n) n seen (omega arith) a,
    ) in
    (if is_message e then some e.id else r, rw fresh (rw (g, nearest) (rw p (rw h (ground arith)))))

-- Where every chain of parents ends, the search returns what the specification of the nearest
-- message above a parent ID says: the first message on the way up, or none where the chain ends
-- without one.
pub find_nearest-Nearest :
    (entries : Entries) (parent_id : Option Text)
    → ((id : Text) → Ends entries id)
    → (r : Option Text) × (find_nearest_message_ancestor entries parent_id ≡ ok r)
      × Nearest entries parent_id r
unfolding find_nearest_message_ancestor
find_nearest-Nearest entries none ends = (none, unfold nearest in refl, root)
find_nearest-Nearest entries (some parent) ends =
    let (n, d) = ends parent in
    let (r, h) =
      nearest-returns (length entries + 1) entries parent n [] d (omega (arith, HasDepth-le d))
        tt in
    (r, h, nearest-Nearest _ entries (some parent) [] h)

-- The message that is found is one.
pub Nearest-message :
    {entries : Entries} {p r : Option Text}
    → Nearest entries p r
    → (id : Text) → r ≡ some id
    → (e : Entry) × (k : Text) × (Dict.get k entries ≡ some e) × (e.id ≡ id) × (is_message e ≡ true)
Nearest-message root id h = cc h
Nearest-message (gap p g) id h = cc h
Nearest-message (here p e g m) id h = (e, p, g, cc h, m)
Nearest-message (above p e r g m n) id h = Nearest-message n id h
