-- ===== src/Authority/Journal/Reconcile.antt =====
-- The journal after a restart (`reconcileSessionAuthority`,
-- src/gjc/session-authority-reconciliation.ts).
use openwebui_gjc_adapter.Authority.{
  Operation, Provisional, Reassignment, Record, is_awaiting, is_pending,
}
use openwebui_gjc_adapter.Authority.Codec.{Clock}
use openwebui_gjc_adapter.Authority.Journal.{
  Journal, reconcile, reconcile_records, reconcile_provisional, needs_restart, restarted_record,
  restarted, restarted_reassignment, restarted_provisional, is_awaited, key_of,
}
use openwebui_gjc_adapter.Prelude.{
  ℕ, suc, ◌≡◌, refl, sym, ◌∙◌, subst, ◌⊎◌, inl, inr, true, false, List, [], ◌∷◌, Option, none, some,
  Text, any, map, Bool-cases, All, text_eq, text_eq_iff,
}
use openwebui_gjc_adapter.Prelude.Dict
use openwebui_gjc_adapter.Prelude.Dict.{Dict, Distinct, get-set, All-get, get-head, get-tail}

data Mem {ℓ} {A : Type ℓ} (a : A) : List A → Type ℓ where
  here : (xs : List A) → Mem a (a ∷ xs)
  there : (x : A) (xs : List A) → Mem a xs → Mem a (x ∷ xs)

Mem-values :
    {V : Type 0} (k : Text) (v : V) (d : Dict V) → Dict.get k d ≡ some v → Mem v (Dict.values d)
unfolding Dict.get
Mem-values k v [] h = cc h
Mem-values k v ((j, w) ∷ d) h = elim (Bool-cases (text_eq j k)) [
  | inl e ↦
      subst (λ x. Mem v (x ∷ Dict.values d)) {x = v} {y = w} (cc (rw e at h)) (here (Dict.values d))
  | inr e ↦ there w (Dict.values d) (Mem-values k v d (rw e at h))
]

Mem-cons {ℓ} : {A : Type ℓ} {a x : A} {xs : List A} → Mem a (x ∷ xs) → (a ≡ x) ⊎ Mem a xs
Mem-cons (here xs) = inl refl
Mem-cons (there x xs m) = inr m

some_same : {p q : Record} → ◌≡◌ {A = Option Record} (some p) (some q) → p ≡ q
some_same h = cc h

restarted-not_pending : (o : Operation) → is_pending (restarted o).state ≡ false
unfolding restarted
restarted-not_pending o = elim (Bool-cases (is_pending o.state)) [
  | inl e ↦ rw e refl
  | inr e ↦ rw e e
]

none_pending :
    (os : List Operation) → any (λ (o : Operation). is_pending o.state) (map restarted os) ≡ false
unfolding any
none_pending [] = refl
none_pending (o ∷ os) = rw (restarted-not_pending o) (none_pending os)

restarted_reassignment-settled :
    (now : Text) (r : Option Reassignment) → is_awaited (restarted_reassignment now r) ≡ false
unfolding restarted_reassignment is_awaited
restarted_reassignment-settled now none = refl
restarted_reassignment-settled now (some r) = elim (Bool-cases (is_awaiting r.state)) [
  | inl e ↦ rw e refl
  | inr e ↦ rw e e
]

restarted_record-settled :
    (now : Text) (r : Record) → needs_restart (restarted_record now r) ≡ false
unfolding needs_restart restarted_record
restarted_record-settled now r =
    rw (none_pending r.journal) (restarted_reassignment-settled now r.reassignment)

-- Each record is settled, or is still to come and stands under its own chat.
abbrev Left : Dict Record → List Record → Type 0
Left d rs =
    (k : Text) (r : Record)
    → Dict.get k d ≡ some r
    → (needs_restart r ≡ false) ⊎ (Mem r rs × (k ≡ r.chat_id))

Left-set :
    (d : Dict Record) (now : Text) (r : Record) (rs : List Record)
    → Left d (r ∷ rs)
    → Left (Dict.set r.chat_id (restarted_record now r) d) rs
Left-set d now r rs left k q g = elim (Bool-cases (text_eq r.chat_id k)) [
  | inl e ↦
      let same : restarted_record now r ≡ q =
        some_same (rw e at (sym (get-set r.chat_id k _ d) ∙ g)) in
      inl (rw (← same) (restarted_record-settled now r))
  | inr e ↦ elim (left k q (rw e at (sym (get-set r.chat_id k _ d) ∙ g))) [
    | inl s ↦ inl s
    | inr (m, own) ↦ elim (Mem-cons m) [
      | inl same ↦ absurd (cc (e, (text_eq_iff r.chat_id k).1 (cc (own, same))))
      | inr m' ↦ inr (m', own)
    ]
  ]
]

Left-skip :
    (d : Dict Record) (r : Record) (rs : List Record)
    → needs_restart r ≡ false
    → Left d (r ∷ rs)
    → Left d rs
Left-skip d r rs s left k q g = elim (left k q g) [
  | inl t ↦ inl t
  | inr (m, own) ↦ elim (Mem-cons m) [ inl same ↦ inl (rw same s) | inr m' ↦ inr (m', own) ]
]

records_settle :
    (clock : Clock) (n : ℕ) (rs : List Record) (j : Journal)
    → Left j.records rs
    → Left (reconcile_records clock n rs j).0.records []
unfolding reconcile_records
records_settle clock n [] j left = left
records_settle clock n (r ∷ rs) j left = elim (Bool-cases (needs_restart r)) [
  | inl e ↦ rw e (records_settle clock (suc n) rs _ (Left-set j.records (clock n) r rs left))
  | inr e ↦ rw e (records_settle clock (suc n) rs j (Left-skip j.records r rs e left))
]

provisional_same : {p q : Provisional} → ◌≡◌ {A = Option Provisional} (some p) (some q) → p ≡ q
provisional_same h = cc h

-- Each provisional operation is settled, or is still to come and stands under its own key.
abbrev Waits : Dict Provisional → List Provisional → Type 0
Waits d os =
    (k : Text) (o : Provisional)
    → Dict.get k d ≡ some o
    → (is_pending o.state ≡ false) ⊎ (Mem o os × (k ≡ key_of o))

Waits-set :
    (d : Dict Provisional) (o : Provisional) (os : List Provisional)
    → Waits d (o ∷ os)
    → Waits (Dict.set (key_of o) (restarted_provisional o) d) os
Waits-set d o os left k q g = elim (Bool-cases (text_eq (key_of o) k)) [
  | inl e ↦
      let same : restarted_provisional o ≡ q =
        provisional_same (rw e at (sym (get-set (key_of o) k _ d) ∙ g)) in
      inl (rw (← same) (unfold restarted_provisional in refl))
  | inr e ↦ elim (left k q (rw e at (sym (get-set (key_of o) k _ d) ∙ g))) [
    | inl s ↦ inl s
    | inr (m, own) ↦ elim (Mem-cons m) [
      | inl same ↦ absurd (cc (e, (text_eq_iff (key_of o) k).1 (cc (own, same))))
      | inr m' ↦ inr (m', own)
    ]
  ]
]

Waits-skip :
    (d : Dict Provisional) (o : Provisional) (os : List Provisional)
    → is_pending o.state ≡ false
    → Waits d (o ∷ os)
    → Waits d os
Waits-skip d o os s left k q g = elim (left k q g) [
  | inl t ↦ inl t
  | inr (m, own) ↦ elim (Mem-cons m) [ inl same ↦ inl (rw same s) | inr m' ↦ inr (m', own) ]
]

provisional_settle :
    (os : List Provisional) (j : Journal)
    → Waits j.provisional os
    → Waits (reconcile_provisional os j).provisional []
      × ((reconcile_provisional os j).records ≡ j.records)
unfolding reconcile_provisional
provisional_settle [] j left = (left, refl)
provisional_settle (o ∷ os) j left = elim (Bool-cases (is_pending o.state)) [
  | inl e ↦ rw e (provisional_settle os _ (Waits-set j.provisional o os left))
  | inr e ↦ rw e (provisional_settle os j (Waits-skip j.provisional o os e left))
]

records-provisional :
    (clock : Clock) (n : ℕ) (rs : List Record) (j : Journal)
    → (reconcile_records clock n rs j).0.provisional ≡ j.provisional
unfolding reconcile_records
records-provisional clock n [] j = refl
records-provisional clock n (r ∷ rs) j = elim (Bool-cases (needs_restart r)) [
  | inl e ↦ rw e (records-provisional clock (suc n) rs _)
  | inr e ↦ rw e (records-provisional clock (suc n) rs j)
]

-- Each record stands under its chat and each provisional operation under its own key, none twice.
pub record IsKeyed (j : Journal) : Type 0 where
  pub records : All (λ e. e.0 ≡ e.1.chat_id) j.records
  pub provisional : All (λ e. e.0 ≡ key_of e.1) j.provisional
  pub distinct : Distinct j.records

no_member : {A : Type 0} {a : A} (xs : List A) → Mem a xs → xs ≡ [] → ⊥
no_member _ (here xs) h = cc h
no_member _ (there x xs m) h = cc h

-- On a journal whose entries stand under their own keys, after a restart no record has a pending
-- operation or an awaited reassignment, and no provisional operation is pending.
pub reconcile_settles :
    (clock : Clock) (j : Journal)
    → IsKeyed j
    → ((k : Text) (r : Record)
        → Dict.get k (reconcile clock j).0.records ≡ some r
        → needs_restart r ≡ false)
      × ((k : Text) (o : Provisional)
          → Dict.get k (reconcile clock j).0.provisional ≡ some o
          → is_pending o.state ≡ false)
unfolding reconcile
reconcile_settles clock j x =
    let first = records_settle clock 0 (Dict.values j.records) j (λ k r g.
      inr
        (Mem-values k r j.records g, All-get (λ e. e.0 ≡ e.1.chat_id) k r j.records x.records g)) in
    let j' = (reconcile_records clock 0 (Dict.values j.records) j).0 in
    let waits : Waits j'.provisional (Dict.values j.provisional) =
      rw (records-provisional clock 0 (Dict.values j.records) j) (λ k o g. inr (
        Mem-values k o j.provisional g,
        All-get (λ e. e.0 ≡ key_of e.1) k o j.provisional x.provisional g,
      )) in
    let (second, same) = provisional_settle (Dict.values j.provisional) j' waits in
    (
      λ k r g. elim (first k r (rw same at g)) [
        | inl s ↦ s
        | inr (m, _) ↦ absurd (no_member [] m refl)
      ],
      λ k o g. elim (second k o g) [ inl s ↦ s | inr (m, _) ↦ absurd (no_member [] m refl) ],
    )

values-own :
    (d m : Dict Record)
    → ((k : Text) (r : Record) → Dict.get k m ≡ some r → Dict.get k d ≡ some r)
    → All (λ e. e.0 ≡ e.1.chat_id) m
    → Distinct m
    → All (λ (r : Record). Dict.get r.chat_id d ≡ some r) (Dict.values m)
values-own d [] sub own distinct = tt
values-own d ((k, r) ∷ m) sub own distinct = (
  subst (λ i. Dict.get i d ≡ some r) own.0 (sub k r (get-head k r m)),
  values-own d m (λ i q g. sub i q (get-tail k i r q m distinct.0 g)) own.1 distinct.1,
)

clash :
    {q r : Record}
    → ◌≡◌ {A = Option Record} (some q) (some r)
    → needs_restart q ≡ true
    → needs_restart r ≡ false
    → ⊥
clash h e s = cc (some_same h, e, s)

records_keep :
    (clock : Clock) (n : ℕ) (rs : List Record) (d : Dict Record) (j : Journal) (k : Text)
    (r : Record)
    → All (λ (q : Record). Dict.get q.chat_id d ≡ some q) rs
    → Dict.get k d ≡ some r
    → needs_restart r ≡ false
    → Dict.get k j.records ≡ some r
    → Dict.get k (reconcile_records clock n rs j).0.records ≡ some r
unfolding reconcile_records
records_keep clock n [] d j k r all g s h = h
records_keep clock n (q ∷ rs) d j k r all g s h = elim (Bool-cases (needs_restart q)) [
  | inl e ↦ elim (Bool-cases (text_eq q.chat_id k)) [
    | inl t ↦ absurd (clash {q = q} {r = r} (cc (all.0, g, (text_eq_iff q.chat_id k).0 t)) e s)
    | inr t ↦
        rw e (
          records_keep clock (suc n) rs d _ k r all.1 g s
            (get-set q.chat_id k _ j.records ∙ rw t h))
  ]
  | inr e ↦ rw e (records_keep clock (suc n) rs d j k r all.1 g s h)
]

-- On a journal whose entries stand under their own keys, a restart leaves a record as it is in
-- which no operation is pending and no reassignment awaited.
pub reconcile_keeps :
    (clock : Clock) (j : Journal) (k : Text) (r : Record)
    → IsKeyed j
    → Dict.get k j.records ≡ some r
    → needs_restart r ≡ false
    → Dict.get k (reconcile clock j).0.records ≡ some r
unfolding reconcile
reconcile_keeps clock j k r x g s =
    let j' = (reconcile_records clock 0 (Dict.values j.records) j).0 in
    let waits : Waits j'.provisional (Dict.values j.provisional) =
      rw (records-provisional clock 0 (Dict.values j.records) j) (λ k o g. inr (
        Mem-values k o j.provisional g,
        All-get (λ e. e.0 ≡ key_of e.1) k o j.provisional x.provisional g,
      )) in
    rw ((provisional_settle (Dict.values j.provisional) j' waits).1) (
      records_keep clock 0 (Dict.values j.records) j.records j k r
        (values-own j.records j.records (λ i q h. h) x.records x.distinct) g s g)
