-- ===== src/Models/Picker/Names.antt =====
-- The names of the list are distinct, and the loop that looks for one ends (src/live/models.ts).
use openwebui_gjc_adapter.Metadata.Lineage.{decimal_bracket-injective, append-injective}
use openwebui_gjc_adapter.Models.Picker.{
  Entry, ModelEntry, ListFailure, numbered, unused_name, name_of, list_entries,
}
use openwebui_gjc_adapter.Prelude.Dict
use openwebui_gjc_adapter.Prelude.Dict.{Dict}
use openwebui_gjc_adapter.Prelude.Pigeonhole.{NoRepeat, length-le-of_keys}
use openwebui_gjc_adapter.Prelude.{
  ℕ, zero, suc, ◌+◌, ◌<◌, ◌≤◌, ◌≡◌, refl, ap, inl, inr, true, false, List, [], ◌∷◌, map, Text,
  codes, arith, ok, err, Result-cases, Bool-cases, text_eq_iff, contains, length, All,
}

-- A list of texts as a dictionary.
abbrev marks : List Text → Dict (Unit {0})
marks xs = map (λ x. (x, tt)) xs

length-marks : (xs : List Text) → length (marks xs) ≡ length xs
length-marks [] = refl
length-marks (x ∷ xs) = ap suc (length-marks xs)

has-marks : (x : Text) (xs : List Text) → contains x xs ≡ true → Dict.has x (marks xs) ≡ true
unfolding contains Dict.get
has-marks x [] h = cc
has-marks x (y ∷ xs) h = ground (arith, has-marks x xs)

All-has-marks :
    (xs ys : List Text)
    → All (λ x. contains x ys ≡ true) xs
    → All (λ x. Dict.has x (marks ys) ≡ true) xs
All-has-marks [] ys h = tt
All-has-marks (x ∷ xs) ys h = (has-marks x ys h.0, All-has-marks xs ys h.1)

-- Distinct texts that are all in a list are no more than its entries.
length-le-of_contained :
    (xs ys : List Text) → NoRepeat xs → All (λ x. contains x ys ≡ true) xs → length xs ≤ length ys
length-le-of_contained xs ys n h =
    omega (arith, length-le-of_keys xs (marks ys) n (All-has-marks xs ys h), length-marks ys)

numbered-injective : (id : Text) (m n : ℕ) → numbered id m ≡ numbered id n → m ≡ n
unfolding numbered
numbered-injective id m n h =
    let brackets = append-injective id id _ _ refl h in
    let digits = append-injective (codes " (") (codes " (") _ _ refl brackets.1 in
    decimal_bracket-injective m n digits.1

-- The names that the loop tries, from a suffix on.
numbers : ℕ → Text → ℕ → List Text
numbers zero id k = []
numbers (suc f) id k = numbered id k ∷ numbers f id (k + 1)

length-numbers : (f : ℕ) (id : Text) (k : ℕ) → length (numbers f id k) ≡ f
unfolding numbers
length-numbers zero id k = refl
length-numbers (suc f) id k = ap suc (length-numbers f id (k + 1))

not-contains-numbers :
    (f : ℕ) (id : Text) (k j : ℕ) → k < j → contains (numbered id k) (numbers f id j) ≡ false
unfolding numbers contains
not-contains-numbers zero id k j h = refl
not-contains-numbers (suc f) id k j h = ground (
  arith,
  text_eq_iff (numbered id j) (numbered id k),
  numbered-injective id j k,
  not-contains-numbers f id k (j + 1) (omega arith),
)

numbers-NoRepeat : (f : ℕ) (id : Text) (k : ℕ) → NoRepeat (numbers f id k)
unfolding numbers
numbers-NoRepeat zero id k = tt
numbers-NoRepeat (suc f) id k =
    (not-contains-numbers f id k (k + 1) (omega arith), numbers-NoRepeat f id (k + 1))

-- Where the loop runs out of fuel, every name that it tried is in use.
unused_name-fails :
    (f : ℕ) (emitted : List Text) (id : Text) (k : ℕ) (name : Text) (thrown : ListFailure)
    → unused_name f emitted id k name ≡ err thrown
    → (contains name emitted ≡ true) × All (λ x. contains x emitted ≡ true) (numbers f id k)
unfolding unused_name numbers
unused_name-fails zero emitted id k name thrown h = (ground arith, tt)
unused_name-fails (suc f) emitted id k name thrown h = elim (Bool-cases (contains name emitted)) [
  | inl e ↦ (e, unused_name-fails f emitted id (k + 1) (numbered id k) thrown (ground arith))
  | inr e ↦ absurd (ground arith)
]

unused_name-unused :
    (f : ℕ) (emitted : List Text) (id : Text) (k : ℕ) (name result : Text)
    → unused_name f emitted id k name ≡ ok result
    → contains result emitted ≡ false
unfolding unused_name
unused_name-unused zero emitted id k name result h = ground arith
unused_name-unused (suc f) emitted id k name result h =
    ground (arith, unused_name-unused f emitted id (k + 1) (numbered id k) result)

-- The loop ends: there are more names to try than there are in use.
unused_name-total :
    (emitted : List Text) (id name : Text)
    → (result : Text) × (unused_name (length emitted + 1) emitted id 2 name ≡ ok result)
      × (contains result emitted ≡ false)
unused_name-total emitted id name =
    elim (Result-cases (unused_name (length emitted + 1) emitted id 2 name)) [
      | inl (result, gave) ↦
          (result, gave, unused_name-unused (length emitted + 1) emitted id 2 name result gave)
      | inr (thrown, gave) ↦
          let tried = unused_name-fails (length emitted + 1) emitted id 2 name thrown gave in
          absurd (
            omega (
              arith,
              length-numbers (length emitted + 1) id 2,
              length-le-of_contained (numbers (length emitted + 1) id 2) emitted
                  (numbers-NoRepeat (length emitted + 1) id 2) tried.1,
            ))
    ]

name_of-total :
    (counts : Dict ℕ) (emitted : List Text) (e : Entry)
    → (result : Text) × (name_of counts emitted e ≡ ok result) × (contains result emitted ≡ false)
unfolding name_of
name_of-total counts emitted e = unused_name-total emitted e.id _

-- No name is in use before.
abbrev AreUnused : List Text → List ModelEntry → Type 0
AreUnused emitted listed = All (λ m. contains m.name emitted ≡ false) listed

AreUnused-tail :
    (name : Text) (emitted : List Text) (listed : List ModelEntry)
    → AreUnused (name ∷ emitted) listed
    → AreUnused emitted listed × (contains name (map (λ m. m.name) listed) ≡ false)
unfolding contains
AreUnused-tail name emitted [] h = (tt, refl)
AreUnused-tail name emitted (m ∷ listed) h =
    let rest = AreUnused-tail name emitted listed h.1 in
    (
      (ground arith, rest.0),
      ground (arith, text_eq_iff name m.name, text_eq_iff m.name name, rest.1),
    )

pub list_entries-total :
    (counts : Dict ℕ) (emitted : List Text) (entries : List Entry)
    → (listed : List ModelEntry) × (list_entries counts emitted entries ≡ ok listed)
      × (map (λ m. m.id) listed ≡ map (λ e. e.id) entries)
      × AreUnused emitted listed
      × NoRepeat (map (λ m. m.name) listed)
unfolding list_entries
list_entries-total counts emitted [] = ([], refl, refl, tt, tt)
list_entries-total counts emitted (e ∷ entries) =
    let (name, gave, unused) = name_of-total counts emitted e in
    let (rest, gave_rest, ids, fresh, distinct) =
      list_entries-total counts (name ∷ emitted) entries in
    let tail = AreUnused-tail name emitted rest fresh in
    (
      record { id = e.id; name = name } ∷ rest,
      simp (gave, gave_rest),
      ap (λ xs. e.id ∷ xs) ids,
      (unused, tail.0),
      (tail.1, distinct),
    )
