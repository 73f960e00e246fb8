-- ===== src/Models/Picker/Formats.antt =====
-- A selection that is decoded has an ID and a display name (src/live/models.ts).
use openwebui_gjc_adapter.Uri.{
  is_surrogate, is_unreserved, code_points, percent_all, utf8, encode_point, encode_points,
  encode_uri_component,
}
use openwebui_gjc_adapter.Models.{
  Level, Selection, Unicode, Failure, is_safe_component, is_safe_provider, replace_extra, from_uri,
  encode_component, invalid_component, invalid_provider, invalid_selection,
  format_canonical_model_id, format_model_display_name,
}
use openwebui_gjc_adapter.Models.Picker.{
  Entry, ModelEntry, selection_if_safe, decode_normalized_selection, decode_all, entry_of,
  entries_of, shown_selections, build_model_list, list_formatted, count_names,
}
use openwebui_gjc_adapter.Models.Picker.Names.{list_entries-total}
use openwebui_gjc_adapter.Outbox.Document.{Value}
use openwebui_gjc_adapter.Prelude.Pigeonhole.{NoRepeat}
use openwebui_gjc_adapter.Prelude.{
  ℕ, ◌≡◌, refl, sym, ap, ◌∙◌, subst, Bool, true, false, not, ◌&&◌, ◌||◌, List, [], ◌∷◌, ◌++◌, map,
  Option, none, some, Text, arith, Result, ok, ◌>>=◌, ◌>>◌, throw_if, Bool-cases, inl, inr, any,
  All, filter,
}

pass :
    {A : Type 0} (b : Bool) (thrown : Failure) (outcome : Result Failure A)
    → b ≡ true
    → (throw_if (not b) thrown >> outcome) ≡ outcome
pass true thrown outcome h = refl
pass false thrown outcome h = cc

no_throw :
    {A : Type 0} (b : Bool) (thrown : Failure) (outcome : Result Failure A)
    → b ≡ false
    → (throw_if b thrown >> outcome) ≡ outcome
no_throw true thrown outcome h = cc
no_throw false thrown outcome h = refl

>>=-ok :
    {A B : Type 0} (first : Result Failure A) (a : A) (next : A → Result Failure B)
    → first ≡ ok a
    → (first >>= next) ≡ next a
>>=-ok first a next h = ap (λ o. o >>= next) h

neither : (a b : Bool) → a ≡ true → b ≡ true → (not a || not b) ≡ false
neither a b h g = ground arith

encode_point-total : (w : ℕ) → is_surrogate w ≡ false → (t : Text) × (encode_point w ≡ ok t)
unfolding encode_point
encode_point-total w g = elim (Bool-cases (is_unreserved w)) [
  | inl e ↦ (w ∷ [], simp (e))
  | inr e ↦ (percent_all (utf8 w), simp (e, g))
]

encode_points-total :
    (p : ℕ → Bool) (vs : List ℕ)
    → any (λ v. p v || is_surrogate v) vs ≡ false
    → (t : Text) × (encode_points vs ≡ ok t)
unfolding encode_points any
encode_points-total p [] h = ([], refl)
encode_points-total p (v ∷ vs) h =
    let (rest, gave_rest) = encode_points-total p vs (ground arith) in
    let (t, gave) = encode_point-total v (ground arith) in (t ++ rest, simp (gave, gave_rest))

module _ (u : Unicode) where
  safe-points :
      (s : Text)
      → is_safe_component u s ≡ true
      → any (λ v. u.is_control_format_or_space v || is_surrogate v) (code_points s) ≡ false
  unfolding is_safe_component
  safe-points s h = ground arith

  encode_component-total :
      (s : Text) → is_safe_component u s ≡ true → (t : Text) × (encode_component u s ≡ ok t)
  unfolding encode_component encode_uri_component
  encode_component-total s h =
      let (t, gave) =
        encode_points-total u.is_control_format_or_space (code_points s) (safe-points s h) in
      (
        replace_extra t,
        pass (is_safe_component u s) invalid_component _ h
            ∙ ap (λ o. from_uri o >>= λ e. ok (replace_extra e)) gave,
      )

  -- The provider and the model's name are safe.
  abbrev IsSafeSelection : Selection → Type 0
  IsSafeSelection x =
      (is_safe_provider u x.provider ≡ true) × (is_safe_component u x.model_id ≡ true)

  provider-component : (s : Text) → is_safe_provider u s ≡ true → is_safe_component u s ≡ true
  unfolding is_safe_provider
  provider-component s h = ground arith

  format-total :
      (x : Selection) → IsSafeSelection x → (id : Text) × (format_canonical_model_id u x ≡ ok id)
  unfolding format_canonical_model_id
  format-total x h =
      let (a, gave_a) = encode_component-total x.provider (provider-component x.provider h.0) in
      let (b, gave_b) = encode_component-total x.model_id h.1 in
      (
        _,
        pass (is_safe_provider u x.provider) invalid_provider _ h.0
            ∙ >>=-ok (encode_component u x.provider) a _ gave_a
            ∙ >>=-ok (encode_component u x.model_id) b _ gave_b,
      )

  display-total :
      (x : Selection)
      → IsSafeSelection x
      → (name : Text) × (format_model_display_name u x ≡ ok name)
  unfolding format_model_display_name
  display-total x h = (
    _,
    no_throw _ invalid_selection _
        (neither (is_safe_provider u x.provider) (is_safe_component u x.model_id) h.0 h.1),
  )

  entry_of-total :
      (x : Selection)
      → IsSafeSelection x
      → (e : Entry) × (entry_of u x ≡ ok e) × (format_canonical_model_id u x ≡ ok e.id)
  unfolding entry_of
  entry_of-total x h =
      let (id, gave_id) = format-total x h in
      let (name, gave_name) = display-total x h in
      (
        record { selection = x; id = id; name = name },
        >>=-ok (format_canonical_model_id u x) id _ gave_id
            ∙ >>=-ok (format_model_display_name u x) name _ gave_name,
        gave_id,
      )

  -- Each entry has the ID of the selection in its place.
  pub HaveIds : List Selection → List Text → Type 0
  HaveIds [] [] = Unit
  HaveIds [] (id ∷ ids) = ⊥
  HaveIds (x ∷ xs) [] = ⊥
  HaveIds (x ∷ xs) (id ∷ ids) = (format_canonical_model_id u x ≡ ok id) × HaveIds xs ids

  entries_of-total :
      (xs : List Selection)
      → All IsSafeSelection xs
      → (es : List Entry) × (entries_of u xs ≡ ok es) × HaveIds xs (map (λ e. e.id) es)
  unfolding entries_of HaveIds
  entries_of-total [] h = ([], refl, tt)
  entries_of-total (x ∷ xs) h =
      let (e, gave, formats) = entry_of-total x h.0 in
      let (es, gave_es, all_format) = entries_of-total xs h.1 in
      (
        e ∷ es,
        >>=-ok (entry_of u x) e _ gave ∙ >>=-ok (entries_of u xs) es _ gave_es,
        (formats, all_format),
      )

  All-IsSafe-append :
      (xs ys : List Selection)
      → All IsSafeSelection xs
      → All IsSafeSelection ys
      → All IsSafeSelection (xs ++ ys)
  All-IsSafe-append [] ys h g = g
  All-IsSafe-append (x ∷ xs) ys h g = (h.0, All-IsSafe-append xs ys h.1 g)

  if_safe-IsSafe :
      (provider model_id : Option Text) (l : Option Level)
      → All IsSafeSelection (selection_if_safe u provider model_id l)
  unfolding selection_if_safe
  if_safe-IsSafe none model_id l = tt
  if_safe-IsSafe (some p) none l = tt
  if_safe-IsSafe (some p) (some m) none = tt
  if_safe-IsSafe (some p) (some m) (some l) =
      elim (Bool-cases (is_safe_provider u p && is_safe_component u m)) [
        | inl e ↦ simp (e) ((ground arith, ground arith), tt)
        | inr e ↦ simp (e) tt
      ]

  decode_all-IsSafe : (vs : List Value) → All IsSafeSelection (decode_all u vs)
  unfolding decode_all decode_normalized_selection
  decode_all-IsSafe [] = tt
  decode_all-IsSafe (v ∷ vs) =
      All-IsSafe-append _ (decode_all u vs) (if_safe-IsSafe _ _ _) (decode_all-IsSafe vs)

  filter-IsSafe :
      (p : Selection → Bool) (xs : List Selection)
      → All IsSafeSelection xs
      → All IsSafeSelection (filter p xs)
  unfolding filter
  filter-IsSafe p [] h = tt
  filter-IsSafe p (x ∷ xs) h = elim (Bool-cases (p x)) [
    | inl e ↦ simp (e) (h.0, filter-IsSafe p xs h.1)
    | inr e ↦ simp (e) (filter-IsSafe p xs h.1)
  ]

  -- The list of models is made for every input: its IDs are the canonical IDs of the selections
  -- that are shown, in their order, its names are distinct, and the loop that looks for a name
  -- ends.
  pub build_model_list_total :
      (input : List Value)
      → (listed : List ModelEntry) × (build_model_list u input ≡ ok listed)
        × HaveIds (shown_selections u input) (map (λ m. m.id) listed)
        × NoRepeat (map (λ m. m.name) listed)
  unfolding build_model_list shown_selections list_formatted
  build_model_list_total input =
      let (es, gave, formats) =
        entries_of-total (shown_selections u input)
          (filter-IsSafe _ (decode_all u input) (decode_all-IsSafe input)) in
      let (listed, gave_listed, ids, unused, distinct) =
        list_entries-total (count_names es []) [] es in
      (
        listed,
        ap list_formatted gave ∙ gave_listed,
        subst (λ names. HaveIds (shown_selections u input) names) (sym ids) formats,
        distinct,
      )
