-- ===== src/Models/Policy/Resolve.antt =====
-- What a resolved model is (src/live/model-selection-policy.ts).
use openwebui_gjc_adapter.Models.{Selection, Unicode, Failure, format_canonical_model_id}
use openwebui_gjc_adapter.Models.Parse.{
  Classification, alias, canonical, malformed, foreign, classify_gjc_model_id,
}
use openwebui_gjc_adapter.Models.Parse.Classified.{Classifies, classify-Classifies}
use openwebui_gjc_adapter.Models.Catalog.{decode_strict_model_catalog}
use openwebui_gjc_adapter.Models.Current.{
  selection_from_state, is_authoritative_current, current_selection,
}
use openwebui_gjc_adapter.Models.Policy.{
  Error, Reader, from_models, available_provider_ids, is_active, is_current, some_same,
  canonical_by, read_canonical, resolve_canonical, is_in, usable, read_alias, resolve_alias,
  resolve_classified, resolve,
}
use openwebui_gjc_adapter.Models.Policy.Returns.{
  unless_thrown, ok_eq, both, with_reader-ok, neither_thrown, if_authoritative-some,
  is_current-same,
}
use openwebui_gjc_adapter.Outbox.Document.{Value, Values, array}
use openwebui_gjc_adapter.Prelude.{
  ◌≡◌, refl, sym, ap, ◌∙◌, ◌⊎◌, inl, inr, true, List, Option, none, some, Text, codes, Result, ok,
  err, >>=-eq-ok, subst,
}

-- In a strict catalog the selection is listed; without one it is the current model, of a catalog
-- that has only current models.
Offered : Unicode → Reader → Values → Option (List Selection) → Selection → Type 0
Offered u reader raw (some catalog) selection = some_same catalog selection ≡ true
Offered u reader raw none selection =
    (state : Value) × (reader.state ≡ ok state)
    × (selection_from_state u state ≡ some selection)
    × (is_authoritative_current raw selection ≡ true)

-- The reader gives the selection, of a provider that is active where providers are known.
pub Offers : Unicode → Reader → Selection → Type 0
unfolding Offered
Offers u reader selection =
    (raw : Values) × (catalog : Option (List Selection)) × (providers : Option (List Text))
    × (reader.available_models ≡ ok raw)
    × (from_models (decode_strict_model_catalog u (array raw)) ≡ ok catalog)
    × (available_provider_ids reader catalog ≡ ok providers)
    × (is_active providers selection.provider ≡ true)
    × Offered u reader raw catalog selection

module _ (u : Unicode) where
  current-Offered :
      (reader : Reader) (raw : Values) (providers : Option (List Text)) (state : Value)
      (selection : Selection)
      → reader.state ≡ ok state
      → is_current providers (current_selection u raw state) selection ≡ true
      → (is_active providers selection.provider ≡ true) × Offered u reader raw none selection
  unfolding Offered current_selection
  current-Offered reader raw providers state selection gave h =
      let (found, active) = is_current-same providers (current_selection u raw state) selection h in
      let (from, authoritative) =
        if_authoritative-some raw (selection_from_state u state) selection found in
      (active, (state, gave, from, authoritative))

  canonical_by-Offered :
      (reader : Reader) (selection result : Selection) (raw : Values)
      (providers : Option (List Text)) (catalog : Option (List Selection))
      → canonical_by u reader selection raw providers catalog ≡ ok result
      → (selection ≡ result)
        × (is_active providers selection.provider ≡ true)
        × Offered u reader raw catalog selection
  unfolding canonical_by Offered
  canonical_by-Offered reader selection result raw providers none h =
      let (state, gave, rest) = >>=-eq-ok reader.state _ h in
      let (current, same) = unless_thrown _ _ (ok selection) result rest in
      let (active, offered) = current-Offered reader raw providers state selection gave current in
      (ok_eq selection result same, active, offered)
  canonical_by-Offered reader selection result raw providers (some catalog) h =
      neither_thrown _ _ _ selection result h

  usable-Offered :
      (reader : Reader) (raw : Values) (providers : Option (List Text))
      (catalog : Option (List Selection)) (state : Value) (found : Option Selection)
      (result : Selection)
      → reader.state ≡ ok state
      → selection_from_state u state ≡ found
      → usable u raw providers catalog found ≡ ok result
      → (is_active providers result.provider ≡ true) × Offered u reader raw catalog result
  unfolding usable is_in Offered
  usable-Offered reader raw providers catalog state none result gave from h = cc
  usable-Offered reader raw providers none state (some s) result gave from h =
      let (tests, same) = unless_thrown _ _ (ok s) result h in
      let (active, authoritative) = both _ _ tests in
      let equal = ok_eq s result same in
      (
        sym (ap (λ x. is_active providers x.provider) equal) ∙ active,
        (
          state,
          gave,
          from ∙ ap some equal,
          sym (ap (is_authoritative_current raw) equal) ∙ authoritative,
        ),
      )
  usable-Offered reader raw providers (some catalog) state (some s) result gave from h =
      let (tests, same) = unless_thrown _ _ (ok s) result h in
      let (active, listed) = both _ _ tests in
      let equal = ok_eq s result same in
      (
        sym (ap (λ x. is_active providers x.provider) equal) ∙ active,
        sym (ap (some_same catalog) equal) ∙ listed,
      )

  read_canonical-Offers :
      (reader : Reader) (selection result : Selection)
      → read_canonical u selection reader ≡ ok result
      → (selection ≡ result) × Offers u reader selection
  unfolding read_canonical Offers
  read_canonical-Offers reader selection result h =
      let (raw, gave_raw, after_raw) = >>=-eq-ok reader.available_models _ h in
      let (catalog, gave_catalog, after_catalog) =
        >>=-eq-ok (from_models (decode_strict_model_catalog u (array raw))) _ after_raw in
      let (providers, gave_providers, last) =
        >>=-eq-ok (available_provider_ids reader catalog) _ after_catalog in
      let (same, active, offered) =
        canonical_by-Offered reader selection result raw providers catalog last in
      (same, (raw, catalog, providers, gave_raw, gave_catalog, gave_providers, active, offered))

  read_alias-Offers :
      (reader : Reader) (result : Selection)
      → read_alias u reader ≡ ok result
      → Offers u reader result
  unfolding read_alias Offers
  read_alias-Offers reader result h =
      let (raw, gave_raw, after_raw) = >>=-eq-ok reader.available_models _ h in
      let (catalog, gave_catalog, after_catalog) =
        >>=-eq-ok (from_models (decode_strict_model_catalog u (array raw))) _ after_raw in
      let (providers, gave_providers, after_providers) =
        >>=-eq-ok (available_provider_ids reader catalog) _ after_catalog in
      let (state, gave_state, last) = >>=-eq-ok reader.state _ after_providers in
      let (active, offered) =
        usable-Offered reader raw providers catalog state (selection_from_state u state) result
          gave_state refl last in
      (raw, catalog, providers, gave_raw, gave_catalog, gave_providers, active, offered)

  -- The ID is the alias or the canonical ID of the selection.
  pub Names : Text → Selection → Type 0
  Names id selection = (id ≡ codes "gjc") ⊎ (format_canonical_model_id u selection ≡ ok id)

  resolve_classified-Offers :
      (create : Result Error Reader) (id : Text) (c : Classification) (selection : Selection)
      → Classifies u id c
      → resolve_classified u create id c ≡ ok selection
      → (reader : Reader) × (create ≡ ok reader)
        × Names id selection
        × (reader.stop ≡ ok tt)
        × Offers u reader selection
  unfolding resolve_classified resolve_alias resolve_canonical Names Classifies
  resolve_classified-Offers create id alias selection named h =
      let (reader, made, gave, ends) = with_reader-ok create _ _ selection h in
      (reader, made, inl named, ends, read_alias-Offers reader selection gave)
  resolve_classified-Offers create id (canonical x) selection named h =
      let (reader, made, gave, ends) = with_reader-ok create _ _ selection h in
      let (same, offers) = read_canonical-Offers reader x selection gave in
      (
        reader,
        made,
        inr (sym (ap (format_canonical_model_id u) same) ∙ named),
        ends,
        subst (Offers u reader) same offers,
      )
  resolve_classified-Offers create id malformed selection named h = cc
  resolve_classified-Offers create id foreign selection named h = cc

  from_models-ok :
      {A : Type 0} (o : Result Failure A) (a : A)
      → ◌≡◌ {A = Result Error A} (from_models o) (ok a)
      → o ≡ ok a
  from_models-ok (ok b) a h = cc
  from_models-ok (err thrown) a h = cc

  -- A text that is resolved to a model selection is the alias gjc or the canonical ID of that
  -- selection; the reader was made and was stopped; the selection's provider is among the active
  -- ones, where the agent tells them; and the agent's catalog lists the selection, or, where the
  -- catalog is not a strict one, it has current models only and the selection is the current one.
  pub resolve-Offers :
      (create : Result Error Reader) (id : Text) (selection : Selection)
      → resolve u create id ≡ ok selection
      → (reader : Reader) × (create ≡ ok reader)
        × Names id selection
        × (reader.stop ≡ ok tt)
        × Offers u reader selection
  unfolding resolve
  resolve-Offers create id selection h =
      let (c, classified, rest) = >>=-eq-ok (from_models (classify_gjc_model_id u id)) _ h in
      resolve_classified-Offers create id c selection
        (classify-Classifies u id c (from_models-ok _ c classified)) rest
