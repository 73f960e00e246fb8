-- ===== src/Outbox/Document/Loaded.antt =====
-- The operations of a document that the check accepts, loaded under their canonical keys.
use openwebui_gjc_adapter.Outbox.{Operation, key_of, normalize_principal_id}
use openwebui_gjc_adapter.Outbox.Document.{
  Host, Error, Value, Values, Fields, string, natural, array, object, boolean, scalar, no_value,
  value, parse_operation, parse_operation_fields, parsed_principal, parse_operations, parse_array,
  invalid_json, invalid_document, invalid_operation, has_wrong_keys, is_other_document,
  parse_document, required_fields, parsed_last_error, read, parse_persisted_outbox_document,
}
use openwebui_gjc_adapter.Outbox.Memory.{Store}
use openwebui_gjc_adapter.Outbox.Memory.Invariant.{IsNormal, IsWellFormed, normalize_idem}
use openwebui_gjc_adapter.Prelude.{
  ◌≡◌, refl, ℕ, ◌+◌, true, false, List, [], ◌∷◌, Option, none, some, map, Text, ok, err, >>=-eq-ok,
  arith, contains, codes, throw_if, Result, subst, text_eq_refl, text_eq_iff,
}
use openwebui_gjc_adapter.Prelude.Dict

-- The map that a store makes of the operations of a document.
abbrev pub store_of : List Operation → Store
store_of os = map (λ o. (key_of o, o)) os

operation_ok : {o p : Operation} → ◌≡◌ {A = Result Error Operation} (ok o) (ok p) → o ≡ p
operation_ok h = cc

operations_ok :
    {os ps : List Operation} → ◌≡◌ {A = Result Error (List Operation)} (ok os) (ok ps) → os ≡ ps
operations_ok h = cc

parsed_principal-IsNormal :
    (index : ℕ) (v : Option Value) {p : Option Text} → parsed_principal index v ≡ ok p → IsNormal p
unfolding parsed_principal
parsed_principal-IsNormal index none {p} h = unfold normalize_principal_id in ground arith
parsed_principal-IsNormal index (some (string s)) {p} h = normalize_idem (some s) p (ground arith)
parsed_principal-IsNormal index (some (natural n)) h = cc
parsed_principal-IsNormal index (some (array vs)) h = cc
parsed_principal-IsNormal index (some (object fs)) h = cc
parsed_principal-IsNormal index (some scalar) h = cc
parsed_principal-IsNormal index (some (boolean b)) h = cc

fields-IsNormal :
    (host : Host) (index : ℕ) (fs : Fields) {o : Operation}
    → parse_operation_fields host index fs ≡ ok o
    → IsNormal o.principal_id
unfolding parse_operation_fields
fields-IsNormal host index fs h =
    let (operation, _, h1) = >>=-eq-ok (required_fields host index fs) _ h in
    let principal = read (codes "principalId") fs in
    let (p, parsed, h2) = >>=-eq-ok (parsed_principal index principal) _ h1 in
    let (last_error, _, made) =
      >>=-eq-ok (parsed_last_error index (read (codes "lastError") fs)) _ h2 in
    subst (λ (q : Operation). IsNormal q.principal_id) (operation_ok made)
      (parsed_principal-IsNormal index principal parsed)

parse_operation-IsNormal :
    (host : Host) (index : ℕ) (v : Value) {o : Operation}
    → parse_operation host index v ≡ ok o
    → IsNormal o.principal_id
unfolding parse_operation
parse_operation-IsNormal host index (object fs) h =
    let (_, _, h1) = >>=-eq-ok (throw_if (has_wrong_keys fs) (invalid_operation index)) _ h in
    fields-IsNormal host index fs h1
parse_operation-IsNormal host index (string s) h = cc
parse_operation-IsNormal host index (natural n) h = cc
parse_operation-IsNormal host index (array vs) h = cc
parse_operation-IsNormal host index scalar h = cc
parse_operation-IsNormal host index (boolean b) h = cc

-- Loaded, the operations are a well-formed store, and none has one of the keys.
record IsLoaded (seen : List Text) (os : List Operation) : Type 0 where
  well_formed : IsWellFormed (store_of os)
  avoids : (k : Text) → contains k seen ≡ true → Dict.get k (store_of os) ≡ none

nil-IsLoaded : (seen : List Text) → IsLoaded seen []
nil-IsLoaded seen = record {
  well_formed = record { distinct = tt; rows = tt };
  avoids = λ k c. unfold Dict.get in refl;
}

fresh_key :
    (key : Text) (seen : List Text) (e : Error)
    → throw_if (contains key seen) e ≡ ok tt
    → contains key seen ≡ false
fresh_key key seen e h = ground arith

cons-IsLoaded :
    (seen : List Text) (o : Operation) (os : List Operation)
    → IsNormal o.principal_id
    → contains (key_of o) seen ≡ false
    → IsLoaded (key_of o ∷ seen) os
    → IsLoaded seen (o ∷ os)
cons-IsLoaded seen o os n fresh l = record {
  well_formed = record {
    distinct = (
      l.avoids (key_of o) (unfold contains in ground (arith, text_eq_refl (key_of o))),
      l.well_formed.distinct,
    );
    rows = (record { keyed = refl; normal = n }, l.well_formed.rows);
  };
  avoids = λ k c. unfold Dict.get contains in ground (arith, l.avoids k, text_eq_iff (key_of o) k);
}

parse_operations-IsLoaded :
    (host : Host) (index : ℕ) (seen : List Text) (vs : Values) {os : List Operation}
    → parse_operations host index seen vs ≡ ok os
    → IsLoaded seen os
unfolding parse_operations
parse_operations-IsLoaded host index seen no_value h =
    subst (IsLoaded seen) (operations_ok h) (nil-IsLoaded seen)
parse_operations-IsLoaded host index seen (value v vs) h =
    let (o, made, h1) = >>=-eq-ok (parse_operation host index v) _ h in
    let (_, fresh, h2) = >>=-eq-ok (throw_if (contains (key_of o) seen) _) _ h1 in
    let (rest, parsed, h3) =
      >>=-eq-ok (parse_operations host (index + 1) (key_of o ∷ seen) vs) _ h2 in
    subst (IsLoaded seen) (operations_ok h3) (
      cons-IsLoaded seen o rest (parse_operation-IsNormal host index v made)
        (fresh_key (key_of o) seen _ fresh)
        (parse_operations-IsLoaded host (index + 1) (key_of o ∷ seen) vs parsed))

parse_array-IsWellFormed :
    (host : Host) (v : Option Value) {os : List Operation}
    → parse_array host v ≡ ok os
    → IsWellFormed (store_of os)
unfolding parse_array
parse_array-IsWellFormed host none h = cc
parse_array-IsWellFormed host (some (array vs)) h =
    (parse_operations-IsLoaded host 0 [] vs h).well_formed
parse_array-IsWellFormed host (some (string s)) h = cc
parse_array-IsWellFormed host (some (natural n)) h = cc
parse_array-IsWellFormed host (some (object fs)) h = cc
parse_array-IsWellFormed host (some scalar) h = cc
parse_array-IsWellFormed host (some (boolean b)) h = cc

parse_document-IsWellFormed :
    (host : Host) (v : Value) {os : List Operation}
    → parse_document host v ≡ ok os
    → IsWellFormed (store_of os)
unfolding parse_document
parse_document-IsWellFormed host (object fs) h =
    let (_, _, h1) = >>=-eq-ok (throw_if (is_other_document fs) invalid_document) _ h in
    parse_array-IsWellFormed host (read (codes "operations") fs) h1
parse_document-IsWellFormed host (string s) h = cc
parse_document-IsWellFormed host (natural n) h = cc
parse_document-IsWellFormed host (array vs) h = cc
parse_document-IsWellFormed host scalar h = cc
parse_document-IsWellFormed host (boolean b) h = cc

parsed-IsWellFormed :
    (host : Host) (v : Result Text Value) {os : List Operation}
    → (elim v [ ok v ↦ parse_document host v | err message ↦ err (invalid_json message) ]) ≡ ok os
    → IsWellFormed (store_of os)
parsed-IsWellFormed host (ok v) h = parse_document-IsWellFormed host v h
parsed-IsWellFormed host (err message) h = cc

-- The operations of a persisted document that is accepted, each under its canonical key, are a
-- well-formed store: no key has two rows, and each row has a normalized principal.
pub parse-IsWellFormed :
    (host : Host) (serialized : Text) {os : List Operation}
    → parse_persisted_outbox_document host serialized ≡ ok os
    → IsWellFormed (store_of os)
unfolding parse_persisted_outbox_document
parse-IsWellFormed host serialized h = parsed-IsWellFormed host (host.json_parse serialized) h
