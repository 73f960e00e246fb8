-- ===== src/Outbox/Document/Tests.antt =====
-- Runs of the check of a document (src/state/outbox-types.ts).
use openwebui_gjc_adapter.Outbox.{
  Operation, chat, pending, canonical_key, key_of, normalize_principal_id,
}
use openwebui_gjc_adapter.Outbox.Document.{
  Host, Value, string, natural, array, object, no_value, value, no_field, field, duplicate_identity,
  invalid_json, parse_persisted_outbox_document,
}
use openwebui_gjc_adapter.Outbox.Document.Loaded.{store_of, parse-IsWellFormed}
use openwebui_gjc_adapter.Outbox.Memory.Invariant.{IsWellFormed}
use openwebui_gjc_adapter.Json.{stringify}
use openwebui_gjc_adapter.Prelude.{
  ◌≡◌, refl, [], ◌∷◌, none, some, Text, codes, Result, ok, err, text_eq, option_eq, contains, trim,
  if◌then◌else◌,
}

abbrev stored : Text → Value
stored id = object (
    field (codes "operationId") (string id) (
      field (codes "principalId") (string (codes " ann ")) (
        field (codes "ownerUserId") (string (codes "o")) (
          field (codes "projectId") (string (codes "p")) (
            field (codes "chatId") (string (codes "c")) (
              field (codes "kind") (string (codes "chat")) (
                field (codes "state") (string (codes "pending")) (
                  field (codes "payloadHash") (string (codes "h")) (
                    field (codes "attempts") (natural 2) (
                      field (codes "createdAt") (string (codes "t"))
                        (field (codes "updatedAt") (string (codes "u")) no_field)))))))))))

abbrev document : Text → Text → Value
document first second = object (
    field (codes "version") (natural 1) (
      field (codes "operations") (array (value (stored first) (value (stored second) no_value)))
        no_field))

abbrev read_text : Text → Result Text Value
read_text s =
    if text_eq s (codes "a")
    then ok (document (codes "a") (codes "b"))
    else if text_eq s (codes "b")
    then ok (document (codes "a") (codes "a"))
    else err (codes "Unexpected token")

abbrev host : Host
host = record { json_parse = read_text; iso_of = some }

abbrev loaded : Text → Operation
loaded id = record {
  operation_id = id;
  principal_id = some (codes "ann");
  owner_user_id = codes "o";
  project_id = codes "p";
  chat_id = codes "c";
  kind = chat;
  state = pending;
  payload_hash = codes "h";
  attempts = 2;
  created_at = codes "t";
  updated_at = codes "u";
  last_error = none;
}

accepted :
    parse_persisted_outbox_document host (codes "a")
    ≡ ok (loaded (codes "a") ∷ loaded (codes "b") ∷ [])
unfolding parse_persisted_outbox_document normalize_principal_id text_eq contains option_eq trim
    key_of stringify
accepted = refl

repeated : parse_persisted_outbox_document host (codes "b") ≡ err (duplicate_identity (codes "a"))
unfolding parse_persisted_outbox_document normalize_principal_id text_eq contains option_eq trim
    key_of stringify canonical_key
repeated = refl

no_json :
    parse_persisted_outbox_document host (codes "c") ≡ err (invalid_json (codes "Unexpected token"))
unfolding parse_persisted_outbox_document text_eq
no_json = refl

parse-IsWellFormed_example : IsWellFormed (store_of (loaded (codes "a") ∷ loaded (codes "b") ∷ []))
parse-IsWellFormed_example = parse-IsWellFormed host (codes "a") accepted
