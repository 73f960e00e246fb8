-- ===== src/Branch/Tests.antt =====
-- A regeneration with its whole lineage (src/branches/regenerate.ts).
use openwebui_gjc_adapter.Branch.{
  Input, Mapping, Candidate, object, string, field, no_field, branch,
  resolve_branch_regenerate_action, authorize_branch_regenerate_candidate,
}
use openwebui_gjc_adapter.Branch.Resolve.{HasLineage, resolve_decides}
use openwebui_gjc_adapter.Branch.Authorize.{IsOnly, authorize_decides}
use openwebui_gjc_adapter.Prelude.{◌≡◌, ◌↔◌, List, [], ◌∷◌, some, codes}

abbrev mapping : Mapping
mapping = record { project_id = codes "p"; session_id = codes "s" }

abbrev request : Input
request = record {
  owner_user_id = some (codes "u");
  project_id = codes "p";
  chat_id = codes "c";
  message_id = codes "e";
  mappings = λ chat_id. some mapping;
  message_metadata = object (
      field (codes "gjc_adapter")
        (object (
          field (codes "owner_user_id") (string (codes "u")) (
            field (codes "projectId") (string (codes "p")) (
              field (codes "gjcSessionId") (string (codes "s"))
                (field (codes "gjcEntryId") (string (codes "e")) no_field)))))
        no_field);
}

resolve_decides_example :
    resolve_branch_regenerate_action request ≡ branch (codes "e") (codes "s")
    ↔ HasLineage request (codes "e") (codes "s")
resolve_decides_example = resolve_decides request (codes "e") (codes "s")

abbrev candidates : List Candidate
candidates =
    record {
      entry_id = codes "e";
      source =
          field (codes "id") (string (codes "e"))
            (field (codes "type") (string (codes "message")) no_field);
    }
    ∷ record { entry_id = codes "f"; source = no_field }
    ∷ []

authorize_decides_example :
    authorize_branch_regenerate_candidate (codes "e") (codes "s") candidates
      ≡ branch (codes "e") (codes "s")
    ↔ IsOnly (codes "e") candidates
authorize_decides_example = authorize_decides (codes "e") (codes "s") candidates
