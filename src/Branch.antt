-- ===== src/Branch.antt =====
-- The choice between replaying a branch and reporting that its lineage is uncertain
-- (src/branches/regenerate.ts). The mappings and the project are the fields that the code reads.
mod Checks
pub mod Resolve
pub mod Authorize
pub mod Tests
use openwebui_gjc_adapter.Prelude.{
  Bool, true, false, not, ◌&&◌, ◌||◌, List, [], ◌∷◌, Option, none, some, Text, codes, text_eq, ltb,
  ◌==◌, length, Result, ok, err, ◌>>=◌, ◌>>◌, throw_if, get_or, filter, trim, if◌then◌else◌,
}

-- A value of type `unknown`, as far as the code tells values apart.
mutual
  pub data Value : Type 0 where
    string : Text → Value
    object : Fields → Value
    array : Value
    -- `undefined`, `null`, a number or a Boolean
    scalar : Value

  pub data Fields : Type 0 where
    no_field : Fields
    field : Text → Value → Fields → Fields

-- A property of an object that has the fields; of a name that stands twice, the first.
pub read : Text → Fields → Option Value
read k no_field = none
read k (field j v fields) = let rest = read k fields in if text_eq j k then some v else rest

pub data Reason : Type 0 where
  missing_session_mapping missing_owner owner_mismatch project_mismatch session_mismatch
        missing_lineage_metadata missing_message_entry message_entry_mismatch
        branch_candidate_absent branch_candidate_duplicate branch_candidate_drift :
      Reason

-- `branch` has the entry's ID and the session's.
pub data Decision : Type 0 where
  branch : Text → Text → Decision
  uncertain : Reason → Option Text → Decision

pub record Mapping : Type 0 where
  pub project_id : Text
  pub session_id : Text

pub record Input : Type 0 where
  pub owner_user_id : Option Text
  pub project_id : Text
  pub chat_id : Text
  pub message_id : Text
  pub mappings : Text → Option Mapping
  pub message_metadata : Value

fields_of : Value → Option Fields
fields_of (object fields) = some fields
fields_of (string t) = none
fields_of array = none
fields_of scalar = none

fields_at : Option Value → Option Fields
unfolding fields_of
fields_at none = none
fields_at (some v) = fields_of v

adapter_in : Option Fields → Option Fields
unfolding read fields_at
adapter_in none = none
adapter_in (some fields) = fields_at (read (codes "gjc_adapter") fields)

adapter_metadata_from : Value → Option Fields
unfolding adapter_in fields_of
adapter_metadata_from metadata = adapter_in (fields_of metadata)

string_metadata : Option Value → Option Text
string_metadata (some (string t)) = some t
string_metadata (some (object fields)) = none
string_metadata (some array) = none
string_metadata (some scalar) = none
string_metadata none = none

-- `stringMetadata(adapterMetadata?.name)`
string_at : Option Fields → Text → Option Text
unfolding string_metadata read
string_at none name = none
string_at (some fields) name = string_metadata (read name fields)

-- `x ?? y`
or_else : Option Text → Option Text → Option Text
or_else none y = y
or_else (some x) y = some x

-- Of the two spellings of a name, the first that is a string.
either_name : Option Fields → Text → Text → Option Text
unfolding string_at or_else
either_name adapter name other = or_else (string_at adapter name) (string_at adapter other)

-- What the decision reads of the message's metadata.
pub record Metadata : Type 0 where
  pub owner : Option Text
  pub project : Option Text
  pub session : Option Text
  pub entry : Option Text
  pub message : Option Text

pub metadata_of : Value → Metadata
unfolding adapter_metadata_from either_name
metadata_of value =
    let adapter = adapter_metadata_from value in
    record {
      owner = either_name adapter (codes "ownerUserId") (codes "owner_user_id");
      project = either_name adapter (codes "projectId") (codes "project_id");
      session = either_name adapter (codes "gjcSessionId") (codes "session_id");
      entry = string_at adapter (codes "gjcEntryId");
      message = string_at adapter (codes "openwebuiMessageId");
    }

-- The value, or the decision that is returned without it.
pub needed {ℓ} : {A : Type ℓ} → Decision → Option A → Result Decision A
needed d none = err d
needed d (some a) = ok a

pub needed_owner : Decision → Option Text → Result Decision Text
needed_owner d none = err d
needed_owner d (some owner) = if length (trim owner) == 0 then err d else ok owner

pub needed_entry : Decision → Option Text → Result Decision Text
needed_entry d none = err d
needed_entry d (some entry) = if length entry == 0 then err d else ok entry

refuse : Mapping → Reason → Decision
refuse mapping reason = uncertain reason (some mapping.session_id)

-- A value of the metadata is there and is the one expected.
pub agrees : Mapping → Reason → Option Text → Text → Result Decision (Unit {0})
unfolding needed
agrees mapping mismatch value expected = do
  found ← needed (refuse mapping missing_lineage_metadata) value
  throw_if (not (text_eq found expected)) (refuse mapping mismatch)

pub checked : Input → Metadata → Result Decision Decision
unfolding agrees needed_owner needed_entry
checked input metadata = do
  mapping ← needed (uncertain missing_session_mapping none) (input.mappings input.chat_id)
  throw_if (not (text_eq mapping.project_id input.project_id)) (refuse mapping project_mismatch)
  owner ← needed_owner (refuse mapping missing_owner) input.owner_user_id
  agrees mapping owner_mismatch metadata.owner owner
  agrees mapping project_mismatch metadata.project input.project_id
  agrees mapping session_mismatch metadata.session mapping.session_id
  entry ← needed_entry (refuse mapping missing_message_entry) metadata.entry
  throw_if (not (text_eq (get_or metadata.message entry) input.message_id))
      (refuse mapping message_entry_mismatch)
  ok (branch entry mapping.session_id)

-- A decision that is returned early, or at the end.
returned : Result Decision Decision → Decision
returned (ok d) = d
returned (err d) = d

pub resolve_branch_regenerate_action : Input → Decision
unfolding checked returned metadata_of
resolve_branch_regenerate_action input =
    returned (checked input (metadata_of input.message_metadata))

pub record Candidate : Type 0 where
  pub entry_id : Text
  pub source : Fields

is_string : Option Value → Text → Bool
is_string (some (string s)) t = text_eq s t
is_string (some (object fields)) t = false
is_string (some array) t = false
is_string (some scalar) t = false
is_string none t = false

pub is_source_of : Text → Fields → Bool
unfolding is_string read
is_source_of id source =
    is_string (read (codes "id") source) id
    && is_string (read (codes "type") source) (codes "message")

-- The cases on `matches`.
authorized_by : Text → Text → List Candidate → Decision
unfolding is_source_of
authorized_by entry session [] = uncertain branch_candidate_absent (some session)
authorized_by entry session (c ∷ []) =
    if is_source_of entry c.source
    then branch entry session
    else uncertain branch_candidate_drift (some session)
authorized_by entry session (c ∷ d ∷ cs) = uncertain branch_candidate_duplicate (some session)

-- The argument is a `branch` decision.
pub authorize_branch_regenerate_candidate : Text → Text → List Candidate → Decision
unfolding authorized_by
authorize_branch_regenerate_candidate entry session candidates =
    authorized_by entry session (filter (λ c. text_eq c.entry_id entry) candidates)
