-- ===== src/Metadata.antt =====
-- Operation IDs and lineage hashes (src/state/metadata.ts).
pub mod Lineage
pub mod Tests
use openwebui_gjc_adapter.Prelude.{
  ℕ, zero, suc, ◌+◌, ◌/◌, ◌%◌, Bool, true, false, ◌&&◌, ◌||◌, List, [], ◌∷◌, ◌++◌, Option, none,
  some, map, Text, codes, ltb, leb, ◌==◌, if◌then◌else◌, length, filter, get_or,
}

-- What the runtime gives: `Date.prototype.toISOString` on an instant in milliseconds, Bun's SHA-256
-- hasher, from the text that it is given to the hexadecimal digest, and `basename` of Node's `path`.
pub record Runtime : Type 0 where
  pub iso : ℕ → Text
  pub sha256_hex : Text → Text
  pub basename : Text → Text

-- What one call reads from outside: the clock, where an ID is made and where a row is stamped, and
-- a random UUID.
pub record Readings : Type 0 where
  pub id_clock : ℕ
  pub clock : ℕ
  pub uuid : Text

abbrev is_digit : ℕ → Bool
is_digit c = leb b'0' c && leb c b'9'

abbrev is_alphanumeric : ℕ → Bool
is_alphanumeric c = is_digit c || leb b'A' c && leb c b'Z' || leb b'a' c && leb c b'z'

unfoldable pub is_safe : ℕ → Bool
is_safe c = is_alphanumeric c || c == b'_' || c == b'-'

-- `.replaceAll(/[^A-Za-z0-9_-]/g, "-")`
dash_unsafe : Text → Text
unfolding is_safe
dash_unsafe s = map (λ c. if is_safe c then c else b'-') s

starts_dash : Text → Bool
starts_dash [] = false
starts_dash (c ∷ s) = c == b'-'

-- `.replaceAll(/-+/g, "-")`
collapse_dashes : Text → Text
unfolding starts_dash
collapse_dashes [] = []
collapse_dashes (c ∷ s) =
    let rest = collapse_dashes s in if c == b'-' && starts_dash s then rest else c ∷ rest

drop_last_dash : Text → Text
drop_last_dash [] = []
drop_last_dash (c ∷ []) = if c == b'-' then [] else c ∷ []
drop_last_dash (c ∷ d ∷ s) = c ∷ drop_last_dash (d ∷ s)

drop_first_dash : Text → Text
drop_first_dash [] = []
drop_first_dash (c ∷ s) = if c == b'-' then s else c ∷ s

-- `x || "op"`
or_op : Text → Text
or_op [] = codes "op"
or_op (c ∷ s) = c ∷ s

-- The two ends of a match of `/^-|-$/g` are dropped.
safe_prefix : Text → Text
unfolding dash_unsafe collapse_dashes drop_last_dash drop_first_dash or_op
safe_prefix prefix = or_op (drop_last_dash (drop_first_dash (collapse_dashes (dash_unsafe prefix))))

take : ℕ → Text → Text
take zero s = []
take (suc n) [] = []
take (suc n) (c ∷ s) = c ∷ take n s

-- `${n}`, with as much fuel as the number has digits.
decimal_on : ℕ → ℕ → Text
decimal_on zero n = []
decimal_on (suc f) n =
    let more = decimal_on f (n / 10) ++ ((n % 10 + 48) ∷ []) in
    if ltb n 10 then (n + 48) ∷ [] else more

unfoldable pub decimal : ℕ → Text
unfolding decimal_on
decimal n = decimal_on (n + 1) n

-- What `buildLineageHash` hands to the hasher, one part after the other.
pub lineage_text : List Text → Text
unfolding decimal
lineage_text [] = []
lineage_text (part ∷ parts) = decimal (length part) ++ (58 ∷ (part ++ (59 ∷ lineage_text parts)))

unfoldable pub build_lineage_hash : Runtime → List Text → Text
unfolding lineage_text
build_lineage_hash rt parts = rt.sha256_hex (lineage_text parts)

stable_operation_suffix : Runtime → Text → Text → Text
unfolding build_lineage_hash take
stable_operation_suffix rt prefix timestamp =
    take 16 (build_lineage_hash rt (prefix ∷ timestamp ∷ []))

operation_suffix : Runtime → Readings → Text → Text → Option ℕ → Text
unfolding stable_operation_suffix
operation_suffix rt r prefix timestamp none =
    take 16 (filter (λ c. if c == b'-' then false else true) r.uuid)
operation_suffix rt r prefix timestamp (some now) = stable_operation_suffix rt prefix timestamp

-- `createOperationId`
unfoldable pub create_operation_id : Runtime → Readings → Text → Option ℕ → Text
unfolding safe_prefix operation_suffix
create_operation_id rt r prefix now =
    let timestamp = rt.iso (get_or now r.id_clock) in
    let safe = safe_prefix prefix in
    safe
    ++ (b'-'
        ∷ (filter (λ c. is_alphanumeric c) timestamp
            ++ (b'-' ∷ operation_suffix rt r safe timestamp now)))
