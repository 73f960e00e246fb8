-- ===== src/Json.antt =====
-- `JSON.stringify` on the arrays of strings and nulls that the adapter uses as identity keys
-- (src/state/outbox-types.ts, src/gjc/session-operation-codec.ts,
-- src/gjc/session-authority-operation-identity.ts).
pub mod Injective
pub mod Stream
pub mod Spool
pub mod Tests
use openwebui_gjc_adapter.Prelude.{
  ℕ, ◌+◌, ◌/◌, ◌%◌, Bool, true, false, not, ◌&&◌, ◌||◌, List, [], ◌∷◌, ◌++◌, Option, none, some,
  Text, ltb, leb, ◌==◌, if◌then◌else◌,
}

abbrev is_high : ℕ → Bool
is_high c = leb 0xD800 c && leb c 0xDBFF

abbrev is_low : ℕ → Bool
is_low c = leb 0xDC00 c && leb c 0xDFFF

abbrev is_surrogate : ℕ → Bool
is_surrogate c = leb 0xD800 c && leb c 0xDFFF

starts_low : Text → Bool
starts_low [] = false
starts_low (c ∷ s) = is_low c

hex_digit : ℕ → ℕ
hex_digit n = if ltb n 10 then n + 48 else n + 87

hex4 : ℕ → Text
unfolding hex_digit
hex4 c =
    hex_digit (c / 4096)
    ∷ hex_digit (c / 256 % 16)
    ∷ hex_digit (c / 16 % 16)
    ∷ hex_digit (c % 16)
    ∷ []

-- One code unit: a two-character escape, `\uXXXX`, or itself.
escape_unit : Bool → ℕ → Text
unfolding hex4
escape_unit paired c =
    if c == 8
    then 92 ∷ 98 ∷ []
    else if c == 9
    then 92 ∷ 116 ∷ []
    else if c == 10
    then 92 ∷ 110 ∷ []
    else if c == 12
    then 92 ∷ 102 ∷ []
    else if c == 13
    then 92 ∷ 114 ∷ []
    else if c == 34
    then 92 ∷ 34 ∷ []
    else if c == 92
    then 92 ∷ 92 ∷ []
    else if ltb c 32 || is_surrogate c && not paired
    then 92 ∷ 117 ∷ hex4 c
    else c ∷ []

-- A surrogate is written as it is if it belongs to a pair, and is escaped if it stands alone.
pub escape : Bool → Text → Text
unfolding escape_unit starts_low
escape after_high [] = []
escape after_high (c ∷ s) =
    escape_unit (is_high c && starts_low s || is_low c && after_high) c ++ escape (is_high c) s

-- A string or `null`, with what follows it.
item : Option Text → Text → Text
unfolding escape
item none rest = 110 ∷ 117 ∷ 108 ∷ 108 ∷ rest
item (some s) rest = 34 ∷ (escape false s ++ (34 ∷ rest))

items : List (Option Text) → Text
unfolding item
items [] = 93 ∷ []
items (x ∷ xs) = 44 ∷ item x (items xs)

unfoldable pub stringify : List (Option Text) → Text
unfolding items
stringify [] = 91 ∷ 93 ∷ []
stringify (x ∷ xs) = 91 ∷ item x (items xs)
