-- ===== src/Uri.antt =====
-- encodeURIComponent and decodeURIComponent of JavaScript, which src/live/models.ts writes the IDs of
-- models with.

pub mod RoundTrip
pub mod Units
use openwebui_gjc_adapter.Prelude.{
  ℕ, ◌+◌, ◌-◌, ◌*◌, ◌/◌, ◌%◌, Bool, not, ◌&&◌, ◌||◌, List, [], ◌∷◌, ◌++◌, Option, none, some, Text,
  codes, Result, ok, err, ◌>>=◌, ltb, leb, ◌==◌, if◌then◌else◌,
}

abbrev pub is_high : ℕ → Bool
is_high c = leb 0xD800 c && leb c 0xDBFF

abbrev pub is_low : ℕ → Bool
is_low c = leb 0xDC00 c && leb c 0xDFFF

abbrev pub is_surrogate : ℕ → Bool
is_surrogate c = leb 0xD800 c && leb c 0xDFFF

-- The code points of a text; a half of a pair that stands alone is one by itself.
unfoldable pub code_points : Text → List ℕ
code_points [] = []
code_points (c ∷ []) = c ∷ []
code_points (c ∷ d ∷ s) =
    let pair = ((c - 0xD800) * 1024 + (d - 0xDC00) + 0x10000) ∷ code_points s in
    let single = c ∷ code_points (d ∷ s) in if is_high c && is_low d then pair else single

pub utf16 : ℕ → Text
utf16 v =
    if ltb v 0x10000
    then v ∷ []
    else ((v - 0x10000) / 1024 + 0xD800) ∷ ((v - 0x10000) % 1024 + 0xDC00) ∷ []

unfoldable pub utf8 : ℕ → List ℕ
utf8 v =
    if ltb v 0x80
    then v ∷ []
    else if ltb v 0x800
    then (0xC0 + v / 64) ∷ (0x80 + v % 64) ∷ []
    else if ltb v 0x10000
    then (0xE0 + v / 4096) ∷ (0x80 + v / 64 % 64) ∷ (0x80 + v % 64) ∷ []
    else (0xF0 + v / 262144) ∷ (0x80 + v / 4096 % 64) ∷ (0x80 + v / 64 % 64) ∷ (0x80 + v % 64) ∷ []

abbrev upper_hex : ℕ → ℕ
upper_hex n = if ltb n 10 then n + 48 else n + 55

abbrev pub percent : ℕ → Text
percent b = 37 ∷ upper_hex (b / 16) ∷ upper_hex (b % 16) ∷ []

unfoldable pub percent_all : List ℕ → Text
percent_all [] = []
percent_all (b ∷ bs) = percent b ++ percent_all bs

abbrev is_alphanumeric : ℕ → Bool
is_alphanumeric c = leb b'0' c && leb c b'9' || leb b'A' c && leb c b'Z' || leb b'a' c && leb c b'z'

-- The marks `!'()*`, which RFC 3986 reserves and encodeURIComponent leaves alone.
abbrev pub is_extra : ℕ → Bool
is_extra c = c == 0x21 || leb 0x27 c && leb c 0x2A

unfoldable pub is_unreserved : ℕ → Bool
is_unreserved c =
    is_alphanumeric c || c == b'-' || c == b'_' || c == b'.' || c == 0x7E || is_extra c

pub data UriError : Type 0 where
  malformed_uri : UriError

unfoldable pub encode_point : ℕ → Result UriError Text
unfolding is_unreserved percent_all utf8
encode_point v =
    if is_unreserved v
    then ok (v ∷ [])
    else if is_surrogate v
    then err malformed_uri
    else ok (percent_all (utf8 v))

unfoldable pub encode_points : List ℕ → Result UriError Text
unfolding encode_point
encode_points [] = ok []
encode_points (v ∷ vs) = do text ← encode_point v; more ← encode_points vs; ok (text ++ more)

unfoldable pub encode_uri_component : Text → Result UriError Text
unfolding encode_points code_points
encode_uri_component s = encode_points (code_points s)

-- A digit of either case.
pub unhex : ℕ → Option ℕ
unhex c =
    if leb b'0' c && leb c b'9'
    then some (c - 48)
    else if leb b'A' c && leb c b'F'
    then some (c - 55)
    else if leb b'a' c && leb c b'f'
    then some (c - 87)
    else none

pub data Token : Type 0 where
  unit octet : ℕ → Token

pub octet_of : Option ℕ → Option ℕ → Result UriError ℕ
octet_of (some a) (some b) = ok (a * 16 + b)
octet_of _ _ = err malformed_uri

abbrev pub prepend : Token → Result UriError (List Token) → Result UriError (List Token)
prepend t (ok ts) = ok (t ∷ ts)
prepend t (err e) = err e

pub tokens : Text → Result UriError (List Token)
unfolding octet_of unhex
tokens [] = ok []
tokens (c ∷ []) = if c == 37 then err malformed_uri else ok (unit c ∷ [])
tokens (c ∷ a ∷ []) =
    let more = prepend (unit c) (tokens (a ∷ [])) in if c == 37 then err malformed_uri else more
tokens (c ∷ a ∷ b ∷ rest) =
    let escaped = octet_of (unhex a) (unhex b) >>= λ v. prepend (octet v) (tokens rest) in
    let plain = prepend (unit c) (tokens (a ∷ b ∷ rest)) in if c == 37 then escaped else plain

-- A sequence of octets that is not complete: how many are to come, the value so far, and the least
-- value that takes as many octets.
pub record Pending : Type 0 where
  pub left : ℕ
  pub value : ℕ
  pub least : ℕ

abbrev pending : ℕ → ℕ → ℕ → Option Pending
pending left value least = some (record { left = left; value = value; least = least })

first_octet : ℕ → Result UriError (Text × Option Pending)
first_octet b =
    if ltb b 0x80
    then ok (b ∷ [], none)
    else if ltb b 0xC0
    then err malformed_uri
    else if ltb b 0xE0
    then ok ([], pending 1 (b - 0xC0) 0x80)
    else if ltb b 0xF0
    then ok ([], pending 2 (b - 0xE0) 0x800)
    else if ltb b 0xF8
    then ok ([], pending 3 (b - 0xF0) 0x10000)
    else err malformed_uri

last_value : ℕ → ℕ → Result UriError (Text × Option Pending)
unfolding utf16
last_value least v =
    if leb least v && leb v 0x10FFFF && not (is_surrogate v)
    then ok (utf16 v, none)
    else err malformed_uri

next_octet : Pending → ℕ → Result UriError (Text × Option Pending)
unfolding last_value
next_octet p b =
    let v = p.value * 64 + (b - 0x80) in
    if ltb b 0x80 || leb 0xC0 b
    then err malformed_uri
    else if p.left == 1
    then last_value p.least v
    else ok ([], pending (p.left - 1) v p.least)

step : Option Pending → ℕ → Result UriError (Text × Option Pending)
unfolding first_octet next_octet
step none b = first_octet b
step (some p) b = next_octet p b

pub join : Option Pending → List Token → Result UriError Text
unfolding step
join none [] = ok []
join (some p) [] = err malformed_uri
join none (unit c ∷ ts) = do more ← join none ts; ok (c ∷ more)
join (some p) (unit c ∷ ts) = err malformed_uri
join p (octet b ∷ ts) = do (text, p') ← step p b; more ← join p' ts; ok (text ++ more)

unfoldable pub decode_uri_component : Text → Result UriError Text
unfolding tokens join
decode_uri_component s = do ts ← tokens s; join none ts
