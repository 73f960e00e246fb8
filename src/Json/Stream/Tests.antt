-- ===== src/Json/Stream/Tests.antt =====
-- Runs of the escape in chunks (src/state/outbox-json.ts).
use openwebui_gjc_adapter.Json.{escape}
use openwebui_gjc_adapter.Json.Stream.{stream_escaped_json_string}
use openwebui_gjc_adapter.Json.Stream.Escaped.{concat, concat-stream_escaped_json_string}
use openwebui_gjc_adapter.Json.Stream.Bounds.{IsChunk, stream_escaped_json_string-IsChunk}
use openwebui_gjc_adapter.Prelude.{◌≡◌, refl, false, [], ◌∷◌, Text, codes, All}

-- A letter, a quote, a pair, a lone high surrogate and a line feed.
abbrev mixed : Text
mixed = b'a' ∷ b'"' ∷ 0xD83D ∷ 0xDE00 ∷ 0xD83D ∷ 10 ∷ []

mixed_chunks :
    stream_escaped_json_string mixed
    ≡ (b'a' ∷ 92 ∷ b'"' ∷ 0xD83D ∷ 0xDE00 ∷ (codes "\\ud83d\\n")) ∷ []
unfolding stream_escaped_json_string
mixed_chunks = refl

concat-stream_escaped_json_string_example :
    concat (stream_escaped_json_string mixed) ≡ escape false mixed
concat-stream_escaped_json_string_example = concat-stream_escaped_json_string mixed

stream_escaped_json_string-IsChunk_example : All IsChunk (stream_escaped_json_string mixed)
stream_escaped_json_string-IsChunk_example = stream_escaped_json_string-IsChunk mixed
