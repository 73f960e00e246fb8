-- ===== src/Json/Stream.antt =====
-- JSON text in pieces (src/state/outbox-json.ts: streamEscapedJsonString). What is handed to `emit` is
-- the list of the chunks, in their order.
pub mod Escaped
pub mod Bounds
mod Tests
use openwebui_gjc_adapter.Json.{is_high, is_low, hex4}
use openwebui_gjc_adapter.Prelude.{
  ℕ, Bool, true, false, ◌&&◌, ◌||◌, List, [], ◌∷◌, ◌++◌, Text, ltb, leb, ◌==◌, if◌then◌else◌,
  length,
}

-- What a unit adds to the buffer where it is no half of a pair.
unit_piece : ℕ → Text
unfolding hex4
unit_piece code =
    if code == 0x22
    then 92 ∷ 34 ∷ []
    else if code == 0x5c
    then 92 ∷ 92 ∷ []
    else if code == 0x08
    then 92 ∷ 98 ∷ []
    else if code == 0x09
    then 92 ∷ 116 ∷ []
    else if code == 0x0a
    then 92 ∷ 110 ∷ []
    else if code == 0x0c
    then 92 ∷ 102 ∷ []
    else if code == 0x0d
    then 92 ∷ 114 ∷ []
    else if ltb code 0x20 || is_high code || is_low code
    then 92 ∷ 117 ∷ hex4 code
    else code ∷ []

flush : Text → List Text
flush [] = []
flush (c ∷ buffer) = (c ∷ buffer) ∷ []

-- What was emitted, and what is in the buffer.
pub record Emitter : Type 0 where
  pub emitted : List Text
  pub buffer : Text

-- `buffer += piece`, and the flush of a buffer that is full.
push : Emitter → Text → Emitter
unfolding flush
push e piece =
    let buffer = e.buffer ++ piece in
    if leb 4096 (length buffer)
    then record { emitted = e.emitted ++ flush buffer; buffer = [] }
    else record e { buffer = buffer }

escaped_loop : Text → Emitter → Emitter
unfolding push unit_piece
escaped_loop [] e = e
escaped_loop (code ∷ []) e = push e (unit_piece code)
escaped_loop (code ∷ next ∷ raw) e =
    let pair = escaped_loop raw (push e (code ∷ next ∷ [])) in
    let single = escaped_loop (next ∷ raw) (push e (unit_piece code)) in
    if is_high code && is_low next then pair else single

all_emitted : Emitter → List Text
unfolding flush
all_emitted e = e.emitted ++ flush e.buffer

pub stream_escaped_json_string : Text → List Text
unfolding escaped_loop all_emitted
stream_escaped_json_string raw =
    all_emitted (escaped_loop raw (record { emitted = []; buffer = [] }))
