-- ===== src/Json/Stream/Bounds.antt =====
-- No chunk is longer than a full buffer and one more piece.
use openwebui_gjc_adapter.Json.{is_high, is_low}
use openwebui_gjc_adapter.Json.Stream.{
  unit_piece, flush, Emitter, push, escaped_loop, all_emitted, stream_escaped_json_string,
}
use openwebui_gjc_adapter.Prelude.{
  inl, inr, ℕ, ◌<◌, ◌≤◌, ◌&&◌, List, [], ◌∷◌, ◌++◌, Text, arith, leb, length, length-append, All,
  Bool-cases,
}

-- Not empty, and at most 4,101 units long.
abbrev pub IsChunk : Text → Type 0
IsChunk t = (0 < length t) × (length t ≤ 4101)

record IsBounded (e : Emitter) : Type 0 where
  emitted : All IsChunk e.emitted
  room : length e.buffer < 4096

All-append : (ts us : List Text) → All IsChunk ts → All IsChunk us → All IsChunk (ts ++ us)
All-append [] us a b = b
All-append (t ∷ ts) us a b = (a.0, All-append ts us a.1 b)

flush-IsChunk : (buffer : Text) → length buffer ≤ 4101 → All IsChunk (flush buffer)
unfolding flush
flush-IsChunk [] h = tt
flush-IsChunk (c ∷ buffer) h = ((omega arith, h), tt)

length-unit_piece : (code : ℕ) → length (unit_piece code) ≤ 6
unfolding unit_piece
length-unit_piece code = ground arith

push-IsBounded :
    (e : Emitter) (piece : Text) → IsBounded e → length piece ≤ 6 → IsBounded (push e piece)
unfolding push
push-IsBounded e piece b h = elim (Bool-cases (leb 4096 (length (e.buffer ++ piece)))) [
  | inl full ↦ rw full (record {
    emitted =
        All-append e.emitted _ b.emitted
          (flush-IsChunk (e.buffer ++ piece) (omega (arith, length-append e.buffer piece, b.room)));
    room = omega arith;
  })
  | inr more ↦ rw more (record { emitted = b.emitted; room = ground arith })
]

escaped_loop-IsBounded : (raw : Text) (e : Emitter) → IsBounded e → IsBounded (escaped_loop raw e)
unfolding escaped_loop
escaped_loop-IsBounded [] e b = b
escaped_loop-IsBounded (code ∷ []) e b = push-IsBounded e _ b (length-unit_piece code)
escaped_loop-IsBounded (code ∷ next ∷ raw) e b = elim (Bool-cases (is_high code && is_low next)) [
  | inl paired ↦
      rw paired (escaped_loop-IsBounded raw _ (push-IsBounded e (code ∷ next ∷ []) b (omega arith)))
  | inr apart ↦
      rw apart
        (escaped_loop-IsBounded (next ∷ raw) _ (push-IsBounded e _ b (length-unit_piece code)))
]

-- No chunk of the escaped string is empty, and none is longer than 4,101 units, however long the
-- string is.
pub stream_escaped_json_string-IsChunk : (raw : Text) → All IsChunk (stream_escaped_json_string raw)
unfolding stream_escaped_json_string all_emitted
stream_escaped_json_string-IsChunk raw =
    let b =
      escaped_loop-IsBounded raw (record { emitted = []; buffer = [] })
        (record { emitted = tt; room = omega arith }) in
    All-append _ _ b.emitted (flush-IsChunk _ (omega (arith, b.room)))
