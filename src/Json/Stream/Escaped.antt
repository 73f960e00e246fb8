-- ===== src/Json/Stream/Escaped.antt =====
-- The chunks are what JSON.stringify writes between the quotes.
use mathlib.Core.List.{append_assoc, append-nil}
use openwebui_gjc_adapter.Json.{is_high, is_low, starts_low, escape_unit, escape}
use openwebui_gjc_adapter.Json.Stream.{
  unit_piece, flush, Emitter, push, escaped_loop, all_emitted, stream_escaped_json_string,
}
use openwebui_gjc_adapter.Prelude.{
  ◌≡◌, refl, sym, ◌∙◌, inl, inr, ℕ, Bool, true, false, ◌&&◌, ◌||◌, List, [], ◌∷◌, ◌++◌, Text, arith,
  leb, length, Bool-cases,
}

abbrev pub concat : List Text → Text
concat [] = []
concat (t ∷ ts) = t ++ concat ts

concat-append : (ts us : List Text) → concat (ts ++ us) ≡ concat ts ++ concat us
concat-append [] us = refl
concat-append (t ∷ ts) us = simp (concat-append ts us, append_assoc)

-- All that has been written so far.
abbrev written : Emitter → Text
written e = concat e.emitted ++ e.buffer

concat-flush : (buffer : Text) → concat (flush buffer) ≡ buffer
unfolding flush
concat-flush [] = refl
concat-flush (c ∷ buffer) = simp (append-nil)

written-push : (e : Emitter) (piece : Text) → written (push e piece) ≡ written e ++ piece
unfolding push
written-push e piece = elim (Bool-cases (leb 4096 (length (e.buffer ++ piece)))) [
  | inl full ↦ rw full (simp (concat-append, concat-flush, append-nil, append_assoc))
  | inr room ↦ rw room (simp (append_assoc))
]

concat-all_emitted : (e : Emitter) → concat (all_emitted e) ≡ written e
unfolding all_emitted
concat-all_emitted e = simp (concat-append, concat-flush)

-- A unit that is no half of a pair is escaped as JSON does.
unit_piece_lem : (code : ℕ) → unit_piece code ≡ escape_unit false code
unfolding unit_piece escape_unit
unit_piece_lem code = ground arith

pair_units :
    (code next : ℕ)
    → (is_high code && is_low next) ≡ true
    → (escape_unit true code ≡ code ∷ [])
      × (escape_unit true next ≡ next ∷ [])
      × (is_high next ≡ false)
unfolding escape_unit
pair_units code next h = (ground arith, ground arith, ground arith)

-- A high surrogate before a unit matters to a low surrogate only.
escape_after :
    (high : Bool) (next : ℕ) (raw : Text)
    → (high && is_low next) ≡ false
    → escape high (next ∷ raw) ≡ escape false (next ∷ raw)
unfolding escape
escape_after false next raw h = refl
escape_after true next raw h = rw h refl

no_half : (p q : Bool) → p ≡ false → (p || q && false) ≡ false
no_half p q h = ground arith

after_no_high : (a l h : Bool) → (h && l) ≡ false → (a || l && h) ≡ (a || l && false)
after_no_high a l h e = ground arith

second_half : (a l h : Bool) → (h && l) ≡ true → (a || l && h) ≡ true
second_half a l h e = ground arith

and_false : (p : Bool) → (p && false) ≡ false
and_false p = ground arith

first_half : (p q : Bool) → p ≡ true → (p || q) ≡ true
first_half p q h = ground arith

single_units :
    (code next : ℕ) (raw : Text)
    → (is_high code && is_low next) ≡ false
    → escape false (code ∷ next ∷ raw) ≡ unit_piece code ++ escape false (next ∷ raw)
unfolding escape starts_low
single_units code next raw h = simp (
  no_half (is_high code && is_low next) (is_low code) h,
  after_no_high (is_high next && starts_low raw) (is_low next) (is_high code) h,
  unit_piece_lem,
)

double_units :
    (code next : ℕ) (raw : Text)
    → (is_high code && is_low next) ≡ true
    → escape false (code ∷ next ∷ raw) ≡ (code ∷ next ∷ []) ++ escape false raw
unfolding escape starts_low
double_units code next raw h =
    let (first, second, low) = pair_units code next h in
    simp
      (
        first_half (is_high code && is_low next) (is_low code && false) h,
        second_half (is_high next && starts_low raw) (is_low next) (is_high code) h,
        first,
        second,
      )
      (rw low refl)

written-escaped_loop :
    (raw : Text) (e : Emitter) → written (escaped_loop raw e) ≡ written e ++ escape false raw
unfolding escaped_loop
written-escaped_loop [] e = unfold escape in sym (append-nil (written e))
written-escaped_loop (code ∷ []) e =
    unfold escape starts_low in
    simp (
      written-push,
      no_half (is_high code && false) (is_low code) (and_false (is_high code)),
      unit_piece_lem,
      append-nil,
    )
written-escaped_loop (code ∷ next ∷ raw) e = elim (Bool-cases (is_high code && is_low next)) [
  | inl paired ↦ rw paired (
      written-escaped_loop raw (push e (code ∷ next ∷ []))
      ∙ simp (written-push, append_assoc, double_units code next raw paired))
  | inr apart ↦ rw apart (
      written-escaped_loop (next ∷ raw) (push e (unit_piece code))
      ∙ simp (written-push, append_assoc, single_units code next raw apart))
]

-- The chunks of the escaped string, put together, are what JSON.stringify writes between the
-- quotes, pairs of surrogates and lone ones included.
pub concat-stream_escaped_json_string :
    (raw : Text) → concat (stream_escaped_json_string raw) ≡ escape false raw
unfolding stream_escaped_json_string
concat-stream_escaped_json_string raw = rw concat-all_emitted (written-escaped_loop raw _)
