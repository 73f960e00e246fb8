-- ===== src/Authority/Journal/Writes.antt =====
-- What the journal's primitive reads and writes do (src/gjc/session-authority-journal.ts).
use openwebui_gjc_adapter.Authority.{Error, Record}
use openwebui_gjc_adapter.Authority.Journal.{Encoding, Journal, require, set_record}
use openwebui_gjc_adapter.Prelude.{
  ◌≡◌, refl, sym, ap, ◌∙◌, inl, inr, Bool, true, false, ◌≢◌, some, Text, Result, ok, throw_if,
  Option-cases,
}
use openwebui_gjc_adapter.Prelude.Dict
use openwebui_gjc_adapter.Prelude.Dict.{get-set_self, get-set_ne}

pub throw_if-false : (b : Bool) (e : Error) {u : Unit {0}} → throw_if b e ≡ ok u → b ≡ false
throw_if-false true e h = cc h
throw_if-false false e h = refl

pub record_same : {a b : Record} → ◌≡◌ {A = Result Error Record} (ok a) (ok b) → a ≡ b
record_same h = cc h

pub require_found :
    (chat_id : Text) (j : Journal) {r : Record}
    → require chat_id j ≡ ok r
    → Dict.get chat_id j.records ≡ some r
unfolding require
require_found chat_id j h = elim (Option-cases (Dict.get chat_id j.records)) [
  | inl g ↦ cc (rw (g, require) at h)
  | inr (r, g) ↦ g ∙ ap some (record_same (rw (g, require) at h))
]

pub set_record-get_self :
    (enc : Encoding) (k : Text) (r : Record) (j : Journal)
    → Dict.get k (set_record enc k r j).records ≡ some r
unfolding set_record
set_record-get_self enc k r j = get-set_self k r j.records

pub set_record-get_ne :
    (enc : Encoding) (k i : Text) (r : Record) (j : Journal)
    → i ≢ k
    → Dict.get i (set_record enc k r j).records ≡ Dict.get i j.records
unfolding set_record
set_record-get_ne enc k i r j h = get-set_ne k i r j.records (λ e. h (sym e))

pub set_record-provisional :
    (enc : Encoding) (k : Text) (r : Record) (j : Journal)
    → (set_record enc k r j).provisional ≡ j.provisional
unfolding set_record
set_record-provisional enc k r j = refl
