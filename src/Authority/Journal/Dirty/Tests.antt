-- ===== src/Authority/Journal/Dirty/Tests.antt =====
-- A chat that is stored for the first time is dirty (src/gjc/session-authority-journal.ts).
use openwebui_gjc_adapter.Authority.{Record}
use openwebui_gjc_adapter.Authority.Journal.Dirty.{IsTracked, stores, call, call-IsTracked}
use openwebui_gjc_adapter.Authority.Journal.Operations.Tests.{
  empty, input, stored, holding, store_returns,
}
use openwebui_gjc_adapter.Authority.Journal.Tests.{encoding, clock}
use openwebui_gjc_adapter.Prelude.{◌≡◌, refl, inl, [], some, Text}
use openwebui_gjc_adapter.Prelude.Dict

-- There is no record before.
nothing_before :
    (k : Text) (p q : Record)
    → Dict.get k empty.records ≡ some p
    → Dict.get k (holding stored).records ≡ some q
    → encoding.record_json p ≡ encoding.record_json q
    → p ≡ q
unfolding Dict.get
nothing_before k p q g h e = absurd (cc g)

call-IsTracked_example : IsTracked [] (holding stored)
unfolding call
call-IsTracked_example =
    call-IsTracked encoding clock (stores input) [] empty (holding stored) stored nothing_before
      (λ k. inl refl) store_returns
