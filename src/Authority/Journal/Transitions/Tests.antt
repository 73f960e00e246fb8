-- ===== src/Authority/Journal/Transitions/Tests.antt =====
-- A transition of an operation (src/gjc/session-authority-journal.ts).
use openwebui_gjc_adapter.Authority.{Record, conflict}
use openwebui_gjc_adapter.Authority.Journal.{require, set_record}
use openwebui_gjc_adapter.Authority.Journal.Transitions.{transition}
use openwebui_gjc_adapter.Authority.Journal.Operations.Tests.{holding, stored}
use openwebui_gjc_adapter.Authority.Journal.Transitions.Steps.{Moves, transition_moves}
use openwebui_gjc_adapter.Authority.Journal.Tests.{encoding, clock, operation, chat_record}
use openwebui_gjc_adapter.Prelude.{◌≡◌, refl, [], ◌∷◌, none, codes, ok, find, text_eq}
use openwebui_gjc_adapter.Prelude.Dict
use openwebui_gjc_adapter.Prelude.Dict.{Dict}

abbrev conflicted : Record
conflicted = chat_record (codes "c") (operation (codes "a") conflict ∷ [])

transition_returns :
    transition encoding clock (codes "c") (codes "a") conflict none none (holding stored)
    ≡ ok (record (holding stored) { records = (codes "c", conflicted) ∷ [] }, conflicted)
unfolding transition require Dict.get text_eq find set_record Dict.set
transition_returns = refl

transition_moves_example :
    Moves encoding
      (codes "c")
      (codes "a")
      conflict
      (holding stored)
      (record (holding stored) { records = (codes "c", conflicted) ∷ [] })
      conflicted
transition_moves_example =
    transition_moves encoding clock (codes "c") (codes "a") conflict none none (holding stored)
      (record (holding stored) { records = (codes "c", conflicted) ∷ [] }) conflicted
      transition_returns
