-- ===== src/Authority/Identity.antt =====
-- What identifies an operation (src/gjc/session-authority-operation-identity.ts, and
-- operationIdentifiers and provisionalKey of src/gjc/session-operation-codec.ts).
use openwebui_gjc_adapter.Authority.{
  Operation, Provisional, Reservation, Intent, Error, ingress_conflict, requires_reconciliation,
  is_pending, kind_eq,
}
use openwebui_gjc_adapter.Json.{stringify}
use openwebui_gjc_adapter.Prelude.{
  Bool, not, ◌&&◌, ◌||◌, List, [], ◌∷◌, Option, none, some, Text, Result, ok, err, ◌>>◌, throw_if,
  text_eq, option_eq, contains, any, get_or, if◌then◌else◌, map,
}

-- `Pick<SessionOperation, "id" | "ingressId">`
pub record Named : Type 0 where
  pub id : Text
  pub ingress_id : Option Text

abbrev pub name_of : Intent → Named
name_of i = record { id = i.id; ingress_id = i.ingress_id }

abbrev pub names_of : List Operation → List Named
names_of journal = map (λ o. name_of o.intent) journal

-- `operation.ingressId ?? operation.id`
abbrev pub ingress : Named → Text
ingress n = get_or n.ingress_id n.id

unfoldable pub operation_identifiers : Named → List Text
operation_identifiers n =
    if option_eq n.ingress_id none || option_eq n.ingress_id (some n.id)
    then n.id ∷ []
    else n.id ∷ ingress n ∷ []

unfoldable pub provisional_key : Text → Text → Text
provisional_key chat_id ingress_id = stringify (some chat_id ∷ some ingress_id ∷ [])

unfoldable pub operation_identity : Named → Text
operation_identity n = stringify (some n.id ∷ some (ingress n) ∷ [])

unfoldable pub same_operation_identity : Named → Named → Bool
unfolding operation_identity
same_operation_identity left right = text_eq (operation_identity left) (operation_identity right)

-- Two operations have an identifier in common.
unfoldable pub shares : Named → Named → Bool
unfolding operation_identifiers
shares incoming candidate =
    any (λ i. contains i (operation_identifiers incoming)) (operation_identifiers candidate)

unfoldable pub has_identity_overlap : Named → List Named → Bool
unfolding shares
has_identity_overlap incoming candidates = any (λ c. shares incoming c) candidates

unfoldable pub has_identity_collision : Named → List Named → Bool
unfolding shares same_operation_identity
has_identity_collision incoming candidates =
    any (λ c. shares incoming c && not (same_operation_identity incoming c)) candidates

unfoldable pub assert_reservable_identity :
    Named → List Named → List Named → Result Error (Unit {0})
unfolding has_identity_collision has_identity_overlap
assert_reservable_identity operation journal provisional = do
  throw_if
      (has_identity_collision operation journal || has_identity_collision operation provisional)
      (ingress_conflict (ingress operation))
  throw_if (has_identity_overlap operation journal) (requires_reconciliation (ingress operation))

is_reservation_of : Reservation → Provisional → Bool
unfolding same_operation_identity kind_eq
is_reservation_of operation reserved =
    is_pending reserved.state
    && (same_operation_identity (name_of reserved.reservation.intent) (name_of operation.intent)
        && (kind_eq reserved.kind operation.kind
            && (text_eq reserved.project_id operation.project_id
                && option_eq reserved.detail operation.detail)))

-- The provisional operations are those other than the one that is reserved.
unfoldable pub assert_publishable_identity :
    Reservation → Option Provisional → List Named → List Named → Result Error Provisional
unfolding is_reservation_of has_identity_collision
assert_publishable_identity operation none journal others =
    err (requires_reconciliation (ingress (name_of operation.intent)))
assert_publishable_identity operation (some reserved) journal others = do
  let name = name_of operation.intent
  throw_if (not (is_reservation_of operation reserved)) (requires_reconciliation (ingress name))
  throw_if (has_identity_collision name journal || has_identity_collision name others)
      (ingress_conflict (ingress name))
  ok reserved

unfoldable pub assert_beginable_identity : Named → List Named → Result Error (Unit {0})
unfolding has_identity_collision has_identity_overlap
assert_beginable_identity operation provisional = do
  throw_if (has_identity_collision operation provisional) (ingress_conflict (ingress operation))
  throw_if (has_identity_overlap operation provisional)
      (requires_reconciliation (ingress operation))
