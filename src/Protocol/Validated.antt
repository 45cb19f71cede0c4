-- ===== src/Protocol/Validated.antt =====
-- Which values pass the validation, in the words of the two modes.
use calinix.Hash.{Text}
use calinix.Prelude.Results.{Result, err, ok}
use calinix.Protocol.{
  CalinixMode, single_mode, disaggregated_mode, RoutingHeaderValues, text_or_default, is_some,
  validate, validate_pods, HeaderError,
}
use calinix.Text.Literals.{is_empty}
use calinix.Prelude.{◌≡◌, ◌↔◌, Bool, true, false, Option, arith}

-- A text that is given and not empty.
abbrev pub IsGiven : Option Text → Type 0
IsGiven t = is_empty (text_or_default t) ≡ false

-- A request in single mode names its target alone; a request in disaggregated mode names the pods of
-- both stages and no target.
abbrev pub NamesPods : RoutingHeaderValues → CalinixMode → Type 0
NamesPods values single_mode =
    IsGiven values.target_pod_id
    × (is_some values.prefill_pod_id ≡ false)
    × (is_some values.decode_pod_id ≡ false)
NamesPods values disaggregated_mode =
    IsGiven values.prefill_pod_id
    × IsGiven values.decode_pod_id
    × (is_some values.target_pod_id ≡ false)

abbrev pub IsComplete : RoutingHeaderValues → Type 0
IsComplete values =
    (is_empty values.request_id ≡ false)
    × (is_empty values.route_policy ≡ false)
    × NamesPods values values.mode

abbrev pub accepted : Result HeaderError (Unit {0}) → Bool
accepted (err e) = false
accepted (ok valid) = true

pub validate_pods-NamesPods :
    (values : RoutingHeaderValues) (mode : CalinixMode)
    → (validate_pods values mode ≡ ok tt) ↔ NamesPods values mode
unfolding validate_pods
validate_pods-NamesPods values single_mode = (λ h. ground arith, λ h. ground arith)
validate_pods-NamesPods values disaggregated_mode = (λ h. ground arith, λ h. ground arith)

-- The validation succeeds exactly if the request id and the policy are not empty and the values name
-- the pods of their mode, all of them and no others.
pub validate-IsComplete :
    (values : RoutingHeaderValues) → (validate values ≡ ok tt) ↔ IsComplete values
unfolding validate
validate-IsComplete values =
    let (valid, complete) = validate_pods-NamesPods values values.mode in
    (λ h. ground (arith, valid), λ h. ground (arith, complete))
