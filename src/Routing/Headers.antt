-- ===== src/Routing/Headers.antt =====
-- src/calinix/routing/plan.rs: the headers that announce a plan.
use calinix.Hash.{Text}
use calinix.Protocol.{as_str, single_mode, disaggregated_mode, RoutingHeaderValues, text_or_default}
use calinix.Protocol.Validated.{IsComplete}
use calinix.Http.{HeaderMaps, IsHeaderMap}
use calinix.Protocol.Writes.{AllWritable, fields}
use calinix.Routing.{RoutingPlan, request_id, single_plan, disaggregated_plan}
use calinix.Text.Literals.{chars, to_string, is_empty, is_empty-to_string, to_string-IsVisible}
use calinix.Prelude.{◌≡◌, refl, Bool, true, false, none, some, arith, if◌then◌else◌}

unfoldable pub mode_label : RoutingPlan → Text
mode_label (single_plan id pod address hit depth policy) = chars "single"
mode_label (disaggregated_plan id address prefill_pod decode_pod hit depth policy) =
    chars "disaggregated"

-- The field of both plans.
unfoldable pub route_policy : RoutingPlan → Text
route_policy (single_plan id pod address hit depth policy) = policy
route_policy (disaggregated_plan id address prefill_pod decode_pod hit depth policy) = policy

unfoldable pub routing_headers : RoutingPlan → RoutingHeaderValues
routing_headers (single_plan id pod address hit depth policy) = record {
  request_id = id;
  mode = single_mode;
  target_pod_id = some (to_string pod);
  prefill_pod_id = none;
  decode_pod_id = none;
  cache_hit = hit;
  cache_prefix_depth = depth;
  cache_namespace = none;
  route_policy = policy;
}
routing_headers (disaggregated_plan id address prefill_pod decode_pod hit depth policy) = record {
  request_id = id;
  mode = disaggregated_mode;
  target_pod_id = none;
  prefill_pod_id = some (to_string prefill_pod);
  decode_pod_id = some (to_string decode_pod);
  cache_hit = hit;
  cache_prefix_depth = depth;
  cache_namespace = none;
  route_policy = policy;
}

-- The headers of a plan, with the namespace of the request.
abbrev pub announced : RoutingPlan → Text → RoutingHeaderValues
announced plan namespace = record (routing_headers plan) { cache_namespace = some namespace }

-- The values of a plan with an id and a policy pass the validation: the ids of its pods are those
-- of its mode.
pub announced-IsComplete :
    (plan : RoutingPlan) (namespace : Text)
    → is_empty (request_id plan) ≡ false
    → is_empty (route_policy plan) ≡ false
    → IsComplete (announced plan namespace)
unfolding routing_headers request_id route_policy text_or_default
announced-IsComplete (single_plan id pod address hit depth policy) namespace v w =
    (v, w, (is_empty-to_string pod, refl, refl))
announced-IsComplete (disaggregated_plan id address p d hit depth policy) namespace v w =
    (v, w, (is_empty-to_string p, is_empty-to_string d, refl))

hit-writable :
    {H V : Type 0} (hm : HeaderMaps H V) (law : IsHeaderMap hm) (b : Bool)
    → (v : V) × (hm.from_str (if b then chars "true" else chars "false") ≡ some v)
hit-writable hm law true = law.from_str-visible (chars "true") (omega arith)
hit-writable hm law false = law.from_str-visible (chars "false") (omega arith)

-- The texts of a plan's headers may stand in headers, if its id, policy and namespace may.
pub announced-AllWritable :
    {H V : Type 0} (hm : HeaderMaps H V) (law : IsHeaderMap hm) (plan : RoutingPlan)
    (namespace : Text)
    → ((v : V) × (hm.from_str (request_id plan) ≡ some v))
    → ((v : V) × (hm.from_str (route_policy plan) ≡ some v))
    → ((v : V) × (hm.from_str namespace ≡ some v))
    → AllWritable hm (fields (announced plan namespace))
unfolding routing_headers request_id route_policy text_or_default as_str
announced-AllWritable hm law (single_plan id pod address hit depth policy) namespace i p n = (
  i,
  (
    law.from_str-visible (chars "single") (omega arith),
    (
      hit-writable hm law hit,
      (
        law.from_str-visible (to_string depth) (to_string-IsVisible depth),
        (p, (n, (law.from_str-visible (to_string pod) (to_string-IsVisible pod), tt))),
      ),
    ),
  ),
)
announced-AllWritable hm law (disaggregated_plan id address pod decode hit depth policy) namespace i
      p n =
    (
      i,
      (
        law.from_str-visible (chars "disaggregated") (omega arith),
        (
          hit-writable hm law hit,
          (
            law.from_str-visible (to_string depth) (to_string-IsVisible depth),
            (
              p,
              (
                n,
                (
                  law.from_str-visible (to_string pod) (to_string-IsVisible pod),
                  (law.from_str-visible (to_string decode) (to_string-IsVisible decode), tt),
                ),
              ),
            ),
          ),
        ),
      ),
    )
