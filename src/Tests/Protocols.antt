-- ===== src/Tests/Protocols.antt =====
-- The headers of a plan and the view of a request, with header maps as lists of entries.
use calinix.Hash.{Text}
use calinix.Prelude.Results.{Result, err, ok}
use calinix.Protocol.{
  RoutingHeaderValues, HeaderError, invalid_value, single_mode, validate, inject_routing_headers,
}
use calinix.Protocol.Injected.{inject_routing_headers_refuses}
use calinix.Protocol.OpenAi.{OpenAiRequestDto, text_prompt}
use calinix.Protocol.Validated.{IsComplete, validate-IsComplete}
use calinix.Protocol.Writes.{AllWritable, fields}
use calinix.Routing.{RoutingPlan, single_plan, request_id}
use calinix.Routing.Headers.{
  announced, routing_headers, route_policy, announced-IsComplete, announced-AllWritable,
}
use calinix.Routing.Prepare
use calinix.Routing.Prepare.{new_request_id, requested_mode}
use calinix.Routing.Prepare.Requested.{requested-inject_routing_headers}
use calinix.Tests.Headers.{Entries, entry_lists, entry_lists-IsHeaderMap}
use calinix.Text.Literals.{chars, is_empty}
use calinix.Prelude.{ℕ, ◌≡◌, refl, ◌↔◌, true, false, Option, none, some, List, [], ◌∷◌, arith}

abbrev pub small_plan : RoutingPlan
small_plan = single_plan (chars "r1") 0 (chars "http://h:80/p") true 2 (chars "default")

abbrev pub small_namespace : Text
small_namespace = chars "openai:m:whitespace-v1:block-4"

abbrev pub small_values : RoutingHeaderValues
small_values = announced small_plan small_namespace

-- A client that sends a header of the router, and one of its own twice.
abbrev pub small_headers : Entries
small_headers =
    (chars "x-calinix-mode", chars "disaggregated")
    ∷ (chars "accept", chars "a")
    ∷ (chars "accept", chars "b")
    ∷ []

pub small_values-IsComplete : IsComplete small_values
unfolding is_empty request_id route_policy
small_values-IsComplete = announced-IsComplete small_plan small_namespace refl refl

pub small_values-AllWritable : AllWritable entry_lists (fields small_values)
unfolding request_id route_policy
small_values-AllWritable =
    announced-AllWritable entry_lists entry_lists-IsHeaderMap small_plan small_namespace
      (entry_lists-IsHeaderMap.from_str-visible (chars "r1") (omega arith))
      (entry_lists-IsHeaderMap.from_str-visible (chars "default") (omega arith))
      (entry_lists-IsHeaderMap.from_str-visible small_namespace (omega arith))

validate-IsComplete_example : (validate small_values ≡ ok tt) ↔ IsComplete small_values
validate-IsComplete_example = validate-IsComplete small_values

abbrev pub injected : Entries × Result HeaderError (Unit {0})
injected = inject_routing_headers entry_lists small_values small_headers

-- A plan without an id.
abbrev nameless : RoutingHeaderValues
nameless = record {
  request_id = [];
  mode = single_mode;
  target_pod_id = some (chars "0");
  prefill_pod_id = none;
  decode_pod_id = none;
  cache_hit = false;
  cache_prefix_depth = 0;
  cache_namespace = none;
  route_policy = chars "default";
}

inject_routing_headers_refuses_example :
    (¬ IsComplete nameless
      → (e : HeaderError) × (validate nameless ≡ err e)
        × (inject_routing_headers entry_lists nameless small_headers ≡ (small_headers, err e)))
    × (IsComplete nameless
        → ¬ AllWritable entry_lists (fields nameless)
        → (inject_routing_headers entry_lists nameless small_headers).1 ≡ err invalid_value)
inject_routing_headers_refuses_example =
    inject_routing_headers_refuses entry_lists nameless small_headers

requested-inject_routing_headers_example :
    (requested_mode entry_lists injected.0 ≡ ok (some single_mode))
    × (Prepare.request_id entry_lists 9 1 injected.0 ≡ (chars "r1", 1))
unfolding routing_headers
requested-inject_routing_headers_example =
    requested-inject_routing_headers entry_lists entry_lists-IsHeaderMap small_values small_headers
      9 1 small_values-IsComplete small_values-AllWritable (omega arith)

-- The body `{` with a prompt, as the parser gives it.
abbrev small_body : List ℕ
small_body = 123 ∷ []

abbrev pub small_parser : List ℕ → Option OpenAiRequestDto
small_parser body = some (record {
  model = some (chars "m");
  stream = false;
  user = some (chars "u");
  messages = none;
  prompt = some (text_prompt (chars "a b"));
  input = none;
})
