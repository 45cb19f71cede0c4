-- ===== src/Routing/Dispatch.antt =====
-- src/calinix/routing/pipeline.rs: a request from its parts to the plan and the forwarded headers.
pub mod Routed
use calinix.Bitmap.{HostBitmap}
use calinix.Hash.{Text, BlockHash}
use calinix.Http.{HeaderMaps}
use calinix.Prelude.Results.{Result, err, ok, ◌>>=◌}
use calinix.Protocol.{
  CalinixMode, single_mode, disaggregated_mode, HeaderError, header_error_message,
  inject_routing_headers,
}
use calinix.Protocol.OpenAi.{OpenAiRequestDto}
use calinix.Routing.{RoutePolicy, RoutingPlan}
use calinix.Routing.Headers.{announced}
use calinix.Routing.Pipeline.{available_pods, build_single_plan, build_disaggregated_plan}
use calinix.Routing.Prepare.{PrepareInput, run}
use calinix.Routing.Score.{
  Floats, ScoreStage, ScoreWeights, RoutingContext, RoutingError, invalid_mode,
}
use calinix.Session.{StickyStore}
use calinix.Text.Literals.{chars}
use calinix.Upstream.{RuntimeRegistry, single_name, prefill_name, decode_name}
use calinix.Upstream.Load.{LoadState}
use calinix.Prelude.{
  ℕ, zero, suc, ◌+◌, ◌-◌, ◌*◌, ◌/◌, ◌%◌, ◌^◌, ◌≤◌, ◌<◌, min, max, ◌≡◌, refl, sym, ap, ap₂, ◌∙◌,
  subst, fun_ext, ◌≢◌, ◌↔◌, ◌⊎◌, inl, inr, Bool, true, false, not, ◌&&◌, ◌||◌, Option, none, some,
  List, [], ◌∷◌, ◌++◌, map, append_assoc, append-nil, arith, ltb, leb, ◌==◌, if◌then◌else◌, ltb→lt,
  lt→ltb, leb→le, ==_iff, ==_refl, tests, Bool-cases, Option-cases, length, get_elem?, get_or,
  set as set_elem, take, replicate, length-append, length-set, length-replicate, get_or-replicate,
  get_or-set, get_elem?-get_or, get_elem?-beyond, get_elem?-cases, get_elem?-left, get_elem?-last,
  get_or-beyond, lt_wf,
}

pub record RoutedRequest (H : Type 0) : Type 0 where
  pub plan : RoutingPlan
  pub forwarding_headers : H
  pub session_key : Option Text
  pub cumulative_hashes : List BlockHash

pub record RoutingPipeline (F : Type 0) : Type 0 where
  pub default_mode : CalinixMode
  pub block_size : ℕ
  pub route_policy : RoutePolicy
  pub score_stage : ScoreStage F

abbrev pub default_policy : RoutePolicy
default_policy = record {
  name = chars "default";
  single_upstream = single_name;
  prefill_upstream = prefill_name;
  decode_upstream = decode_name;
  require_healthy = true;
}

module _ {F : Type 0} (fl : Floats F) where
  abbrev hundredths : ℕ → F
  hundredths n = fl.div (fl.of_nat n) (fl.of_nat 100)

  -- `Default for RoutingPipeline`; a weight is written as a number of hundredths.
  abbrev pub default_pipeline : RoutingPipeline F
  default_pipeline = record {
    default_mode = single_mode;
    block_size = 4;
    route_policy = default_policy;
    score_stage = record {
      single_weights = record {
        cache = hundredths 60;
        load = hundredths 30;
        sticky = hundredths 10;
        locality = hundredths 0;
      };
      prefill_weights = record {
        cache = hundredths 65;
        load = hundredths 25;
        sticky = hundredths 10;
        locality = hundredths 0;
      };
      decode_weights = record {
        cache = hundredths 10;
        load = hundredths 55;
        sticky = hundredths 10;
        locality = hundredths 25;
      };
    };
  }

  -- The plan for the mode of the context.
  unfoldable pub build_plan :
      RoutingPipeline F
      → RuntimeRegistry
      → LoadState
      → StickyStore
      → RoutingContext
      → CalinixMode
      → Option (Result RoutingError RoutingPlan)
  build_plan pipeline registry loads sticky ctx single_mode =
      build_single_plan fl registry registry.upstreams pipeline.route_policy loads sticky
        pipeline.score_stage (available_pods registry pipeline.route_policy.require_healthy) ctx
  build_plan pipeline registry loads sticky ctx disaggregated_mode =
      build_disaggregated_plan fl registry registry.upstreams pipeline.route_policy loads sticky
        pipeline.score_stage (available_pods registry pipeline.route_policy.require_healthy) ctx

-- The end of the routing, with the headers after the injection; `cause` is the http crate's message
-- about a text that may not stand in a header.
unfoldable pub routed_with :
    {H : Type 0}
    → Text
    → RoutingContext
    → RoutingPlan
    → H × Result HeaderError (Unit {0})
    → Result RoutingError (RoutedRequest H)
routed_with cause ctx plan (forwarding_headers, err e) =
    err (invalid_mode (header_error_message cause e))
routed_with cause ctx plan (forwarding_headers, ok done) = ok (record {
  plan = plan;
  forwarding_headers = forwarding_headers;
  session_key = ctx.openai.session_key;
  cumulative_hashes = ctx.cumulative_hashes;
})

module _ {H V : Type 0} (hm : HeaderMaps H V) (cause : Text) where
  unfoldable pub inject_plan :
      RoutingContext → H → RoutingPlan → Result RoutingError (RoutedRequest H)
  inject_plan ctx headers plan =
      routed_with cause ctx plan
        (inject_routing_headers hm (announced plan ctx.cache_namespace) headers)

module _ {F : Type 0} (fl : Floats F) {H V : Type 0} (hm : HeaderMaps H V) (cause : Text) where
  -- The routing after the preparation.
  unfoldable pub route_prepared :
      RoutingPipeline F
      → RuntimeRegistry
      → LoadState
      → StickyStore
      → H
      → RoutingContext
      → Option (Result RoutingError (RoutedRequest H))
  route_prepared pipeline registry loads sticky headers ctx =
      elim (build_plan fl pipeline registry loads sticky ctx ctx.mode) [
        | none ↦ none
        | some planned ↦ some (planned >>= inject_plan hm cause ctx headers)
      ]

module _ {F : Type 0} (fl : Floats F) {H V : Type 0} (hm : HeaderMaps H V) (cause : Text)
    (from_slice : List ℕ → Option OpenAiRequestDto) where
  -- The result, with the counter of ids after it. `none` is a fault of the prefix query.
  unfoldable pub route_openai_request :
      RoutingPipeline F
      → ℕ
      → ℕ
      → RuntimeRegistry
      → LoadState
      → StickyStore
      → PrepareInput H
      → Option (Result RoutingError (RoutedRequest H) × ℕ)
  route_openai_request pipeline nanos counter registry loads sticky input =
      elim (run hm from_slice
        (record { default_mode = pipeline.default_mode; block_size = pipeline.block_size }) nanos
        counter input) [
          | err e ↦ some (err e, counter)
          | ok prepared ↦
              elim (route_prepared fl hm cause pipeline registry loads sticky input.headers
                prepared.0) [ none ↦ none | some routed ↦ some (routed, prepared.1) ]
        ]
