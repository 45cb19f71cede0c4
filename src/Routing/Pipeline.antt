-- ===== src/Routing/Pipeline.antt =====
-- src/calinix/routing/pipeline.rs: the plan of a request to a single pod, and the pods to choose
-- from. `none` is a fault of the prefix query.
pub mod Planned
pub mod Staged
use calinix.Bitmap
use calinix.Bitmap.{HostBitmap}
use calinix.Prelude.Results.{Result, err, ok, ◌>>=◌}
use calinix.Registry
use calinix.Registry.{prefix_lengths_into}
use calinix.Routing.{
  RequiredRole, needs_single, needs_prefill, needs_decode, RoutePolicy, RoutingPlan, single_plan,
  disaggregated_plan, candidates_for_role,
}
use calinix.Routing.Score.{
  Floats, CandidateScore, ScoreStage, RoutingContext, RoutingError, missing_pod, best_candidate,
}
use calinix.Session.{StickyStore}
use calinix.Upstream.{PodEndpoint, UpstreamCatalog, RuntimeRegistry, pod_at, total_pods}
use calinix.Upstream.Load.{LoadState}
use calinix.Prelude.{
  ℕ, zero, suc, ◌+◌, ◌-◌, ◌*◌, ◌/◌, ◌%◌, ◌^◌, ◌≤◌, ◌<◌, min, max, ◌≡◌, refl, sym, ap, ap₂, ◌∙◌,
  subst, fun_ext, ◌≢◌, ◌↔◌, ◌⊎◌, inl, inr, Bool, true, false, not, ◌&&◌, ◌||◌, Option, none, some,
  List, [], ◌∷◌, ◌++◌, map, append_assoc, append-nil, arith, ltb, leb, ◌==◌, if◌then◌else◌, ltb→lt,
  lt→ltb, leb→le, ==_iff, ==_refl, tests, Bool-cases, Option-cases, length, get_elem?, get_or,
  set as set_elem, take, replicate, length-append, length-set, length-replicate, get_or-replicate,
  get_or-set, get_elem?-get_or, get_elem?-beyond, get_elem?-cases, get_elem?-left, get_elem?-last,
  get_or-beyond, lt_wf,
}

abbrev pub inline_cache_depths : ℕ
inline_cache_depths = 32

abbrev pub max_cache_depths : ℕ
max_cache_depths = 256

pub data CacheDepthStorage : Type 0 where
  inline_storage : List ℕ → ℕ → CacheDepthStorage
  heap_storage : List ℕ → CacheDepthStorage

unfoldable pub depth_storage : ℕ → CacheDepthStorage
depth_storage len =
    if leb len inline_cache_depths
    then inline_storage (replicate inline_cache_depths 0) len
    else heap_storage (replicate len 0)

unfoldable pub as_mut_slice : CacheDepthStorage → List ℕ
as_mut_slice (inline_storage slots len) = take len slots
as_mut_slice (heap_storage slots) = slots

unfoldable pub set_all : List PodEndpoint → HostBitmap → HostBitmap
set_all [] configured = configured
set_all (pod ∷ pods) configured = set_all pods (Bitmap.set configured pod.id)

unfoldable pub all_configured_pods : RuntimeRegistry → HostBitmap
all_configured_pods registry = set_all registry.pod_table.pods Bitmap.empty

unfoldable pub available_pods : RuntimeRegistry → Bool → HostBitmap
available_pods registry require_healthy =
    if not require_healthy
    then all_configured_pods registry
    else registry.cache_registry.block_index.alive

module _ {F : Type 0} (fl : Floats F) where
  -- The best candidate for a role, by the depths of the candidates' prefixes.
  unfoldable pub pick_for_role :
      RuntimeRegistry
      → UpstreamCatalog
      → RoutePolicy
      → LoadState
      → StickyStore
      → ScoreStage F
      → HostBitmap
      → RoutingContext
      → RequiredRole
      → Option ℕ
      → Option (Result RoutingError (CandidateScore F))
  pick_for_role registry upstreams route_policy loads sticky score alive ctx role selected_prefill =
      let candidates = candidates_for_role upstreams loads role route_policy alive in
      let cache_depths =
        as_mut_slice (depth_storage (min (total_pods registry) max_cache_depths)) in
      elim (prefix_lengths_into registry.cache_registry ctx.cumulative_hashes candidates
        cache_depths) [
          | none ↦ none
          | some depths ↦ some (
              best_candidate fl score ctx role candidates depths upstreams loads sticky
                selected_prefill)
        ]

  -- The end of the plan, for the picked candidate.
  unfoldable pub plan_single :
      UpstreamCatalog
      → RoutePolicy
      → RoutingContext
      → CandidateScore F
      → Result RoutingError RoutingPlan
  plan_single upstreams route_policy ctx picked = elim (pod_at upstreams picked.pod_id) [
    | none ↦ err (missing_pod picked.pod_id)
    | some pod ↦ ok (
        single_plan ctx.request_id picked.pod_id pod.address (ltb 0 picked.cache_prefix_depth)
          picked.cache_prefix_depth route_policy.name)
  ]

  unfoldable pub build_single_plan :
      RuntimeRegistry
      → UpstreamCatalog
      → RoutePolicy
      → LoadState
      → StickyStore
      → ScoreStage F
      → HostBitmap
      → RoutingContext
      → Option (Result RoutingError RoutingPlan)
  build_single_plan registry upstreams route_policy loads sticky score alive ctx =
      elim (pick_for_role registry upstreams route_policy loads sticky score alive ctx needs_single
        none) [
          | none ↦ none
          | some picked ↦ some (picked >>= plan_single upstreams route_policy ctx)
        ]

  -- The end of the plan for two pods.
  unfoldable pub plan_disaggregated :
      RoutePolicy
      → RoutingContext
      → CandidateScore F
      → PodEndpoint
      → CandidateScore F
      → Result RoutingError RoutingPlan
  plan_disaggregated route_policy ctx picked_prefill prefill_pod picked_decode = ok (
      disaggregated_plan ctx.request_id prefill_pod.address picked_prefill.pod_id
        picked_decode.pod_id (ltb 0 picked_prefill.cache_prefix_depth)
        picked_prefill.cache_prefix_depth route_policy.name)

  -- The plan after the prefill pod is picked.
  unfoldable pub plan_decode :
      RuntimeRegistry
      → UpstreamCatalog
      → RoutePolicy
      → LoadState
      → StickyStore
      → ScoreStage F
      → HostBitmap
      → RoutingContext
      → Result RoutingError (CandidateScore F)
      → Option (Result RoutingError RoutingPlan)
  plan_decode registry upstreams route_policy loads sticky score alive ctx (err e) = some (err e)
  plan_decode registry upstreams route_policy loads sticky score alive ctx (ok picked_prefill) =
      elim (pod_at upstreams picked_prefill.pod_id) [
        | none ↦ some (err (missing_pod picked_prefill.pod_id))
        | some prefill_pod ↦
            elim (pick_for_role registry upstreams route_policy loads sticky score alive ctx
              needs_decode (some picked_prefill.pod_id)) [
                | none ↦ none
                | some picked ↦
                    some (picked >>= plan_disaggregated route_policy ctx picked_prefill prefill_pod)
              ]
      ]

  unfoldable pub build_disaggregated_plan :
      RuntimeRegistry
      → UpstreamCatalog
      → RoutePolicy
      → LoadState
      → StickyStore
      → ScoreStage F
      → HostBitmap
      → RoutingContext
      → Option (Result RoutingError RoutingPlan)
  build_disaggregated_plan registry upstreams route_policy loads sticky score alive ctx =
      elim (pick_for_role registry upstreams route_policy loads sticky score alive ctx needs_prefill
        none) [
          | none ↦ none
          | some picked ↦
              plan_decode registry upstreams route_policy loads sticky score alive ctx picked
        ]
