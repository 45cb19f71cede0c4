-- ===== src/Routing/Pipeline/Staged.antt =====
-- What the plan of a request to a prefill pod and a decode pod says.
use calinix.Bitmap
use calinix.Bitmap.{HostBitmap}
use calinix.Prelude.Results.{Result, err, ok, ◌>>=◌, bind-ok, err-ok, ok-injective}
use calinix.Query.Lengths.{depth_of}
use calinix.Routing.{
  needs_prefill, needs_decode, disaggregated_plan, RoutePolicy, RoutingPlan, candidates_for_role,
}
use calinix.Routing.Pipeline.{plan_disaggregated, plan_decode, build_disaggregated_plan}
use calinix.Routing.Score.{
  Floats, IsOrder, CandidateScore, ScoreStage, RoutingContext, RoutingError, missing_pod,
}
use calinix.Session.{StickyStore}
use calinix.Upstream.{PodEndpoint, UpstreamCatalog, RuntimeRegistry, pod_at, total_pods}
use calinix.Upstream.Load.{LoadState}
use calinix.Routing.Pipeline.Planned.{GroupWords, IsPicked, pick_for_role-IsPicked}
use calinix.Prelude.{ℕ, ◌<◌, min, ◌≡◌, refl, sym, inl, inr, true, none, some, ltb, Option-cases}

-- A plan for two pods: a prefill pod that is picked with its depth, at whose address the request
-- starts, and a decode pod that is a candidate for decoding.
abbrev pub IsDisaggregated :
    RuntimeRegistry
    → UpstreamCatalog
    → RoutePolicy
    → LoadState
    → HostBitmap
    → RoutingContext
    → RoutingPlan
    → Type 0
IsDisaggregated registry upstreams route_policy loads alive ctx plan =
    let prefill_pods = candidates_for_role upstreams loads needs_prefill route_policy alive in
    let decode_pods = candidates_for_role upstreams loads needs_decode route_policy alive in
    (prefill_id : ℕ) × (decode_id : ℕ) × (depth : ℕ) × (pod : PodEndpoint) × (plan
      ≡ disaggregated_plan ctx.request_id pod.address prefill_id decode_id (ltb 0 depth) depth
          route_policy.name)
    × (pod_at upstreams prefill_id ≡ some pod)
    × (Bitmap.contains prefill_pods prefill_id ≡ true)
    × (Bitmap.contains decode_pods decode_id ≡ true)
    × (prefill_id < min (total_pods registry) 256
        → depth
          ≡ depth_of registry.cache_registry.block_index ctx.cumulative_hashes prefill_pods
              prefill_id)

module _ {F : Type 0} (fl : Floats F) (registry : RuntimeRegistry) (upstreams : UpstreamCatalog)
    (route_policy : RoutePolicy) (loads : LoadState) (sticky : StickyStore) (score : ScoreStage F)
    (alive : HostBitmap) (ctx : RoutingContext) (order : IsOrder fl)
    (words : GroupWords upstreams) where
  plan_decode-IsDisaggregated :
      (picked : Result RoutingError (CandidateScore F))
      → ((s : CandidateScore F)
          → picked ≡ ok s
          → IsPicked fl registry upstreams route_policy loads sticky score alive ctx order words
              needs_prefill s.pod_id s.cache_prefix_depth)
      → (r : Result RoutingError RoutingPlan) × (plan_decode fl registry upstreams route_policy
            loads sticky score alive ctx picked
          ≡ some r)
        × ((plan : RoutingPlan)
            → r ≡ ok plan
            → IsDisaggregated registry upstreams route_policy loads alive ctx plan)
  unfolding plan_decode plan_disaggregated
  plan_decode-IsDisaggregated (err e) given = (err e, refl, λ plan h. err-ok h)
  plan_decode-IsDisaggregated (ok s) given = elim (Option-cases (pod_at upstreams s.pod_id)) [
    | inl missing ↦ (err (missing_pod s.pod_id), rw (missing, plan_decode), λ plan h. err-ok h)
    | inr (pod, found) ↦
        let (decoded, run, is_picked) =
          pick_for_role-IsPicked fl registry upstreams route_policy loads sticky score alive ctx
            order words needs_decode (some s.pod_id) in
        (
          (decoded >>= plan_disaggregated fl route_policy ctx s pod),
          rw (found, run, plan_decode),
          λ plan h.
              let (d, chosen, planned) =
                bind-ok decoded (plan_disaggregated fl route_policy ctx s pod) plan h in
              let (candidate, entry) = given s refl in
              (
                s.pod_id,
                d.pod_id,
                s.cache_prefix_depth,
                pod,
                sym (ok-injective {E = RoutingError} planned),
                found,
                candidate,
                (is_picked d chosen).0,
                entry,
              ),
        )
  ]

-- For groups in u64 words and floating-point numbers whose `total_cmp` is an order, planning for two
-- pods never faults. A plan names a prefill pod of the catalog that is a candidate for prefill, its
-- address, a decode pod that is a candidate for decode, and the depth of the prefill pod, for a pod
-- id within the table; the cache is hit exactly if that depth is positive.
pub build_disaggregated_plan-IsDisaggregated :
    {F : Type 0} (fl : Floats F) (registry : RuntimeRegistry) (upstreams : UpstreamCatalog)
    (route_policy : RoutePolicy) (loads : LoadState) (sticky : StickyStore) (score : ScoreStage F)
    (alive : HostBitmap) (ctx : RoutingContext)
    → IsOrder fl
    → GroupWords upstreams
    → (r : Result RoutingError RoutingPlan) × (build_disaggregated_plan fl registry upstreams
          route_policy loads sticky score alive ctx
        ≡ some r)
      × ((plan : RoutingPlan)
          → r ≡ ok plan
          → IsDisaggregated registry upstreams route_policy loads alive ctx plan)
unfolding build_disaggregated_plan
build_disaggregated_plan-IsDisaggregated fl registry upstreams route_policy loads sticky score alive
      ctx order words =
    let (picked, run, is_picked) =
      pick_for_role-IsPicked fl registry upstreams route_policy loads sticky score alive ctx order
        words needs_prefill none in
    let (r, rest, planned) =
      plan_decode-IsDisaggregated fl registry upstreams route_policy loads sticky score alive ctx
        order words picked is_picked in
    (r, rw (run, build_disaggregated_plan) rest, planned)
