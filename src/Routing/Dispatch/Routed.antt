-- ===== src/Routing/Dispatch/Routed.antt =====
-- What a routed request holds.
use calinix.Hash.{Text}
use calinix.Http.{HeaderMaps, IsHeaderMap}
use calinix.Prelude.Results.{Result, err, ok, ◌>>=◌, bind-ok, ok-injective, err-ok, Result-cases}
use calinix.Protocol.{
  CalinixMode, single_mode, disaggregated_mode, HeaderError, inject_routing_headers,
}
use calinix.Protocol.Injected.{
  IsInjected, inject_routing_headers-IsInjected, inject_routing_headers-ok,
}
use calinix.Protocol.OpenAi.{OpenAiRequestDto}
use calinix.Routing.{RoutingPlan, request_id}
use calinix.Routing.Dispatch.{
  RoutedRequest, RoutingPipeline, build_plan, routed_with, inject_plan, route_prepared,
  route_openai_request,
}
use calinix.Routing.Headers.{announced, route_policy, announced-IsComplete, announced-AllWritable}
use calinix.Text.Literals.{is_empty}
use calinix.Routing.Pipeline.{available_pods}
use calinix.Routing.Pipeline.Planned.{GroupWords, IsSingle, build_single_plan-depth_of}
use calinix.Routing.Pipeline.Staged.{IsDisaggregated, build_disaggregated_plan-IsDisaggregated}
use calinix.Routing.Prepare.{PrepareInput, PrepareStage, run}
use calinix.Routing.Score.{Floats, IsOrder, RoutingContext, RoutingError}
use calinix.Session.{StickyStore}
use calinix.Upstream.{RuntimeRegistry}
use calinix.Upstream.Load.{LoadState}
use calinix.Prelude.{ℕ, ◌≡◌, refl, sym, subst, inl, inr, false, Option, some, List}

-- The plan that the mode of the context asks for.
abbrev pub IsPlanFor :
    {F : Type 0}
    → RoutingPipeline F
    → RuntimeRegistry
    → LoadState
    → RoutingContext
    → CalinixMode
    → RoutingPlan
    → Type 0
IsPlanFor pipeline registry loads ctx single_mode plan =
    IsSingle registry registry.upstreams pipeline.route_policy loads
      (available_pods registry pipeline.route_policy.require_healthy) ctx plan
IsPlanFor pipeline registry loads ctx disaggregated_mode plan =
    IsDisaggregated registry registry.upstreams pipeline.route_policy loads
      (available_pods registry pipeline.route_policy.require_healthy) ctx plan

build_plan-IsPlanFor :
    {F : Type 0} (fl : Floats F) (pipeline : RoutingPipeline F) (registry : RuntimeRegistry)
    (loads : LoadState) (sticky : StickyStore) (ctx : RoutingContext) (mode : CalinixMode)
    → IsOrder fl
    → GroupWords registry.upstreams
    → (r : Result RoutingError RoutingPlan) × (build_plan fl pipeline registry loads sticky ctx mode
        ≡ some r)
      × ((plan : RoutingPlan) → r ≡ ok plan → IsPlanFor pipeline registry loads ctx mode plan)
unfolding build_plan
build_plan-IsPlanFor fl pipeline registry loads sticky ctx single_mode order words =
    build_single_plan-depth_of fl registry registry.upstreams pipeline.route_policy loads sticky
      pipeline.score_stage (available_pods registry pipeline.route_policy.require_healthy) ctx order
      words
build_plan-IsPlanFor fl pipeline registry loads sticky ctx disaggregated_mode order words =
    build_disaggregated_plan-IsDisaggregated fl registry registry.upstreams pipeline.route_policy
      loads sticky pipeline.score_stage
      (available_pods registry pipeline.route_policy.require_healthy) ctx order words

-- A routing that ends well has injected its headers.
routed_with-ok :
    {H : Type 0} (cause : Text) (ctx : RoutingContext) (plan : RoutingPlan)
    (injected : H × Result HeaderError (Unit {0})) (routed : RoutedRequest H)
    → routed_with cause ctx plan injected ≡ ok routed
    → (injected.1 ≡ ok tt)
      × (routed ≡ record {
        plan = plan;
        forwarding_headers = injected.0;
        session_key = ctx.openai.session_key;
        cumulative_hashes = ctx.cumulative_hashes;
      })
unfolding routed_with
routed_with-ok cause ctx plan (h, err e) routed done = err-ok done
routed_with-ok cause ctx plan (h, ok _) routed done =
    (refl, sym (ok-injective {E = RoutingError} done))

-- A request that is routed: its plan, its session and hashes, and the headers that are forwarded.
abbrev pub IsRouted :
    {F H V : Type 0}
    → HeaderMaps H V
    → RoutingPipeline F
    → RuntimeRegistry
    → LoadState
    → H
    → RoutingContext
    → RoutedRequest H
    → Type 0
IsRouted hm pipeline registry loads headers ctx routed =
    IsPlanFor pipeline registry loads ctx ctx.mode routed.plan
    × IsInjected hm headers routed.forwarding_headers (announced routed.plan ctx.cache_namespace)
    × (routed.session_key ≡ ctx.openai.session_key)
    × (routed.cumulative_hashes ≡ ctx.cumulative_hashes)

module _ {F : Type 0} (fl : Floats F) {H V : Type 0} (hm : HeaderMaps H V) (cause : Text)
    (law : IsHeaderMap hm) (pipeline : RoutingPipeline F) (registry : RuntimeRegistry)
    (loads : LoadState) (sticky : StickyStore) (order : IsOrder fl)
    (words : GroupWords registry.upstreams) where
  inject_plan-IsRouted :
      (headers : H) (ctx : RoutingContext) (plan : RoutingPlan) (routed : RoutedRequest H)
      → IsPlanFor pipeline registry loads ctx ctx.mode plan
      → inject_plan hm cause ctx headers plan ≡ ok routed
      → IsRouted hm pipeline registry loads headers ctx routed
  unfolding inject_plan
  inject_plan-IsRouted headers ctx plan routed planned done =
      let values = announced plan ctx.cache_namespace in
      let (injected, same) =
        routed_with-ok cause ctx plan (inject_routing_headers hm values headers) routed done in
      let (complete, writable) = inject_routing_headers-ok hm values headers injected in
      subst (IsRouted hm pipeline registry loads headers ctx) (sym same) (
        planned,
        (inject_routing_headers-IsInjected hm law values headers complete writable).1,
        refl,
        refl,
      )

  route_prepared-IsRouted :
      (headers : H) (ctx : RoutingContext)
      → (r : Result RoutingError (RoutedRequest H)) × (route_prepared fl hm cause pipeline registry
            loads sticky headers ctx
          ≡ some r)
        × ((routed : RoutedRequest H)
            → r ≡ ok routed
            → IsRouted hm pipeline registry loads headers ctx routed)
  unfolding route_prepared
  route_prepared-IsRouted headers ctx =
      let (planned, run, is_plan) =
        build_plan-IsPlanFor fl pipeline registry loads sticky ctx ctx.mode order words in
      (
        (planned >>= inject_plan hm cause ctx headers),
        rw (run, route_prepared),
        λ routed done.
            let (plan, made, injected) =
              bind-ok planned (inject_plan hm cause ctx headers) routed done in
            inject_plan-IsRouted headers ctx plan routed (is_plan plan made) injected,
      )

pub route_openai_request-IsRouted :
    {F : Type 0} (fl : Floats F) {H V : Type 0} (hm : HeaderMaps H V) (cause : Text)
    (from_slice : List ℕ → Option OpenAiRequestDto) (pipeline : RoutingPipeline F)
    (nanos counter : ℕ) (registry : RuntimeRegistry) (loads : LoadState) (sticky : StickyStore)
    (input : PrepareInput H)
    → IsHeaderMap hm
    → IsOrder fl
    → GroupWords registry.upstreams
    → let stage : PrepareStage = record {
      default_mode = pipeline.default_mode;
      block_size = pipeline.block_size;
    } in
      (answer : Result RoutingError (RoutedRequest H) × ℕ) × (route_openai_request fl hm cause
          from_slice pipeline nanos counter registry loads sticky input
        ≡ some answer)
      × ((routed : RoutedRequest H)
          → answer.0 ≡ ok routed
          → (ctx : RoutingContext) × (run hm from_slice stage nanos counter input
              ≡ ok (ctx, answer.1))
            × IsRouted hm pipeline registry loads input.headers ctx routed)
unfolding route_openai_request
route_openai_request-IsRouted fl hm cause from_slice pipeline nanos counter registry loads sticky
      input law order words =
    let stage : PrepareStage = record {
      default_mode = pipeline.default_mode;
      block_size = pipeline.block_size;
    } in
    elim (Result-cases (run hm from_slice stage nanos counter input)) [
      | inl (e, refused) ↦
          ((err e, counter), rw (refused, route_openai_request), λ routed done. err-ok done)
      | inr ((ctx, counter'), prepared) ↦
          let (r, done, is_routed) =
            route_prepared-IsRouted fl hm cause law pipeline registry loads sticky order words
              input.headers ctx in
          (
            (r, counter'),
            rw (prepared, done, route_openai_request),
            λ routed same. (ctx, prepared, is_routed routed same),
          )
    ]

routed_with-done :
    {H : Type 0} (cause : Text) (ctx : RoutingContext) (plan : RoutingPlan)
    (injected : H × Result HeaderError (Unit {0}))
    → injected.1 ≡ ok tt
    → (routed : RoutedRequest H) × (routed_with cause ctx plan injected ≡ ok routed)
unfolding routed_with
routed_with-done cause ctx plan (h, err e) done = err-ok done
routed_with-done cause ctx plan (h, ok _) done = (_, refl)

-- A plan is never refused for its pods: if its id and policy are not empty, and these and the
-- namespace may stand in a header, the injection succeeds and the request is routed.
pub inject_plan_succeeds :
    {H V : Type 0} (hm : HeaderMaps H V) (cause : Text) (ctx : RoutingContext) (headers : H)
    (plan : RoutingPlan)
    → IsHeaderMap hm
    → is_empty (request_id plan) ≡ false
    → is_empty (route_policy plan) ≡ false
    → ((v : V) × (hm.from_str (request_id plan) ≡ some v))
    → ((v : V) × (hm.from_str (route_policy plan) ≡ some v))
    → ((v : V) × (hm.from_str ctx.cache_namespace ≡ some v))
    → (routed : RoutedRequest H) × (inject_plan hm cause ctx headers plan ≡ ok routed)
unfolding inject_plan
inject_plan_succeeds hm cause ctx headers plan law id policy i p n =
    let values = announced plan ctx.cache_namespace in
    routed_with-done cause ctx plan (inject_routing_headers hm values headers)
      (inject_routing_headers-IsInjected hm law values headers
        (announced-IsComplete plan ctx.cache_namespace id policy)
        (announced-AllWritable hm law plan ctx.cache_namespace i p n)).0
