-- ===== src/App/Endpoint/Answered.antt =====
-- A proxied request from its arrival to its response.
use calinix.App.{AppState}
use calinix.App.Endpoint.{
  is_success, learn, answer, EndpointResponse, body_unreadable, bad_request_for, bad_gateway,
  relayed, openai_compatible_endpoint, after_routing, proxied_request,
}
use calinix.Hash.{Text}
use calinix.Http.{HeaderMaps, IsHeaderMap}
use calinix.Prelude.Results.{Result, err, ok}
use calinix.Protocol.OpenAi.{OpenAiRequestDto}
use calinix.Proxy.{
  unknown_pod, UpstreamRequest, UpstreamResponse, Exchange, ForwardError, forward_with_fallback,
}
use calinix.Proxy.Tracked.{forward_with_fallback-inflight}
use calinix.Routing.Dispatch.{RoutedRequest, RoutingPipeline}
use calinix.Routing.Dispatch.Routed.{route_openai_request-IsRouted}
use calinix.Routing.Pipeline.Planned.{GroupWords}
use calinix.Routing.Prepare.{PrepareInput}
use calinix.Routing.Score.{Floats, IsOrder, RoutingError}
use calinix.Upstream.Load.{inflight}
use calinix.Upstream.Load.Guards.{Runs, held_for, inflight-held_for}
use calinix.Upstream.Load.Others.{Turn, run_turns, held_all, AreTurns}
use calinix.Prelude.{
  ℕ, ◌-◌, ◌^◌, ◌<◌, ◌≡◌, refl, sym, ap, ◌∙◌, subst, ◌⊎◌, inl, inr, Option, none, some, List,
  Bool-cases, length,
}

-- The responses of requests that are not sent to a pod for want of one: the body was not read, no
-- plan was made, or the plan's pod has no counter.
abbrev pub IsUnsent : {H : Type 0} → EndpointResponse H → Type 0
IsUnsent (bad_request_for e) = Unit {0}
IsUnsent body_unreadable = Unit {0}
IsUnsent (bad_gateway (unknown_pod pod_id)) = Unit {0}
IsUnsent (bad_gateway e) = ⊥
IsUnsent (relayed status headers body) = ⊥

-- Each counter is the number of requests that other tasks have running: those of the start, where no
-- request was sent, or those that are left after what the tasks did while it was forwarded.
abbrev pub Kept : {H : Type 0} → List ℕ → List ℕ → AppState × EndpointResponse H → Type 0
Kept held held' (state, response) =
    (IsUnsent response × ((q : ℕ) → inflight state.loads q ≡ held_for q held))
    ⊎ ((q : ℕ) → inflight state.loads q ≡ held_for q held')

answer-loads :
    {H V : Type 0} (hm : HeaderMaps H V) (state : AppState) (routed : RoutedRequest H)
    (result : Result ForwardError (UpstreamResponse H))
    → (answer hm state routed result).0.loads ≡ state.loads
unfolding answer learn
answer-loads hm state routed (err e) = refl
answer-loads hm state routed (ok upstream) = elim (Bool-cases (is_success upstream.status)) [
  | inl success ↦ rw success refl
  | inr failure ↦ rw failure refl
]

module _ {F : Type 0} (fl : Floats F) {H V U : Type 0} (hm : HeaderMaps H V)
    (parse_uri : Text → Option U) (client : UpstreamRequest H U → Exchange H) (n : ℕ)
    (held : List ℕ) (turns : List Turn) (fair : AreTurns n held turns)
    (room : length held < 2 ^ 64 - 1) (cause : Text)
    (from_slice : List ℕ → Option OpenAiRequestDto) where
  endpoint-Kept :
      (state : AppState) (routed : RoutedRequest H) (method path : Text) (body : List ℕ)
      → Runs n state.loads held
      → Kept held (held_all n held turns) (
          openai_compatible_endpoint hm parse_uri client
            (run_turns turns)
            state
            routed
            method
            path
            body)
  unfolding openai_compatible_endpoint answer
  endpoint-Kept state routed method path body run =
      let forwarded =
        forward_with_fallback hm parse_uri client (run_turns turns) state.loads method routed.plan
          path routed.forwarding_headers body in
      elim (forward_with_fallback-inflight hm parse_uri client n held turns state.loads method
        routed.plan path routed.forwarding_headers body run room fair) [
          | inl (known, counted) ↦ inr (λ q.
              ap (λ l. inflight l q)
                (answer-loads hm (record state { loads = forwarded.0 }) routed forwarded.1)
              ∙ counted q)
          | inr (beyond, unknown) ↦
              subst
                (λ a.
                  Kept held (held_all n held turns)
                    (answer hm (record state { loads = a.0 }) routed a.1))
                (sym unknown) (inl (tt, inflight-held_for n state.loads held run))
        ]

  after_routing-Kept :
      (state : AppState) (method path : Text) (body : List ℕ)
      (routed : Result RoutingError (RoutedRequest H))
      → Runs n state.loads held
      → Kept held (held_all n held turns) (
          after_routing fl hm parse_uri client
            (run_turns turns)
            cause
            from_slice
            state
            method
            path
            body
            routed)
  unfolding after_routing
  after_routing-Kept state method path body (err e) run =
      inl (tt, inflight-held_for n state.loads held run)
  after_routing-Kept state method path body (ok routed) run =
      endpoint-Kept state routed method path body run

-- For groups in u64 words, floating-point numbers whose `total_cmp` is an order and header maps that
-- obey their laws, every request to the proxy is answered, whatever its body, its headers and the
-- client's exchange; and then the request is not left counted: each counter is the number of requests
-- that other tasks have running. Before it, the counters are those of a run of such requests, fewer
-- than 2 ^ 64 - 1 at once; while it is forwarded the other tasks begin requests, fewer than
-- 2 ^ 64 - 1 at once, and end ones that they have begun, in any order. Where the
-- response says that the body was not read, that no plan was made or that the pod is unknown, the
-- requests that are counted may be those of the start; else they are those that are left after all
-- that the tasks did.
pub proxied_request-Kept :
    {F : Type 0} (fl : Floats F) {H V U : Type 0} (hm : HeaderMaps H V)
    (parse_uri : Text → Option U) (client : UpstreamRequest H U → Exchange H) (n : ℕ)
    (held : List ℕ) (turns : List Turn) (cause : Text)
    (from_slice : List ℕ → Option OpenAiRequestDto) (pipeline : RoutingPipeline F)
    (nanos counter : ℕ) (state : AppState) (method path full_path : Text) (headers : H)
    (body : Option (List ℕ))
    → Runs n state.loads held
    → length held < 2 ^ 64 - 1
    → AreTurns n held turns
    → IsHeaderMap hm
    → IsOrder fl
    → GroupWords state.registry.upstreams
    → (reply : (AppState × EndpointResponse H) × ℕ) × (proxied_request fl hm parse_uri client
          (run_turns turns)
          cause
          from_slice
          pipeline
          nanos
          counter
          state
          method
          path
          full_path
          headers
          body
        ≡ some reply)
      × Kept held (held_all n held turns) reply.0
unfolding proxied_request
proxied_request-Kept fl hm parse_uri client n held turns cause from_slice pipeline nanos counter
      state method path full_path headers none run room fair law order words =
    (((state, body_unreadable), counter), refl, inl (tt, inflight-held_for n state.loads held run))
proxied_request-Kept {F} fl {H} hm parse_uri client n held turns cause from_slice pipeline nanos
      counter state method path full_path headers (some body) run room fair law order words =
    let input : PrepareInput H = record {
      path = path;
      method = method;
      headers = headers;
      body = body;
    } in
    let (routed, routes, _) =
      route_openai_request-IsRouted fl hm cause from_slice pipeline nanos counter state.registry
        state.loads state.sticky input law order words in
    (
      (
        after_routing fl hm parse_uri client (run_turns turns) cause from_slice state method
            full_path body routed.0,
        routed.1,
      ),
      rw (routes, proxied_request),
      after_routing-Kept fl hm parse_uri client n held turns fair room cause from_slice state method
          full_path body routed.0 run,
    )
