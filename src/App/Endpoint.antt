-- ===== src/App/Endpoint.antt =====
-- src/calinix/app/bootstrap.rs: the proxied requests, from the routing over the forwarding to the
-- response and what the router learns of it.
pub mod Learned
pub mod Returned
pub mod Answered
use calinix.App.{AppState, with_cache}
use calinix.Hash.{Text, BlockHash}
use calinix.Http.{HeaderMaps}
use calinix.Prelude.Results.{Result, err, ok}
use calinix.Protocol.OpenAi.{OpenAiRequestDto}
use calinix.Proxy.{UpstreamRequest, UpstreamResponse, Exchange, ForwardError, forward_with_fallback}
use calinix.Registry
use calinix.Routing.Dispatch.{RoutedRequest, RoutingPipeline, route_openai_request}
use calinix.Routing.Prepare.{PrepareInput}
use calinix.Routing.Score.{Floats, RoutingError}
use calinix.Session
use calinix.Session.{StickyStore}
use calinix.Text.{same_text, strip_prefix}
use calinix.Text.Literals.{chars}
use calinix.Upstream.Load.{LoadState}
use calinix.Prelude.{
  ℕ, zero, suc, ◌+◌, ◌-◌, ◌*◌, ◌/◌, ◌%◌, ◌^◌, ◌≤◌, ◌<◌, min, max, ◌≡◌, refl, sym, ap, ap₂, ◌∙◌,
  subst, fun_ext, ◌≢◌, ◌↔◌, ◌⊎◌, inl, inr, Bool, true, false, not, ◌&&◌, ◌||◌, Option, none, some,
  List, [], ◌∷◌, ◌++◌, map, append_assoc, append-nil, arith, ltb, leb, ◌==◌, if◌then◌else◌, ltb→lt,
  lt→ltb, leb→le, ==_iff, ==_refl, tests, Bool-cases, Option-cases, length, get_elem?, get_or,
  set as set_elem, take, replicate, length-append, length-set, length-replicate, get_or-replicate,
  get_or-set, get_elem?-get_or, get_elem?-beyond, get_elem?-cases, get_elem?-left, get_elem?-last,
  get_or-beyond, lt_wf,
}

-- `StatusCode::is_success`
unfoldable pub is_success : ℕ → Bool
is_success status = leb 200 status && leb status 299

unfoldable pub is_hop_by_hop_response_header : Text → Bool
is_hop_by_hop_response_header name =
    same_text name (chars "connection")
    || (same_text name (chars "keep-alive")
        || (same_text name (chars "proxy-authenticate")
            || (same_text name (chars "proxy-authorization")
                || (same_text name (chars "te")
                    || (same_text name (chars "trailer")
                        || (same_text name (chars "transfer-encoding")
                            || (same_text name (chars "upgrade")
                                || same_text name (chars "content-length"))))))))

-- `name.as_str().starts_with("x-calinix-")`
unfoldable pub is_router_header : Text → Bool
is_router_header name = elim (strip_prefix (chars "x-calinix-") name) [
  | none ↦ false
  | some rest ↦ true
]

-- The responses: an error with its status, or the answer of the pod.
pub data EndpointResponse (H : Type 0) : Type 0 where
  bad_request_for : RoutingError → EndpointResponse H
  body_unreadable : EndpointResponse H
  bad_gateway : ForwardError → EndpointResponse H
  relayed : ℕ → H → List ℕ → EndpointResponse H

-- `if let Some(session_key) = routed.session_key`
unfoldable pub remember_session : StickyStore → Option Text → ℕ → StickyStore
remember_session sticky none pod_id = sticky
remember_session sticky (some session_key) pod_id = Session.remember sticky session_key pod_id

-- What a successful answer changes.
unfoldable pub learn : AppState → ℕ → List BlockHash → Option Text → AppState
learn state pod_id cumulative_hashes session_key =
    let alive = Registry.mark_pod_alive state.registry.cache_registry pod_id in
    let cached = with_cache state (Registry.register_chain alive pod_id cumulative_hashes).0 in
    record cached { sticky = remember_session state.sticky session_key pod_id }

module _ {H V : Type 0} (hm : HeaderMaps H V) where
  -- The loop over the pod's headers.
  unfoldable pub relay_headers : List (Text × V) → H → H
  relay_headers [] response = response
  relay_headers ((name, value) ∷ entries) response =
      relay_headers entries
        (if is_hop_by_hop_response_header name then response else hm.append response name value)

  -- The loop over the forwarded headers.
  unfoldable pub add_router_headers : List (Text × V) → H → H
  add_router_headers [] response = response
  add_router_headers ((name, value) ∷ entries) response =
      add_router_headers entries
        (if is_router_header name then hm.append response name value else response)

  unfoldable pub response_headers : H → H → H
  response_headers upstream forwarded =
      add_router_headers (hm.entries forwarded) (relay_headers (hm.entries upstream) hm.empty)

  -- The match on the answer. The builder of the response gets valid headers, so that it does not
  -- fail.
  unfoldable pub answer :
      AppState
      → RoutedRequest H
      → Result ForwardError (UpstreamResponse H)
      → AppState × EndpointResponse H
  answer state routed (err e) = (state, bad_gateway e)
  answer state routed (ok upstream) = (
    if is_success upstream.status
        then learn state upstream.pod_id routed.cumulative_hashes routed.session_key
        else state,
    relayed upstream.status (response_headers upstream.headers routed.forwarding_headers)
        upstream.body,
  )

module _ {H V U : Type 0} (hm : HeaderMaps H V) (parse_uri : Text → Option U)
    (client : UpstreamRequest H U → Exchange H) (meanwhile : LoadState → LoadState) where
  unfoldable pub openai_compatible_endpoint :
      AppState → RoutedRequest H → Text → Text → List ℕ → AppState × EndpointResponse H
  openai_compatible_endpoint state routed method path body =
      let (loads, result) =
        forward_with_fallback hm parse_uri client meanwhile state.loads method routed.plan path
          routed.forwarding_headers body in
      answer hm (record state { loads = loads }) routed result

module _ {F : Type 0} (fl : Floats F) {H V U : Type 0} (hm : HeaderMaps H V)
    (parse_uri : Text → Option U) (client : UpstreamRequest H U → Exchange H)
    (meanwhile : LoadState → LoadState) (cause : Text)
    (from_slice : List ℕ → Option OpenAiRequestDto) where
  -- The middleware after the routing; `path` is the path with its query.
  unfoldable pub after_routing :
      AppState
      → Text
      → Text
      → List ℕ
      → Result RoutingError (RoutedRequest H)
      → AppState × EndpointResponse H
  after_routing state method path body (err e) = (state, bad_request_for e)
  after_routing state method path body (ok routed) =
      openai_compatible_endpoint hm parse_uri client meanwhile state routed method path body

  -- The middleware `route_openai_request` around the endpoint; the body is `none` where reading it
  -- failed. The outer `none` is a fault of the prefix query.
  unfoldable pub proxied_request :
      RoutingPipeline F
      → ℕ
      → ℕ
      → AppState
      → Text
      → Text
      → Text
      → H
      → Option (List ℕ)
      → Option ((AppState × EndpointResponse H) × ℕ)
  proxied_request pipeline nanos counter state method path full_path headers none =
      some ((state, body_unreadable), counter)
  proxied_request pipeline nanos counter state method path full_path headers (some body) =
      elim (route_openai_request fl hm cause from_slice pipeline nanos counter state.registry
        state.loads state.sticky
        (record { path = path; method = method; headers = headers; body = body })) [
          | none ↦ none
          | some routed ↦ some (after_routing state method full_path body routed.0, routed.1)
        ]
