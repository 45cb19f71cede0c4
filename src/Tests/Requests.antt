-- ===== src/Tests/Requests.antt =====
-- Proxied requests and event calls on the pods of a small configuration.
use calinix.App.{
  resolve_event_pod_id, resolve_refs, register_event, AppState, CacheEventRequest, id_ref,
  app_state,
}
use calinix.App.Applied.{EventCall, register_call, shutdown_call, evict_call, handle, IsRefused}
use calinix.App.Endpoint.{EndpointResponse, learn, response_headers, proxied_request}
use calinix.App.Refused.{IsIncomplete, handle-IsRefused}
use calinix.App.Endpoint.Answered.{Kept, proxied_request-Kept}
use calinix.App.Endpoint.Returned.{
  connection_headers, IsOneOf, IsOfRouter, IsChosen, response_headers-get_all,
}
use calinix.Bitmap
use calinix.Bitmap.{HostBitmap}
use calinix.Hash.{Text}
use calinix.Index
use calinix.Prelude.Results.{Result, err, ok}
use calinix.Proxy
use calinix.Proxy.{
  ForwardTarget, ForwardError, unknown_pod, UpstreamRequest, UpstreamResponse, Exchange, answered,
  prepare_request, forward_with_fallback,
}
use calinix.Proxy.Tracked.{
  IsResult, forward_with_fallback-inflight, forward_with_fallback-IsOutcome,
}
use calinix.Registry
use calinix.Routing.{request_id, RoutingPlan, primary_pod_id, target_address}
use calinix.Routing.Headers.{route_policy}
use calinix.Routing.Dispatch.{inject_plan, RoutedRequest, RoutingPipeline, default_pipeline}
use calinix.Routing.Dispatch.Routed.{inject_plan_succeeds}
use calinix.Routing.Pipeline.{build_disaggregated_plan}
use calinix.Routing.Pipeline.Planned.{AllWords-GroupWords}
use calinix.Routing.Pipeline.Staged.{IsDisaggregated, build_disaggregated_plan-IsDisaggregated}
use calinix.Routing.Prepare.{PrepareInput, PrepareStage}
use calinix.Routing.Score.{RoutingError}
use calinix.Session.{no_sessions}
use calinix.Tests.Headers.{Entries, entry_lists, entry_lists-IsHeaderMap}
use calinix.Tests.Protocols.{small_plan, small_headers, injected, small_parser}
use calinix.Tests.Scores.{
  whole_numbers, whole_numbers-IsOrder, even_stage, small_context, small_policy,
  small_runtime-AllWords,
}
use calinix.Tests.Upstreams.{small_runtime, single_bitmap}
use calinix.Text.Literals.{is_empty, chars}
use calinix.Upstream
use calinix.Upstream.Load.{track, LoadState, load_state, inflight}
use calinix.Upstream.Load.Guards.{Runs, start, tracked, held_for, one_more}
use calinix.Upstream.Load.Others.{Turn, begins, ends, run_turns, drop_first, held_all, AreTurns}
use calinix.Prelude.{
  ℕ, ◌≤◌, ◌<◌, ◌≡◌, refl, ◌↔◌, ◌⊎◌, Option, none, some, List, [], ◌∷◌, ◌++◌, arith, length,
}

abbrev three : LoadState
three = load_state 3

build_disaggregated_plan-IsDisaggregated_example :
    (r : Result RoutingError RoutingPlan) × (build_disaggregated_plan whole_numbers small_runtime
        small_runtime.upstreams small_policy three no_sessions even_stage single_bitmap
        small_context
      ≡ some r)
    × ((plan : RoutingPlan)
        → r ≡ ok plan
        → IsDisaggregated small_runtime small_runtime.upstreams small_policy three single_bitmap
            small_context plan)
build_disaggregated_plan-IsDisaggregated_example =
    build_disaggregated_plan-IsDisaggregated whole_numbers small_runtime small_runtime.upstreams
      small_policy three no_sessions even_stage single_bitmap small_context whole_numbers-IsOrder
      (AllWords-GroupWords small_runtime.upstreams small_runtime-AllWords)

abbrev small_pipeline : RoutingPipeline ℕ
small_pipeline = default_pipeline whole_numbers

abbrev small_input : PrepareInput Entries
small_input = record {
  path = chars "/v1/completions";
  method = chars "POST";
  headers = small_headers;
  body = 123 ∷ [];
}

abbrev small_stage : PrepareStage
small_stage = record {
  default_mode = small_pipeline.default_mode;
  block_size = small_pipeline.block_size;
}

-- Every text is a URI, and every request is answered at once, with a status for which the router
-- has a log entry.
abbrev any_uri : Text → Option Text
any_uri uri = some uri

abbrev ready_client : UpstreamRequest Entries Text → Exchange Entries
ready_client request = answered 503 [] []

abbrev small_target : ForwardTarget
small_target = record { pod_id = primary_pod_id small_plan; address = target_address small_plan }

-- Two other requests run at the start; meanwhile a third begins, and two end.
abbrev busy : LoadState
busy = one_more (one_more three 0) 2

busy-Runs : Runs 3 busy (2 ∷ 0 ∷ [])
unfolding load_state track inflight
busy-Runs =
    tracked (one_more three 0) busy 2 2 (0 ∷ []) (omega arith) refl
      (tracked three (one_more three 0) 0 0 [] (omega arith) refl start)

abbrev small_turns : List Turn
small_turns = begins 0 ∷ ends 2 ∷ ends 0 ∷ []

small_turns-AreTurns : AreTurns 3 (2 ∷ 0 ∷ []) small_turns
unfolding held_for drop_first
small_turns-AreTurns = (omega arith, (omega arith, (omega arith, tt)))

forward_with_fallback-inflight_example :
    ((primary_pod_id small_plan < 3)
      × ((q : ℕ)
          → inflight
              (forward_with_fallback entry_lists any_uri ready_client
                (run_turns small_turns)
                busy
                (chars "POST")
                small_plan
                (chars "/v1")
                injected.0
                []).0
              q
            ≡ held_for q (held_all 3 (2 ∷ 0 ∷ []) small_turns)))
    ⊎ ((3 ≤ primary_pod_id small_plan)
        × (forward_with_fallback entry_lists any_uri ready_client
              (run_turns small_turns)
              busy
              (chars "POST")
              small_plan
              (chars "/v1")
              injected.0
              []
            ≡ (busy, err (unknown_pod (primary_pod_id small_plan)))))
forward_with_fallback-inflight_example =
    forward_with_fallback-inflight entry_lists any_uri ready_client 3 (2 ∷ 0 ∷ []) small_turns busy
      (chars "POST") small_plan (chars "/v1") injected.0 [] busy-Runs (omega arith)
      small_turns-AreTurns

abbrev small_state : AppState
small_state = app_state small_runtime

-- A pod caches a prefix, loses it, and shuts down.
abbrev hash_of_pod_0 : CacheEventRequest
hash_of_pod_0 = record { pod_id = some (id_ref 0); pod = none; cumulative_hash = some 11 }

abbrev small_calls : List EventCall
small_calls =
    register_call hash_of_pod_0 ∷ evict_call hash_of_pod_0 ∷ shutdown_call hash_of_pod_0 ∷ []

-- A request that names no pod.
abbrev no_pod : CacheEventRequest
no_pod = record { pod_id = none; pod = none; cumulative_hash = some 11 }

no_pod-IsRefused : IsRefused (handle small_state (register_call no_pod)).1
unfolding register_event resolve_event_pod_id resolve_refs
no_pod-IsRefused = tt

handle-IsRefused_example :
    (IsRefused (handle small_state (register_call no_pod)).1
      ↔ IsIncomplete small_state.registry (register_call no_pod))
    × (IsRefused (handle small_state (register_call no_pod)).1
        → (handle small_state (register_call no_pod)).0 ≡ small_state)
handle-IsRefused_example = handle-IsRefused small_state (register_call no_pod)

abbrev learned : AppState
learned = learn small_state 0 (11 ∷ 12 ∷ []) (some (chars "u"))

abbrev upstream_headers : Entries
upstream_headers = (chars "te", chars "x") ∷ (chars "accept", chars "y") ∷ []

response_headers-get_all_example :
    (relayed added : List Text) × (entry_lists.get_all
        (response_headers entry_lists upstream_headers small_headers)
        (chars "x-calinix-mode")
      ≡ relayed ++ added)
    × IsChosen
        (IsOneOf (chars "x-calinix-mode") connection_headers)
        []
        (entry_lists.get_all upstream_headers (chars "x-calinix-mode"))
        relayed
    × IsChosen
        (IsOfRouter (chars "x-calinix-mode"))
        (entry_lists.get_all small_headers (chars "x-calinix-mode"))
        []
        added
response_headers-get_all_example =
    response_headers-get_all entry_lists entry_lists-IsHeaderMap upstream_headers small_headers
      (chars "x-calinix-mode")

abbrev busy_state : AppState
busy_state = record small_state { loads = busy }

proxied_request-Kept_example :
    (reply : (AppState × EndpointResponse Entries) × ℕ) × (proxied_request whole_numbers entry_lists
        any_uri ready_client
        (run_turns small_turns)
        []
        small_parser
        small_pipeline
        9
        1
        busy_state
        (chars "/v1/completions")
        (chars "POST")
        (chars "/v1/completions")
        small_headers
        (some (123 ∷ []))
      ≡ some reply)
    × Kept (2 ∷ 0 ∷ []) (held_all 3 (2 ∷ 0 ∷ []) small_turns) reply.0
unfolding app_state Upstream.total_pods Upstream.add_pod
proxied_request-Kept_example =
    proxied_request-Kept whole_numbers entry_lists any_uri ready_client 3 (2 ∷ 0 ∷ []) small_turns
      [] small_parser small_pipeline 9 1 busy_state (chars "/v1/completions") (chars "POST")
      (chars "/v1/completions") small_headers (some (123 ∷ [])) busy-Runs (omega arith)
      small_turns-AreTurns entry_lists-IsHeaderMap whole_numbers-IsOrder
      (AllWords-GroupWords small_runtime.upstreams small_runtime-AllWords)

abbrev prepared : Result ForwardError (UpstreamRequest Entries Text)
prepared =
    prepare_request entry_lists any_uri (chars "POST") small_plan small_target (chars "/v1")
      injected.0 []

abbrev request_of :
    Result ForwardError (UpstreamRequest Entries Text) → UpstreamRequest Entries Text
request_of (err e) = record { method = []; uri = []; headers = []; body = [] }
request_of (ok request) = request

forward_with_fallback-IsOutcome_example :
    ((length busy.counters ≤ primary_pod_id small_plan)
      × ((forward_with_fallback entry_lists any_uri ready_client
            (run_turns small_turns)
            busy
            (chars "POST")
            small_plan
            (chars "/v1")
            injected.0
            []).1
          ≡ err (unknown_pod (primary_pod_id small_plan))))
    ⊎ ((primary_pod_id small_plan < length busy.counters)
        × IsResult ready_client small_target prepared
            (forward_with_fallback entry_lists any_uri ready_client
              (run_turns small_turns)
              busy
              (chars "POST")
              small_plan
              (chars "/v1")
              injected.0
              []).1)
forward_with_fallback-IsOutcome_example =
    forward_with_fallback-IsOutcome entry_lists any_uri ready_client (run_turns small_turns) busy
      (chars "POST") small_plan (chars "/v1") injected.0 []

inject_plan_succeeds_example :
    (routed : RoutedRequest Entries) × (inject_plan entry_lists [] small_context small_headers
        small_plan
      ≡ ok routed)
unfolding is_empty request_id route_policy
inject_plan_succeeds_example =
    inject_plan_succeeds entry_lists [] small_context small_headers small_plan
      entry_lists-IsHeaderMap refl refl
      (entry_lists-IsHeaderMap.from_str-visible (chars "r1") (omega arith))
      (entry_lists-IsHeaderMap.from_str-visible (chars "default") (omega arith))
      (entry_lists-IsHeaderMap.from_str-visible [] tt)
