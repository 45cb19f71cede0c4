-- ===== src/Proxy/Tracked.antt =====
-- The counters of running requests over a forwarding.
use calinix.Hash.{Text}
use calinix.Http.{HeaderMaps}
use calinix.Prelude.Results.{Result, err, ok}
use calinix.Proxy.{
  ForwardTarget, UpstreamResponse, UpstreamRequest, ForwardError, unknown_pod, connection_failed,
  body_unreadable, timed_out, Exchange, refused, unread, expired, answered, prepare_request,
  conclude, send, forward_once, in_time, forward_with_fallback,
}
use calinix.Routing.{RoutingPlan, primary_pod_id, target_address}
use calinix.Upstream.Load.{LoadState, decrement, inflight}
use calinix.Upstream.Load.Others.{
  Turn, run_turns, held_all, AreTurns, length-Runs, inflight-run_turns,
}
use calinix.Upstream.Load.Guards.{one_more, track-some, track-none, Runs, held_for}
use calinix.Prelude.{
  ℕ, ◌-◌, ◌^◌, ◌≤◌, ◌<◌, ◌≡◌, refl, ap, ◌∙◌, ◌⊎◌, inl, inr, Option, List, arith, ltb, ltb→lt,
  Bool-cases, length,
}

module _ {H V U : Type 0} (hm : HeaderMaps H V) (parse_uri : Text → Option U)
    (client : UpstreamRequest H U → Exchange H) (meanwhile : LoadState → LoadState)
    (loads : LoadState) (method : Text) (plan : RoutingPlan) (path : Text) (headers : H)
    (body : List ℕ) where
  abbrev target : ForwardTarget
  target = record { pod_id = primary_pod_id plan; address = target_address plan }

  abbrev forwarded : LoadState × Result ForwardError (UpstreamResponse H)
  forwarded =
      forward_with_fallback hm parse_uri client meanwhile loads method plan path headers body

  forward_with_fallback-known :
      primary_pod_id plan < length loads.counters
      → forwarded ≡ (
        decrement (meanwhile (one_more loads (primary_pod_id plan))) (primary_pod_id plan),
        in_time hm parse_uri client meanwhile target (
            send client target (prepare_request hm parse_uri method plan target path headers body)),
      )
  unfolding forward_with_fallback forward_once
  forward_with_fallback-known known =
      rw (track-some loads (primary_pod_id plan) known, forward_with_fallback, forward_once)

  forward_with_fallback-unknown :
      length loads.counters ≤ primary_pod_id plan
      → forwarded ≡ (loads, err (unknown_pod (primary_pod_id plan)))
  unfolding forward_with_fallback forward_once in_time
  forward_with_fallback-unknown unknown =
      rw (
        track-none loads (primary_pod_id plan) unknown,
        forward_with_fallback,
        forward_once,
        in_time,
      )

-- However a forwarding ends, by an answer, an error or the end of its time, it leaves no request
-- counted: each counter is then the number of requests that other tasks have running. Before it,
-- the counters are those of a run of such requests, fewer than 2 ^ 64 - 1 at once; meanwhile the
-- other tasks begin requests, fewer than 2 ^ 64 - 1 at once, and end ones that they have begun,
-- in any order. The pod may be unknown, in which case nothing is sent and no counter changes.
pub forward_with_fallback-inflight :
    {H V U : Type 0} (hm : HeaderMaps H V) (parse_uri : Text → Option U)
    (client : UpstreamRequest H U → Exchange H) (n : ℕ) (held : List ℕ) (turns : List Turn)
    (loads : LoadState) (method : Text) (plan : RoutingPlan) (path : Text) (headers : H)
    (body : List ℕ)
    → Runs n loads held
    → length held < 2 ^ 64 - 1
    → AreTurns n held turns
    → let answer =
        forward_with_fallback hm parse_uri client
          (run_turns turns)
          loads
          method
          plan
          path
          headers
          body in
      ((primary_pod_id plan < n)
        × ((q : ℕ) → inflight answer.0 q ≡ held_for q (held_all n held turns)))
      ⊎ ((n ≤ primary_pod_id plan) × (answer ≡ (loads, err (unknown_pod (primary_pod_id plan)))))
forward_with_fallback-inflight hm parse_uri client n held turns loads method plan path headers body
      run room fair =
    let p = primary_pod_id plan in
    let size = length-Runs n loads held run in
    elim (Bool-cases (ltb p n)) [
      | inl known ↦
          let below : p < n = ltb→lt p n known in
          let counted : p < length loads.counters = omega (arith, size, below) in
          inl (
            below,
            λ q.
                ap (λ a. inflight a.0 q)
                  (forward_with_fallback-known hm parse_uri client (run_turns turns) loads method
                    plan path headers body counted)
                ∙ inflight-run_turns n p loads held turns q run room fair below,
          )
      | inr unknown ↦
          let beyond : n ≤ p = ground arith in
          inr (
            beyond,
            forward_with_fallback-unknown hm parse_uri client (run_turns turns) loads method plan
                path headers body (omega (arith, size, beyond)),
          )
    ]

module _ {H : Type 0} where
  -- What the result of a forwarding is for what came of the request that was sent.
  abbrev pub IsOutcome :
      ForwardTarget → Exchange H → Result ForwardError (UpstreamResponse H) → Type 0
  IsOutcome target refused result = result ≡ err (connection_failed target.address)
  IsOutcome target unread result = result ≡ err (body_unreadable target.address)
  IsOutcome target expired result = result ≡ err (timed_out target.address)
  IsOutcome target (answered status headers body) result =
      result
      ≡ ok (record { pod_id = target.pod_id; status = status; headers = headers; body = body })

-- What the result is for a request that was prepared, or was not.
abbrev pub IsResult :
    {H U : Type 0}
    → (UpstreamRequest H U → Exchange H)
    → ForwardTarget
    → Result ForwardError (UpstreamRequest H U)
    → Result ForwardError (UpstreamResponse H)
    → Type 0
IsResult client _ (err e) result = result ≡ err e
IsResult client target (ok request) result = IsOutcome target (client request) result

module _ {H V U : Type 0} (hm : HeaderMaps H V) (parse_uri : Text → Option U)
    (client : UpstreamRequest H U → Exchange H) (meanwhile : LoadState → LoadState)
    (target : ForwardTarget) where
  conclude-IsOutcome :
      (exchange : Exchange H)
      → IsOutcome target exchange
          (in_time hm parse_uri client meanwhile target (conclude target exchange))
  unfolding in_time conclude
  conclude-IsOutcome refused = refl
  conclude-IsOutcome unread = refl
  conclude-IsOutcome expired = refl
  conclude-IsOutcome (answered status headers body) = refl

  send-IsResult :
      (prepared : Result ForwardError (UpstreamRequest H U))
      → IsResult client target prepared
          (in_time hm parse_uri client meanwhile target (send client target prepared))
  unfolding in_time send
  send-IsResult (err e) = refl
  send-IsResult (ok request) = conclude-IsOutcome (client request)

-- The result of every forwarding. For an unknown pod it is the error that says so, and for a request
-- that cannot be prepared the error of that. Else the result is what the client got for the
-- prepared request: an answer of any status, also 502, 503 or 504, is returned with that status,
-- its headers and its body, as the answer of the plan's pod, and a failure is the error of its
-- kind, which names the address of the plan.
pub forward_with_fallback-IsOutcome :
    {H V U : Type 0} (hm : HeaderMaps H V) (parse_uri : Text → Option U)
    (client : UpstreamRequest H U → Exchange H) (meanwhile : LoadState → LoadState)
    (loads : LoadState) (method : Text) (plan : RoutingPlan) (path : Text) (headers : H)
    (body : List ℕ)
    → let target : ForwardTarget = record {
      pod_id = primary_pod_id plan;
      address = target_address plan;
    } in
      let result =
        (forward_with_fallback hm parse_uri client meanwhile loads method plan path headers
          body).1 in
      ((length loads.counters ≤ primary_pod_id plan)
        × (result ≡ err (unknown_pod (primary_pod_id plan))))
      ⊎ ((primary_pod_id plan < length loads.counters)
          × IsResult client target
              (prepare_request hm parse_uri method plan target path headers body)
              result)
forward_with_fallback-IsOutcome hm parse_uri client meanwhile loads method plan path headers body =
    let p = primary_pod_id plan in
    let target : ForwardTarget = record { pod_id = p; address = target_address plan } in
    let prepared = prepare_request hm parse_uri method plan target path headers body in
    elim (Bool-cases (ltb p (length loads.counters))) [
      | inl known ↦
          let below : p < length loads.counters = ltb→lt p (length loads.counters) known in
          inr (
            below,
            rw
                (forward_with_fallback-known hm parse_uri client meanwhile loads method plan path
                  headers body below)
                (send-IsResult hm parse_uri client meanwhile target prepared),
          )
      | inr unknown ↦
          let beyond : length loads.counters ≤ p = ground arith in
          inl (
            beyond,
            ap (λ a. a.1)
                (forward_with_fallback-unknown hm parse_uri client meanwhile loads method plan path
                  headers body beyond),
          )
    ]
