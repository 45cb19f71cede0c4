-- ===== src/Proxy.antt =====
-- src/calinix/proxy/forward.rs: the request that is sent to the pod of a plan, and its answer. The client
-- is a parameter: what comes of a request. So is what other tasks do to the counters meanwhile.
pub mod Target
pub mod Sent
pub mod Tracked
use calinix.Hash.{Text}
use calinix.Http.{HeaderMaps}
use calinix.Prelude.Results.{Result, err, ok, ◌>>=◌}
use calinix.Protocol.{target_pod_id_name, prefill_pod_id_name}
use calinix.Routing.{RoutingPlan, single_plan, disaggregated_plan, primary_pod_id, target_address}
use calinix.Text.{strip_prefix, split_once, starts_with, trim_end_matches, parse_u16, same_text}
use calinix.Text.Literals.{chars, to_string}
use calinix.Upstream.Load.{LoadState, track, decrement}
use calinix.Prelude.{
  ℕ, zero, suc, ◌+◌, ◌-◌, ◌*◌, ◌/◌, ◌%◌, ◌^◌, ◌≤◌, ◌<◌, min, max, ◌≡◌, refl, sym, ap, ap₂, ◌∙◌,
  subst, fun_ext, ◌≢◌, ◌↔◌, ◌⊎◌, inl, inr, Bool, true, false, not, ◌&&◌, ◌||◌, Option, none, some,
  List, [], ◌∷◌, ◌++◌, map, append_assoc, append-nil, arith, ltb, leb, ◌==◌, if◌then◌else◌, ltb→lt,
  lt→ltb, leb→le, ==_iff, ==_refl, tests, Bool-cases, Option-cases, length, get_elem?, get_or,
  set as set_elem, take, replicate, length-append, length-set, length-replicate, get_or-replicate,
  get_or-set, get_elem?-get_or, get_elem?-beyond, get_elem?-cases, get_elem?-left, get_elem?-last,
  get_or-beyond, lt_wf,
}

pub record ForwardTarget : Type 0 where
  pub pod_id : ℕ
  pub address : Text

pub record UpstreamResponse (H : Type 0) : Type 0 where
  pub pod_id : ℕ
  pub status : ℕ
  pub headers : H
  pub body : List ℕ

-- The messages, by what they say.
pub data ForwardError : Type 0 where
  unknown_pod : ℕ → ForwardError
  not_http : Text → ForwardError
  port_invalid : Text → ForwardError
  uri_invalid : Text → ForwardError
  pod_header_invalid : ForwardError
  host_header_invalid : ForwardError
  length_header_invalid : ForwardError
  connection_failed : Text → ForwardError
  body_unreadable : Text → ForwardError
  timed_out : Text → ForwardError

pub record UpstreamRequest (H U : Type 0) : Type 0 where
  pub method : Text
  pub uri : U
  pub headers : H
  pub body : List ℕ

-- What comes of a request: no connection, an answer whose body cannot be read, no answer in time,
-- or an answer.
pub data Exchange (H : Type 0) : Type 0 where
  refused : Exchange H
  unread : Exchange H
  expired : Exchange H
  answered : ℕ → H → List ℕ → Exchange H

-- 502, 503 and 504; such an answer is only logged.
unfoldable pub is_retryable_status : ℕ → Bool
is_retryable_status status = status == 502 || (status == 503 || status == 504)

-- `split_once('/').unwrap_or((rest, ""))`
unfoldable pub authority_and_path : Text → Text × Text
authority_and_path rest = elim (split_once 47 rest) [ none ↦ (rest, []) | some parts ↦ parts ]

unfoldable pub host_and_port : Text → Text → Result ForwardError (Text × ℕ)
host_and_port url authority = elim (split_once 58 authority) [
  | none ↦ ok (authority, 80)
  | some (host, port) ↦ elim (parse_u16 port) [
    | none ↦ err (port_invalid url)
    | some n ↦ ok (host, n)
  ]
]

-- Host, port and path.
unfoldable pub parse_http_url : Text → Result ForwardError (Text × ℕ × Text)
parse_http_url url = elim (strip_prefix (chars "http://") url) [
  | none ↦ err (not_http url)
  | some rest ↦ host_and_port url (authority_and_path rest).0 >>= λ place.
      ok (place.0, place.1, 47 ∷ (authority_and_path rest).1)
]

unfoldable pub normalize_path : Text → Text
normalize_path path = if starts_with 47 path then path else 47 ∷ path

-- The path of the request, under the path of the address.
unfoldable pub request_path : Text → Text → Text
request_path base_path path =
    if same_text base_path (chars "/")
    then normalize_path path
    else trim_end_matches 47 base_path ++ normalize_path path

unfoldable pub upstream_target : Text → Text → Result ForwardError (Text × ℕ × Text)
upstream_target address path =
    parse_http_url address >>= λ parts. ok (parts.0, parts.1, request_path parts.2 path)

abbrev pub host_name : Text
host_name = chars "host"

abbrev pub content_length_name : Text
content_length_name = chars "content-length"

abbrev pub connection_name : Text
connection_name = chars "connection"

-- The headers that the proxy sets itself.
unfoldable pub is_own_header : Text → Bool
is_own_header name =
    same_text name host_name
    || (same_text name content_length_name || same_text name connection_name)

-- `map_err(...)?` of a text that becomes a header's value.
unfoldable pub header_value : {V : Type 0} → ForwardError → Option V → Result ForwardError V
header_value e none = err e
header_value e (some v) = ok v

-- The header that names the pod of the attempt.
unfoldable pub attempt_header : RoutingPlan → Text
attempt_header (single_plan id pod address hit depth policy) = target_pod_id_name
attempt_header (disaggregated_plan id address prefill_pod decode_pod hit depth policy) =
    prefill_pod_id_name

module _ {H V : Type 0} (hm : HeaderMaps H V) where
  unfoldable pub headers_for_attempt : H → RoutingPlan → ℕ → Result ForwardError H
  headers_for_attempt headers plan pod_id =
      header_value pod_header_invalid (hm.from_str (to_string pod_id)) >>= λ value.
      ok (hm.insert headers (attempt_header plan) value)

  -- The loop over the headers.
  unfoldable pub copy_headers : List (Text × V) → H → H
  copy_headers [] sent = sent
  copy_headers ((name, value) ∷ entries) sent =
      copy_headers entries (if is_own_header name then sent else hm.insert sent name value)

  -- The headers of the request, before the loop.
  unfoldable pub own_headers : Text → ℕ → List ℕ → Result ForwardError H
  own_headers host port body = do
    host_value ←
        header_value host_header_invalid (hm.from_str (host ++ (chars ":" ++ to_string port)))
    length_value ← header_value length_header_invalid (hm.from_str (to_string (length body)))
    ok (
        hm.insert
          (hm.insert (hm.insert hm.empty host_name host_value) content_length_name length_value)
          connection_name (hm.from_static (chars "close")))

  -- The builder is given a valid method and URI, so that it does not fail.
  unfoldable pub build_request :
      {U : Type 0} → Text → U → Text → ℕ → H → List ℕ → Result ForwardError (UpstreamRequest H U)
  build_request method uri host port headers body = do
    sent ← own_headers host port body
    ok (record {
      method = method;
      uri = uri;
      headers = copy_headers (hm.entries headers) sent;
      body = body;
    })

module _ {H V U : Type 0} (hm : HeaderMaps H V) (parse_uri : Text → Option U) where
  abbrev pub parsed_uri : Text → Option U → Result ForwardError U
  parsed_uri address none = err (uri_invalid address)
  parsed_uri address (some uri) = ok uri

  -- What an attempt does before it sends.
  unfoldable pub prepare_request :
      Text
      → RoutingPlan
      → ForwardTarget
      → Text
      → H
      → List ℕ
      → Result ForwardError (UpstreamRequest H U)
  prepare_request method plan target path headers body = do
    place ← upstream_target target.address path
    uri ←
        parsed_uri target.address (
          parse_uri (chars "http://" ++ (place.0 ++ (chars ":" ++ (to_string place.1 ++ place.2)))))
    attempt_headers ← headers_for_attempt hm headers plan target.pod_id
    build_request hm method uri place.0 place.1 attempt_headers body

-- What an attempt makes of the exchange; `none` is the end of the time.
unfoldable pub conclude :
    {H : Type 0} → ForwardTarget → Exchange H → Option (Result ForwardError (UpstreamResponse H))
conclude target refused = some (err (connection_failed target.address))
conclude target unread = some (err (body_unreadable target.address))
conclude target expired = none
conclude target (answered status headers body) =
    some (ok (record { pod_id = target.pod_id; status = status; headers = headers; body = body }))

unfoldable pub send :
    {H U : Type 0}
    → (UpstreamRequest H U → Exchange H)
    → ForwardTarget
    → Result ForwardError (UpstreamRequest H U)
    → Option (Result ForwardError (UpstreamResponse H))
send client target (err e) = some (err e)
send client target (ok request) = conclude target (client request)

module _ {H V U : Type 0} (hm : HeaderMaps H V) (parse_uri : Text → Option U)
    (client : UpstreamRequest H U → Exchange H) (meanwhile : LoadState → LoadState) where
  -- The guard is held until the end, whichever way the attempt ends.
  unfoldable pub forward_once :
      LoadState
      → Text
      → RoutingPlan
      → ForwardTarget
      → Text
      → H
      → List ℕ
      → LoadState × Option (Result ForwardError (UpstreamResponse H))
  forward_once loads method plan target path headers body = elim (track loads target.pod_id) [
    | none ↦ (loads, some (err (unknown_pod target.pod_id)))
    | some (tracked, guard) ↦ (
      decrement (meanwhile tracked) guard,
      send client target (prepare_request hm parse_uri method plan target path headers body),
    )
  ]

  -- `tokio::time::timeout`
  unfoldable pub in_time :
      ForwardTarget
      → Option (Result ForwardError (UpstreamResponse H))
      → Result ForwardError (UpstreamResponse H)
  in_time target none = err (timed_out target.address)
  in_time target (some answer) = answer

  unfoldable pub forward_with_fallback :
      LoadState
      → Text
      → RoutingPlan
      → Text
      → H
      → List ℕ
      → LoadState × Result ForwardError (UpstreamResponse H)
  forward_with_fallback loads method plan path headers body =
      let target : ForwardTarget = record {
        pod_id = primary_pod_id plan;
        address = target_address plan;
      } in
      let (loads', attempt) = forward_once loads method plan target path headers body in
      (loads', in_time target attempt)
