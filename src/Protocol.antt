-- ===== src/Protocol.antt =====
-- src/calinix/protocol/routing_headers.rs: the headers that tell an upstream how a request was routed,
-- their validation, and their injection into the headers of the request.
pub mod Validated
pub mod Writes
pub mod Injected
pub mod OpenAi
use calinix.Hash.{Text}
use calinix.Http.{HeaderMaps}
use calinix.Http.Laws.{remove_all}
use calinix.Prelude.Results.{Result, err, ok}
use calinix.Text.Literals.{chars, is_empty, to_string}
use calinix.Prelude.{
  ℕ, zero, suc, ◌+◌, ◌-◌, ◌*◌, ◌/◌, ◌%◌, ◌^◌, ◌≤◌, ◌<◌, min, max, ◌≡◌, refl, sym, ap, ap₂, ◌∙◌,
  subst, fun_ext, ◌≢◌, ◌↔◌, ◌⊎◌, inl, inr, Bool, true, false, not, ◌&&◌, ◌||◌, Option, none, some,
  List, [], ◌∷◌, ◌++◌, map, append_assoc, append-nil, arith, ltb, leb, ◌==◌, if◌then◌else◌, ltb→lt,
  lt→ltb, leb→le, ==_iff, ==_refl, tests, Bool-cases, Option-cases, length, get_elem?, get_or,
  set as set_elem, take, replicate, length-append, length-set, length-replicate, get_or-replicate,
  get_or-set, get_elem?-get_or, get_elem?-beyond, get_elem?-cases, get_elem?-left, get_elem?-last,
  get_or-beyond, lt_wf,
}

abbrev pub request_id_name : Text
request_id_name = chars "x-calinix-request-id"

abbrev pub mode_name : Text
mode_name = chars "x-calinix-mode"

abbrev pub target_pod_id_name : Text
target_pod_id_name = chars "x-calinix-target-pod-id"

abbrev pub prefill_pod_id_name : Text
prefill_pod_id_name = chars "x-calinix-prefill-pod-id"

abbrev pub decode_pod_id_name : Text
decode_pod_id_name = chars "x-calinix-decode-pod-id"

abbrev pub cache_hit_name : Text
cache_hit_name = chars "x-calinix-cache-hit"

abbrev pub cache_prefix_depth_name : Text
cache_prefix_depth_name = chars "x-calinix-cache-prefix-depth"

abbrev pub cache_namespace_name : Text
cache_namespace_name = chars "x-calinix-cache-namespace"

abbrev pub route_policy_name : Text
route_policy_name = chars "x-calinix-route-policy"

abbrev pub owned_headers : List Text
owned_headers =
    request_id_name ∷ mode_name ∷ target_pod_id_name ∷ prefill_pod_id_name ∷ decode_pod_id_name
    ∷ cache_hit_name ∷ cache_prefix_depth_name ∷ cache_namespace_name ∷ route_policy_name ∷ []

pub data CalinixMode : Type 0 where
  single_mode : CalinixMode
  disaggregated_mode : CalinixMode

pub record RoutingHeaderValues : Type 0 where
  pub request_id : Text
  pub mode : CalinixMode
  pub target_pod_id : Option Text
  pub prefill_pod_id : Option Text
  pub decode_pod_id : Option Text
  pub cache_hit : Bool
  pub cache_prefix_depth : ℕ
  pub cache_namespace : Option Text
  pub route_policy : Text

pub data HeaderError : Type 0 where
  missing_required : Text → HeaderError
  invalid_combination : Text → HeaderError
  -- The error of the http crate is left out.
  invalid_value : HeaderError

-- The message of an error; the http crate's own text is a parameter.
unfoldable pub header_error_message : Text → HeaderError → Text
header_error_message cause (missing_required header) =
    chars "missing required routing header " ++ header
header_error_message cause (invalid_combination message) =
    chars "invalid routing header combination: " ++ message
header_error_message cause invalid_value = chars "invalid routing header value: " ++ cause

unfoldable pub as_str : CalinixMode → Text
as_str single_mode = chars "single"
as_str disaggregated_mode = chars "disaggregated"

-- `as_deref().unwrap_or_default()`
unfoldable pub text_or_default : Option Text → Text
text_or_default none = []
text_or_default (some t) = t

abbrev pub is_some : Option Text → Bool
is_some none = false
is_some (some t) = true

-- The arms of the match on the mode.
unfoldable pub validate_pods : RoutingHeaderValues → CalinixMode → Result HeaderError (Unit {0})
validate_pods values single_mode =
    if is_empty (text_or_default values.target_pod_id)
    then err (missing_required target_pod_id_name)
    else if is_some values.prefill_pod_id || is_some values.decode_pod_id
    then err (invalid_combination (chars "single mode cannot include prefill or decode pod ids"))
    else ok tt
validate_pods values disaggregated_mode =
    if is_empty (text_or_default values.prefill_pod_id)
    then err (missing_required prefill_pod_id_name)
    else if is_empty (text_or_default values.decode_pod_id)
    then err (missing_required decode_pod_id_name)
    else if is_some values.target_pod_id
    then err (invalid_combination (chars "disaggregated mode cannot include target pod id"))
    else ok tt

unfoldable pub validate : RoutingHeaderValues → Result HeaderError (Unit {0})
unfolding validate_pods
validate values =
    if is_empty values.request_id
    then err (missing_required request_id_name)
    else if is_empty values.route_policy
    then err (missing_required route_policy_name)
    else validate_pods values values.mode

-- A function that takes `&mut HeaderMap` and may fail: what it wrote before it failed stays.
abbrev pub Writer : Type 0 → Type 0
Writer H = H → H × Result HeaderError (Unit {0})

-- The `?` after a call: an error ends the function.
unfoldable pub and_then :
    {H : Type 0} → H × Result HeaderError (Unit {0}) → Writer H → H × Result HeaderError (Unit {0})
and_then (h, err e) next = (h, err e)
and_then (h, ok done) next = next h

infixl 5 ◌>>◌
abbrev pub ◌>>◌ : {H : Type 0} → Writer H → Writer H → Writer H
◌>>◌ first next h = and_then (first h) next

abbrev pub finish : {H : Type 0} → Writer H
finish h = (h, ok tt)

module _ {H V : Type 0} (hm : HeaderMaps H V) where
  unfoldable pub insert : Text → Text → Writer H
  insert name value h = elim (hm.from_str value) [
    | none ↦ (h, err invalid_value)
    | some v ↦ (hm.insert h name v, ok tt)
  ]

  -- `if let Some(namespace)`
  unfoldable pub insert_namespace : Option Text → Writer H
  insert_namespace none = finish
  insert_namespace (some namespace) = insert cache_namespace_name namespace

  -- The arms of the match on the mode.
  unfoldable pub insert_pods : RoutingHeaderValues → CalinixMode → Writer H
  insert_pods values single_mode = do
    insert target_pod_id_name (text_or_default values.target_pod_id)
    finish
  insert_pods values disaggregated_mode = do
    insert prefill_pod_id_name (text_or_default values.prefill_pod_id)
    insert decode_pod_id_name (text_or_default values.decode_pod_id)
    finish

  unfoldable pub insert_values : RoutingHeaderValues → Writer H
  insert_values values = do
    insert request_id_name values.request_id
    insert mode_name (as_str values.mode)
    insert cache_hit_name (if values.cache_hit then chars "true" else chars "false")
    insert cache_prefix_depth_name (to_string values.cache_prefix_depth)
    insert route_policy_name values.route_policy
    insert_namespace values.cache_namespace
    insert_pods values values.mode

  unfoldable pub inject_routing_headers : RoutingHeaderValues → Writer H
  inject_routing_headers values h = elim (validate values) [
    | err e ↦ (h, err e)
    | ok valid ↦ insert_values values (remove_all hm owned_headers h)
  ]
