-- ===== src/App.antt =====
-- src/calinix/app/state.rs and bootstrap.rs: the state that the handlers share, and the handlers of cache
-- events. What is only logged is left out.
pub mod Applied
pub mod Refused
pub mod Endpoint
use calinix.Bitmap
use calinix.Hash.{Text, BlockHash}
use calinix.Index
use calinix.Prelude.Results.{Result, err, ok}
use calinix.Registry
use calinix.Registry.{CacheRegistry}
use calinix.Session.{StickyStore, no_sessions}
use calinix.Text.{starts_with}
use calinix.Text.Literals.{chars}
use calinix.Upstream.{PodEndpoint, RuntimeRegistry, external_pod, total_pods}
use calinix.Upstream.Load.{LoadState, load_state}
use calinix.Prelude.{
  ℕ, zero, suc, ◌+◌, ◌-◌, ◌*◌, ◌/◌, ◌%◌, ◌^◌, ◌≤◌, ◌<◌, min, max, ◌≡◌, refl, sym, ap, ap₂, ◌∙◌,
  subst, fun_ext, ◌≢◌, ◌↔◌, ◌⊎◌, inl, inr, Bool, true, false, not, ◌&&◌, ◌||◌, Option, none, some,
  List, [], ◌∷◌, ◌++◌, map, append_assoc, append-nil, arith, ltb, leb, ◌==◌, if◌then◌else◌, ltb→lt,
  lt→ltb, leb→le, ==_iff, ==_refl, tests, Bool-cases, Option-cases, length, get_elem?, get_or,
  set as set_elem, take, replicate, length-append, length-set, length-replicate, get_or-replicate,
  get_or-set, get_elem?-get_or, get_elem?-beyond, get_elem?-cases, get_elem?-left, get_elem?-last,
  get_or-beyond, lt_wf,
}

-- The forwarder, which keeps no state of its own, is left out.
pub record AppState : Type 0 where
  pub registry : RuntimeRegistry
  pub loads : LoadState
  pub sticky : StickyStore

unfoldable pub app_state : RuntimeRegistry → AppState
app_state registry = record {
  registry = registry;
  loads = load_state (total_pods registry);
  sticky = no_sessions;
}

-- The state after a change of the cache registry.
abbrev pub with_cache : AppState → CacheRegistry → AppState
with_cache state r = record state { registry = record state.registry { cache_registry = r } }

pub record BlockOwnerSummary : Type 0 where
  pub block_hash : BlockHash
  pub pods : List ℕ

pub record RegistrySummary : Type 0 where
  pub total_pods : ℕ
  pub single_pod_count : ℕ
  pub prefill_pod_count : ℕ
  pub decode_pod_count : ℕ
  pub alive_pod_count : ℕ
  pub pods : List PodEndpoint
  pub block_owners : List BlockOwnerSummary

unfoldable pub registry_summary : RuntimeRegistry → RegistrySummary
registry_summary registry = record {
  total_pods = total_pods registry;
  single_pod_count = Bitmap.count registry.single_pods;
  prefill_pod_count = Bitmap.count registry.prefill_pods;
  decode_pod_count = Bitmap.count registry.decode_pods;
  alive_pod_count = Bitmap.count registry.cache_registry.block_index.alive;
  pods = registry.pod_table.pods;
  block_owners =
      map (λ entry. record { block_hash = entry.0; pods = Bitmap.iter_set_bits entry.1 })
        (Index.block_owners registry.cache_registry.block_index);
}

unfoldable pub normalize_route_path : Text → Text
normalize_route_path path = if starts_with 47 path then path else 47 ∷ path

pub data PodRef : Type 0 where
  id_ref : ℕ → PodRef
  external_ref : Text → PodRef

pub record CacheEventRequest : Type 0 where
  pub pod_id : Option PodRef
  pub pod : Option Text
  pub cumulative_hash : Option BlockHash

pub record CacheEventResponse : Type 0 where
  pub event : Text
  pub pod_id : ℕ
  pub cumulative_hash : Option BlockHash

unfoldable pub registered_response : ℕ → BlockHash → CacheEventResponse
registered_response pod_id cumulative_hash = record {
  event = chars "prefixCached";
  pod_id = pod_id;
  cumulative_hash = some cumulative_hash;
}

unfoldable pub evicted_response : ℕ → BlockHash → CacheEventResponse
evicted_response pod_id cumulative_hash = record {
  event = chars "prefixEvicted";
  pod_id = pod_id;
  cumulative_hash = some cumulative_hash;
}

unfoldable pub shutdown_response : ℕ → CacheEventResponse
shutdown_response pod_id = record {
  event = chars "podShutdown";
  pod_id = pod_id;
  cumulative_hash = none;
}

-- A name that the configuration gives to a pod.
unfoldable pub resolve_name : RuntimeRegistry → Text → Result Text ℕ
resolve_name registry external_id =
    elim (external_pod registry.pod_table.by_external_id external_id) [
      | none ↦ err (chars "unknown pod external id: " ++ external_id)
      | some pod_id ↦ ok pod_id
    ]

-- The match on the two fields.
unfoldable pub resolve_refs : RuntimeRegistry → Option PodRef → Option Text → Result Text ℕ
resolve_refs registry (some (id_ref pod_id)) pod = ok pod_id
resolve_refs registry (some (external_ref external_id)) pod = resolve_name registry external_id
resolve_refs registry none (some external_id) = resolve_name registry external_id
resolve_refs registry none none = err (chars "event requires podId or pod")

unfoldable pub resolve_event_pod_id : RuntimeRegistry → CacheEventRequest → Result Text ℕ
resolve_event_pod_id registry payload = resolve_refs registry payload.pod_id payload.pod

-- A response to an event: the status 400 with a message, or 200 with a body.
pub data EventResponse : Type 0 where
  bad_request : Text → EventResponse
  done : CacheEventResponse → EventResponse

-- The part of the handler after the pod is known.
unfoldable pub register_for : AppState → ℕ → Option BlockHash → AppState × EventResponse
register_for state pod_id none =
    (state, bad_request (chars "register event requires cumulativeHash"))
register_for state pod_id (some cumulative_hash) =
    let alive = Registry.mark_pod_alive state.registry.cache_registry pod_id in
    (
      with_cache state (Registry.register_prefix alive pod_id cumulative_hash).0,
      done (registered_response pod_id cumulative_hash),
    )

unfoldable pub register_event : AppState → CacheEventRequest → AppState × EventResponse
register_event state payload = elim (resolve_event_pod_id state.registry payload) [
  | err e ↦ (state, bad_request e)
  | ok pod_id ↦ register_for state pod_id payload.cumulative_hash
]

-- The part of the handler after the pod is known.
unfoldable pub evict_for : AppState → ℕ → Option BlockHash → AppState × EventResponse
evict_for state pod_id none = (state, bad_request (chars "evict event requires cumulativeHash"))
evict_for state pod_id (some cumulative_hash) = (
  with_cache state (Registry.evict_prefix state.registry.cache_registry pod_id cumulative_hash),
  done (evicted_response pod_id cumulative_hash),
)

unfoldable pub evict_event : AppState → CacheEventRequest → AppState × EventResponse
evict_event state payload = elim (resolve_event_pod_id state.registry payload) [
  | err e ↦ (state, bad_request e)
  | ok pod_id ↦ evict_for state pod_id payload.cumulative_hash
]

unfoldable pub shutdown_event : AppState → CacheEventRequest → AppState × EventResponse
shutdown_event state payload = elim (resolve_event_pod_id state.registry payload) [
  | err e ↦ (state, bad_request e)
  | ok pod_id ↦ (
    with_cache state (Registry.shutdown_pod state.registry.cache_registry pod_id),
    done (shutdown_response pod_id),
  )
]
