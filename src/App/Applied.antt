-- ===== src/App/Applied.antt =====
-- The event handlers against the registry's events.
use calinix.App.{
  done, AppState, with_cache, CacheEventRequest, EventResponse, bad_request, resolve_event_pod_id,
  register_for, register_event, evict_for, evict_event, shutdown_event,
}
use calinix.Hash.{Text, BlockHash}
use calinix.Index.{ShardedBlockIndexer}
use calinix.Prelude.Results.{Result, err, ok, Result-cases}
use calinix.Registry.{
  CacheEvent, prefix_cached, prefix_evicted, pod_started, pod_shutdown, apply_event,
  register_prefix, mark_pod_alive, evict_prefix, shutdown_pod,
}
use calinix.Registry.Events.{apply_events}
use calinix.Upstream.{RuntimeRegistry}
use calinix.Prelude.{ℕ, ◌≡◌, refl, inl, inr, Option, none, some, List, [], ◌∷◌, ◌++◌}

-- A call of one of the handlers.
pub data EventCall : Type 0 where
  register_call : CacheEventRequest → EventCall
  evict_call : CacheEventRequest → EventCall
  shutdown_call : CacheEventRequest → EventCall

abbrev pub handle : AppState → EventCall → AppState × EventResponse
handle state (register_call payload) = register_event state payload
handle state (evict_call payload) = evict_event state payload
handle state (shutdown_call payload) = shutdown_event state payload

abbrev pub handle_all : AppState → List EventCall → AppState
handle_all state [] = state
handle_all state (call ∷ calls) = handle_all (handle state call).0 calls

-- The registry's events that a call stands for: a registered prefix also shows that the pod lives. A
-- call without a pod, or without a hash that it needs, stands for none.
abbrev pub register_events : Result Text ℕ → Option BlockHash → List CacheEvent
register_events (ok pod_id) (some h) = pod_started pod_id ∷ prefix_cached pod_id h ∷ []
register_events (ok pod_id) none = []
register_events (err e) hash = []

abbrev pub evict_events : Result Text ℕ → Option BlockHash → List CacheEvent
evict_events (ok pod_id) (some h) = prefix_evicted pod_id h ∷ []
evict_events (ok pod_id) none = []
evict_events (err e) hash = []

abbrev pub shutdown_events : Result Text ℕ → List CacheEvent
shutdown_events (ok pod_id) = pod_shutdown pod_id ∷ []
shutdown_events (err e) = []

abbrev pub events_of : RuntimeRegistry → EventCall → List CacheEvent
events_of registry (register_call payload) =
    register_events (resolve_event_pod_id registry payload) payload.cumulative_hash
events_of registry (evict_call payload) =
    evict_events (resolve_event_pod_id registry payload) payload.cumulative_hash
events_of registry (shutdown_call payload) = shutdown_events (resolve_event_pod_id registry payload)

abbrev pub events_of_all : RuntimeRegistry → List EventCall → List CacheEvent
events_of_all registry [] = []
events_of_all registry (call ∷ calls) = events_of registry call ++ events_of_all registry calls

abbrev pub index_of : AppState → ShardedBlockIndexer
index_of state = state.registry.cache_registry.block_index

-- The state with another index, and all else as it is.
abbrev pub with_index : AppState → ShardedBlockIndexer → AppState
with_index state idx = with_cache state (record { block_index = idx })

abbrev pub IsRefused : EventResponse → Type 0
IsRefused (bad_request message) = Unit {0}
IsRefused (done body) = ⊥

register_for-events :
    (state : AppState) (pod_id : ℕ) (hash : Option BlockHash)
    → (register_for state pod_id hash).0
      ≡ with_index state (apply_events (index_of state) (register_events (ok pod_id) hash))
unfolding register_for register_prefix mark_pod_alive apply_event
register_for-events state pod_id none = refl
register_for-events state pod_id (some h) = refl

evict_for-events :
    (state : AppState) (pod_id : ℕ) (hash : Option BlockHash)
    → (evict_for state pod_id hash).0
      ≡ with_index state (apply_events (index_of state) (evict_events (ok pod_id) hash))
unfolding evict_for evict_prefix apply_event
evict_for-events state pod_id none = refl
evict_for-events state pod_id (some h) = refl

-- A call does to the state what its events do to the index.
pub handle-events :
    (state : AppState) (call : EventCall)
    → (handle state call).0
      ≡ with_index state (apply_events (index_of state) (events_of state.registry call))
unfolding register_event evict_event shutdown_event shutdown_pod apply_event
handle-events state (register_call payload) =
    elim (Result-cases (resolve_event_pod_id state.registry payload)) [
      | inl (e, unknown) ↦ rw (unknown, register_event)
      | inr (pod_id, found) ↦
          rw (found, register_event) (register_for-events state pod_id payload.cumulative_hash)
    ]
handle-events state (evict_call payload) =
    elim (Result-cases (resolve_event_pod_id state.registry payload)) [
      | inl (e, unknown) ↦ rw (unknown, evict_event)
      | inr (pod_id, found) ↦
          rw (found, evict_event) (evict_for-events state pod_id payload.cumulative_hash)
    ]
handle-events state (shutdown_call payload) =
    elim (Result-cases (resolve_event_pod_id state.registry payload)) [
      | inl (e, unknown) ↦ rw (unknown, shutdown_event)
      | inr (pod_id, found) ↦ rw (found, shutdown_event)
    ]

pub apply_events-append :
    (idx : ShardedBlockIndexer) (xs ys : List CacheEvent)
    → apply_events idx (xs ++ ys) ≡ apply_events (apply_events idx xs) ys
apply_events-append idx [] ys = refl
apply_events-append idx (e ∷ xs) ys = apply_events-append (apply_event idx e) xs ys
