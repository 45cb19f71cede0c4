-- ===== src/App/Refused.antt =====
-- Which event calls are refused.
use calinix.App.{
  AppState, PodRef, id_ref, external_ref, resolve_name, resolve_refs, resolve_event_pod_id,
  register_for, register_event, evict_for, evict_event, shutdown_event,
}
use calinix.Hash.{Text, BlockHash}
use calinix.Prelude.Results.{Result, err, ok, Result-cases}
use calinix.Registry.Events.{apply_events}
use calinix.Upstream.{RuntimeRegistry, external_pod}
use calinix.Prelude.{
  ℕ, ◌≡◌, refl, ap, ◌∙◌, ◌↔◌, ◌⊎◌, inl, inr, Option, none, some, List, [], ◌∷◌, arith, Option-cases,
}
use calinix.App.Applied.{
  EventCall, register_call, evict_call, shutdown_call, handle, register_events, evict_events,
  shutdown_events, events_of, index_of, with_index, IsRefused, handle-events,
}

cons-ne-nil : {A : Type 0} {C : Type 0} (x : A) (xs : List A) → x ∷ xs ≡ [] → C
cons-ne-nil x xs h = absurd (ground arith)

register_for-IsRefused :
    (state : AppState) (pod_id : ℕ) (hash : Option BlockHash)
    → IsRefused (register_for state pod_id hash).1 ↔ (register_events (ok pod_id) hash ≡ [])
unfolding register_for
register_for-IsRefused state pod_id none = (λ h. refl, λ h. tt)
register_for-IsRefused state pod_id (some h) = (λ r. absurd r, λ e. cons-ne-nil _ _ e)

evict_for-IsRefused :
    (state : AppState) (pod_id : ℕ) (hash : Option BlockHash)
    → IsRefused (evict_for state pod_id hash).1 ↔ (evict_events (ok pod_id) hash ≡ [])
unfolding evict_for
evict_for-IsRefused state pod_id none = (λ h. refl, λ h. tt)
evict_for-IsRefused state pod_id (some h) = (λ r. absurd r, λ e. cons-ne-nil _ _ e)

call-IsRefused :
    (state : AppState) (call : EventCall)
    → IsRefused (handle state call).1 ↔ (events_of state.registry call ≡ [])
unfolding register_event evict_event shutdown_event
call-IsRefused state (register_call payload) =
    elim (Result-cases (resolve_event_pod_id state.registry payload)) [
      | inl (e, unknown) ↦ rw (unknown, register_event) (λ h. refl, λ h. tt)
      | inr (pod_id, found) ↦
          rw (found, register_event) (register_for-IsRefused state pod_id payload.cumulative_hash)
    ]
call-IsRefused state (evict_call payload) =
    elim (Result-cases (resolve_event_pod_id state.registry payload)) [
      | inl (e, unknown) ↦ rw (unknown, evict_event) (λ h. refl, λ h. tt)
      | inr (pod_id, found) ↦
          rw (found, evict_event) (evict_for-IsRefused state pod_id payload.cumulative_hash)
    ]
call-IsRefused state (shutdown_call payload) =
    elim (Result-cases (resolve_event_pod_id state.registry payload)) [
      | inl (e, unknown) ↦ rw (unknown, shutdown_event) (λ h. refl, λ h. tt)
      | inr (pod_id, found) ↦ rw (found, shutdown_event) (λ r. absurd r, λ e. cons-ne-nil _ _ e)
    ]

-- The two fields of a payload name no pod: both are missing, or the name that counts is one that the
-- configuration does not give. A number is taken as it is, and comes before the other field.
abbrev pub NamesNoPod : RuntimeRegistry → Option PodRef → Option Text → Type 0
NamesNoPod registry (some (id_ref pod_id)) pod = ⊥
NamesNoPod registry (some (external_ref name)) pod =
    external_pod registry.pod_table.by_external_id name ≡ none
NamesNoPod registry none (some name) = external_pod registry.pod_table.by_external_id name ≡ none
NamesNoPod registry none none = Unit {0}

-- The call names no pod, or lacks the hash that it is about.
abbrev pub IsIncomplete : RuntimeRegistry → EventCall → Type 0
IsIncomplete registry (register_call payload) =
    NamesNoPod registry payload.pod_id payload.pod ⊎ (payload.cumulative_hash ≡ none)
IsIncomplete registry (evict_call payload) =
    NamesNoPod registry payload.pod_id payload.pod ⊎ (payload.cumulative_hash ≡ none)
IsIncomplete registry (shutdown_call payload) = NamesNoPod registry payload.pod_id payload.pod

abbrev IsError : Result Text ℕ → Type 0
IsError (err e) = Unit {0}
IsError (ok pod_id) = ⊥

resolve_name-IsError :
    (registry : RuntimeRegistry) (name : Text)
    → IsError (resolve_name registry name)
      ↔ (external_pod registry.pod_table.by_external_id name ≡ none)
unfolding resolve_name
resolve_name-IsError registry name =
    elim (Option-cases (external_pod registry.pod_table.by_external_id name)) [
      | inl missing ↦ rw (missing, resolve_name) (λ h. refl, λ h. tt)
      | inr (pod_id, found) ↦ rw (found, resolve_name) (λ h. absurd h, λ h. absurd (ground arith))
    ]

resolve_refs-IsError :
    (registry : RuntimeRegistry) (ref : Option PodRef) (pod : Option Text)
    → IsError (resolve_refs registry ref pod) ↔ NamesNoPod registry ref pod
unfolding resolve_refs
resolve_refs-IsError registry (some (id_ref pod_id)) pod = (λ h. h, λ h. h)
resolve_refs-IsError registry (some (external_ref name)) pod = resolve_name-IsError registry name
resolve_refs-IsError registry none (some name) = resolve_name-IsError registry name
resolve_refs-IsError registry none none = (λ h. h, λ h. h)

register_events_nil :
    (r : Result Text ℕ) (hash : Option BlockHash)
    → (register_events r hash ≡ []) ↔ (IsError r ⊎ (hash ≡ none))
register_events_nil (err e) hash = (λ h. inl tt, λ v. refl)
register_events_nil (ok pod_id) none = (λ h. inr refl, λ v. refl)
register_events_nil (ok pod_id) (some h) =
    (λ e. cons-ne-nil _ _ e, λ v. elim v [ inl e ↦ absurd e | inr e ↦ absurd (ground arith) ])

evict_events_nil :
    (r : Result Text ℕ) (hash : Option BlockHash)
    → (evict_events r hash ≡ []) ↔ (IsError r ⊎ (hash ≡ none))
evict_events_nil (err e) hash = (λ h. inl tt, λ v. refl)
evict_events_nil (ok pod_id) none = (λ h. inr refl, λ v. refl)
evict_events_nil (ok pod_id) (some h) =
    (λ e. cons-ne-nil _ _ e, λ v. elim v [ inl e ↦ absurd e | inr e ↦ absurd (ground arith) ])

shutdown_events_nil : (r : Result Text ℕ) → (shutdown_events r ≡ []) ↔ IsError r
shutdown_events_nil (err e) = (λ h. tt, λ v. refl)
shutdown_events_nil (ok pod_id) = (λ e. cons-ne-nil _ _ e, λ v. absurd v)

either : {A B C : Type 0} → A ↔ B → (A ⊎ C) ↔ (B ⊎ C)
either same = (
  λ v. elim v [ inl a ↦ inl (same.0 a) | inr c ↦ inr c ],
  λ v. elim v [ inl b ↦ inl (same.1 b) | inr c ↦ inr c ],
)

chain : {A B C : Type 0} → A ↔ B → B ↔ C → A ↔ C
chain f g = (λ a. g.0 (f.0 a), λ c. f.1 (g.1 c))

events_of-IsIncomplete :
    (registry : RuntimeRegistry) (call : EventCall)
    → (events_of registry call ≡ []) ↔ IsIncomplete registry call
unfolding resolve_event_pod_id
events_of-IsIncomplete registry (register_call payload) =
    chain (register_events_nil _ payload.cumulative_hash)
      (either (resolve_refs-IsError registry payload.pod_id payload.pod))
events_of-IsIncomplete registry (evict_call payload) =
    chain (evict_events_nil _ payload.cumulative_hash)
      (either (resolve_refs-IsError registry payload.pod_id payload.pod))
events_of-IsIncomplete registry (shutdown_call payload) =
    chain (shutdown_events_nil _) (resolve_refs-IsError registry payload.pod_id payload.pod)

-- A call is answered with a refusal exactly if it names no pod, or one by a name that the
-- configuration does not know, or lacks the hash that a registration or an eviction needs. Then it
-- leaves the whole state alone.
pub handle-IsRefused :
    (state : AppState) (call : EventCall)
    → (IsRefused (handle state call).1 ↔ IsIncomplete state.registry call)
      × (IsRefused (handle state call).1 → (handle state call).0 ≡ state)
handle-IsRefused state call = (
  chain (call-IsRefused state call) (events_of-IsIncomplete state.registry call),
  λ refused.
      handle-events state call
      ∙ ap (λ es. with_index state (apply_events (index_of state) es))
          ((call-IsRefused state call).0 refused),
)
