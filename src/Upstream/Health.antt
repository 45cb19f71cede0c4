-- ===== src/Upstream/Health.antt =====
-- src/calinix/upstream/health.rs: the poller's state of each pod, and what a result of a health
-- check does to it and to the registry. The requests themselves are not modelled.
pub mod Poller
use calinix.Registry
use calinix.Registry.{CacheRegistry}
use calinix.Prelude.{
  ℕ, zero, suc, ◌+◌, ◌-◌, ◌*◌, ◌/◌, ◌%◌, ◌^◌, ◌≤◌, ◌<◌, min, max, ◌≡◌, refl, sym, ap, ap₂, ◌∙◌,
  subst, fun_ext, ◌≢◌, ◌↔◌, ◌⊎◌, inl, inr, Bool, true, false, not, ◌&&◌, ◌||◌, Option, none, some,
  List, [], ◌∷◌, ◌++◌, map, append_assoc, append-nil, arith, ltb, leb, ◌==◌, if◌then◌else◌, ltb→lt,
  lt→ltb, leb→le, ==_iff, ==_refl, tests, Bool-cases, Option-cases, length, get_elem?, get_or,
  set as set_elem, take, replicate, length-append, length-set, length-replicate, get_or-replicate,
  get_or-set, get_elem?-get_or, lt_wf,
}

pub data HealthResult : Type 0 where
  healthy : HealthResult
  unhealthy : HealthResult

pub record PodHealthState : Type 0 where
  pub consecutive_successes : ℕ
  pub consecutive_failures : ℕ
  pub marked_alive : Bool

abbrev pub fresh_state : PodHealthState
fresh_state = record { consecutive_successes = 0; consecutive_failures = 0; marked_alive = false }

-- `saturating_add(1)` on u8.
unfoldable pub saturating_suc : ℕ → ℕ
saturating_suc n = min (n + 1) 255

-- The result is the new liveness, where it changed.
unfoldable pub observe : PodHealthState → HealthResult → ℕ → ℕ → PodHealthState × Option Bool
observe s healthy healthy_threshold unhealthy_threshold =
    let s' = record s {
      consecutive_successes = saturating_suc s.consecutive_successes;
      consecutive_failures = 0;
    } in
    if not s.marked_alive && leb healthy_threshold s'.consecutive_successes
    then (record s' { marked_alive = true }, some true)
    else (s', none)
observe s unhealthy healthy_threshold unhealthy_threshold =
    let s' = record s {
      consecutive_failures = saturating_suc s.consecutive_failures;
      consecutive_successes = 0;
    } in
    if s.marked_alive && leb unhealthy_threshold s'.consecutive_failures
    then (record s' { marked_alive = false }, some false)
    else (s', none)

-- What the poller does with a change of liveness.
unfoldable pub report : CacheRegistry → ℕ → Option Bool → CacheRegistry
report r pod_id none = r
report r pod_id (some true) = Registry.mark_pod_alive r pod_id
report r pod_id (some false) = Registry.shutdown_pod r pod_id

unfoldable pub apply_health_result :
    CacheRegistry
    → List PodHealthState
    → ℕ
    → HealthResult
    → ℕ
    → ℕ
    → CacheRegistry × List PodHealthState
apply_health_result r states pod_id result healthy_threshold unhealthy_threshold =
    elim (get_elem? states pod_id) [
      | none ↦ (r, states)
      | some state ↦
          let (state', change) = observe state result healthy_threshold unhealthy_threshold in
          (report r pod_id change, set_elem states pod_id state')
    ]
