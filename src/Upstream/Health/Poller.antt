-- ===== src/Upstream/Health/Poller.antt =====
-- The poller against the registry, and when it changes its mind.
use calinix.Bitmap
use calinix.Bitmap.{HostBitmap}
use calinix.Bitmap.Laws.{contains-set, contains-clear}
use calinix.Index.{mark_alive, shutdown, observe_pod}
use calinix.Registry.{CacheRegistry, mark_pod_alive, shutdown_pod}
use calinix.Upstream.Health.{
  HealthResult, healthy, unhealthy, PodHealthState, fresh_state, saturating_suc, observe, report,
  apply_health_result,
}
use calinix.Prelude.{
  ℕ, zero, suc, ◌≤◌, ◌<◌, min, ◌≡◌, ◌∙◌, ◌⊎◌, inl, inr, Bool, true, false, not, Option, none, some,
  List, arith, leb, ◌==◌, if◌then◌else◌, length, get_or, set as set_elem, length-set, get_or-set,
  get_elem?-cases,
}

-- The registry and the poller agree on which pods are alive.
pub record InStep (r : CacheRegistry) (states : List PodHealthState) : Type 0 where
  pub few : length states ≤ 256
  pub agree :
      (p : ℕ)
      → p < length states
      → Bitmap.contains r.block_index.alive p ≡ (get_or states p fresh_state).marked_alive

-- What a check says of the liveness of its pod.
change-marked_alive :
    (s : PodHealthState) (result : HealthResult) (up down : ℕ)
    → let (s', change) = observe s result up down in
      ((change ≡ none) × (s'.marked_alive ≡ s.marked_alive))
      ⊎ ((change ≡ some s'.marked_alive) × (s'.marked_alive ≡ not s.marked_alive))
unfolding observe
change-marked_alive s healthy up down = ground (arith)
change-marked_alive s unhealthy up down = ground (arith)

alive-report :
    (r : CacheRegistry) (p q : ℕ) (change : Option Bool)
    → p < 256
    → Bitmap.contains (report r p change).block_index.alive q ≡ (
        if p == q
        then elim change [ none ↦ Bitmap.contains r.block_index.alive q | some b ↦ b ]
        else Bitmap.contains r.block_index.alive q)
unfolding report mark_pod_alive shutdown_pod mark_alive shutdown observe_pod
alive-report r p q none h = ground arith
alive-report r p q (some true) h = ground (arith, contains-set r.block_index.alive p q)
alive-report r p q (some false) h = ground (arith, contains-clear r.block_index.alive p q)

-- A result of a health check, for any pod id and thresholds, keeps the registry and the poller in
-- agreement on the liveness of every pod that the poller has a state for, of which there are at
-- most 256.
pub apply_health_result-InStep :
    (r : CacheRegistry) (states : List PodHealthState) (pod_id : ℕ) (result : HealthResult)
    (up down : ℕ)
    → InStep r states
    → let (r', states') = apply_health_result r states pod_id result up down in InStep r' states'
unfolding apply_health_result
apply_health_result-InStep r states pod_id result up down v =
    elim (get_elem?-cases states pod_id fresh_state) [
      | inr (beyond, missing) ↦ rw (missing, apply_health_result) v
      | inl (below, found) ↦
          let state = get_or states pod_id fresh_state in
          let same = length-set states pod_id (observe state result up down).0 in
          rw (found, apply_health_result)
            (record {
              few = let few = v.few in omega (arith, same);
              agree = λ p h.
                  alive-report r pod_id p (observe state result up down).1
                    (let few = v.few in omega arith)
                  ∙ agrees below p (omega (arith, same)) (change-marked_alive state result up down);
            })
    ]
  where
    agrees :
        pod_id < length states
        → (p : ℕ) → p < length states
        → let (s', change) = observe (get_or states pod_id fresh_state) result up down in
          (((change ≡ none) × (s'.marked_alive ≡ (get_or states pod_id fresh_state).marked_alive))
            ⊎ ((change ≡ some s'.marked_alive)
                × (s'.marked_alive ≡ not (get_or states pod_id fresh_state).marked_alive)))
          → (if pod_id == p
              then elim change [ none ↦ Bitmap.contains r.block_index.alive p | some b ↦ b ]
              else Bitmap.contains r.block_index.alive p)
            ≡ (get_or (set_elem states pod_id s') p fresh_state).marked_alive
    agrees below p h (inl (none_changed, kept)) =
        rw (none_changed, get_or-set states pod_id p _ fresh_state below)
          (ground (arith, v.agree p h, kept))
    agrees below p h (inr (changed, flipped)) =
        rw (changed, get_or-set states pod_id p _ fresh_state below) (ground (arith, v.agree p h))

-- `n` results of the same kind.
unfoldable pub observe_times : ℕ → HealthResult → ℕ → ℕ → PodHealthState → PodHealthState
observe_times zero result up down s = s
observe_times (suc n) result up down s =
    (observe (observe_times n result up down s) result up down).0

up-observe_times :
    (s : PodHealthState) (n up down : ℕ)
    → s.consecutive_successes ≡ 0
    → s.marked_alive ≡ false
    → up < 256
    → 0 < up
    → let s' = observe_times n healthy up down s in
      (s'.consecutive_successes ≡ min n 255) × (s'.marked_alive ≡ leb up n)
unfolding observe_times observe saturating_suc
up-observe_times s zero up down none_yet dead h pos = (ground arith, ground arith)
up-observe_times s (suc n) up down none_yet dead h pos =
    let (count, alive) = up-observe_times s n up down none_yet dead h pos in
    (ground arith, ground arith)

down-observe_times :
    (s : PodHealthState) (n up down : ℕ)
    → s.consecutive_failures ≡ 0
    → s.marked_alive ≡ true
    → down < 256
    → 0 < down
    → let s' = observe_times n unhealthy up down s in
      (s'.consecutive_failures ≡ min n 255) × (s'.marked_alive ≡ not (leb down n))
unfolding observe_times observe saturating_suc
down-observe_times s zero up down none_yet live h pos = (ground arith, ground arith)
down-observe_times s (suc n) up down none_yet live h pos =
    let (count, alive) = down-observe_times s n up down none_yet live h pos in
    (ground arith, ground arith)

-- For thresholds that are positive u8 values: after `n` healthy checks in a row, counted from 0, a
-- pod that was marked dead is marked alive exactly if `n` has reached the healthy threshold; and
-- after `n` unhealthy ones in a row a pod that was marked alive is marked dead exactly if `n` has
-- reached the unhealthy threshold.
pub marked_alive-observe_times :
    (s : PodHealthState) (n up down : ℕ)
    → up < 256
    → 0 < up
    → down < 256
    → 0 < down
    → (s.consecutive_successes ≡ 0
        → s.marked_alive ≡ false
        → (observe_times n healthy up down s).marked_alive ≡ leb up n)
      × (s.consecutive_failures ≡ 0
          → s.marked_alive ≡ true
          → (observe_times n unhealthy up down s).marked_alive ≡ not (leb down n))
marked_alive-observe_times s n up down up_u8 up_pos down_u8 down_pos = (
  λ none_yet dead. (up-observe_times s n up down none_yet dead up_u8 up_pos).1,
  λ none_yet live. (down-observe_times s n up down none_yet live down_u8 down_pos).1,
)
