-- ===== src/Upstream/Load.antt =====
-- src/calinix/upstream/load.rs: how many requests each pod is serving. The counters are atomic, so
-- an operation is one step.
pub mod Guards
pub mod Others
use calinix.Upstream.{PodEndpoint}
use calinix.Prelude.{
  ℕ, zero, suc, ◌+◌, ◌-◌, ◌*◌, ◌/◌, ◌%◌, ◌^◌, ◌≤◌, ◌<◌, min, max, ◌≡◌, refl, sym, ap, ap₂, ◌∙◌,
  subst, fun_ext, ◌≢◌, ◌↔◌, ◌⊎◌, inl, inr, Bool, true, false, not, ◌&&◌, ◌||◌, Option, none, some,
  List, [], ◌∷◌, ◌++◌, map, append_assoc, append-nil, arith, ltb, leb, ◌==◌, if◌then◌else◌, ltb→lt,
  lt→ltb, leb→le, ==_iff, ==_refl, tests, Bool-cases, Option-cases, length, get_elem?, get_or,
  set as set_elem, take, replicate, length-append, length-set, length-replicate, get_or-replicate,
  get_or-set, get_elem?-get_or, lt_wf,
}

pub record LoadState : Type 0 where
  pub counters : List ℕ

unfoldable pub load_state : ℕ → LoadState
load_state pod_count = record { counters = replicate pod_count 0 }

unfoldable pub inflight : LoadState → ℕ → ℕ
inflight s pod_id = get_or s.counters pod_id 0

unfoldable pub can_accept : LoadState → PodEndpoint → Bool
can_accept s pod = elim (get_elem? s.counters pod.id) [
  | none ↦ false
  | some n ↦ ltb n pod.max_conns
]

-- A guard holds the pod id; `none` is an unknown pod. `fetch_add` wraps around.
unfoldable pub track : LoadState → ℕ → Option (LoadState × ℕ)
track s pod_id = elim (get_elem? s.counters pod_id) [
  | none ↦ none
  | some n ↦ some (record { counters = set_elem s.counters pod_id ((n + 1) % 2 ^ 64) }, pod_id)
]

unfoldable pub set_inflight_for_test : LoadState → ℕ → ℕ → LoadState
set_inflight_for_test s pod_id value = elim (get_elem? s.counters pod_id) [
  | none ↦ s
  | some n ↦ record { counters = set_elem s.counters pod_id value }
]

-- Also what the drop of a guard does.
unfoldable pub decrement : LoadState → ℕ → LoadState
decrement s pod_id = elim (get_elem? s.counters pod_id) [
  | none ↦ s
  | some n ↦ record { counters = set_elem s.counters pod_id (n - 1) }
]
