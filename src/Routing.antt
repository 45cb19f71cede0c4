-- ===== src/Routing.antt =====
-- src/calinix/routing/filter.rs and plan.rs: the pods that may serve a request, and the plan that
-- names the ones that do.
pub mod Eligible
pub mod Score
pub mod Pipeline
pub mod Headers
pub mod Prepare
pub mod Dispatch
pub mod Pick
use calinix.Bitmap
use calinix.Bitmap.{HostBitmap}
use calinix.Config.{PodRole, single, prefill, decode}
use calinix.Hash.{Text}
use calinix.Upstream.{
  PodEndpoint, UpstreamCatalog, UpstreamGroup, group_by_name, pod_at, pod_id_from, supports,
}
use calinix.Upstream.Load.{LoadState, can_accept}
use calinix.Prelude.{
  ℕ, zero, suc, ◌+◌, ◌-◌, ◌*◌, ◌/◌, ◌%◌, ◌^◌, ◌≤◌, ◌<◌, min, max, ◌≡◌, refl, sym, ap, ap₂, ◌∙◌,
  subst, fun_ext, ◌≢◌, ◌↔◌, ◌⊎◌, inl, inr, Bool, true, false, not, ◌&&◌, ◌||◌, Option, none, some,
  List, [], ◌∷◌, ◌++◌, map, append_assoc, append-nil, arith, ltb, leb, ◌==◌, if◌then◌else◌, ltb→lt,
  lt→ltb, leb→le, ==_iff, ==_refl, tests, Bool-cases, Option-cases, length, get_elem?, get_or,
  set as set_elem, take, replicate, length-append, length-set, length-replicate, get_or-replicate,
  get_or-set, get_elem?-get_or, get_elem?-beyond, get_elem?-cases, get_elem?-left, get_elem?-last,
  get_or-beyond, lt_wf,
}

pub data RequiredRole : Type 0 where
  needs_single : RequiredRole
  needs_prefill : RequiredRole
  needs_decode : RequiredRole

-- `From<RequiredRole> for PodRole`
unfoldable pub role_from : RequiredRole → PodRole
role_from needs_single = single
role_from needs_prefill = prefill
role_from needs_decode = decode

pub record RoutePolicy : Type 0 where
  pub name : Text
  pub single_upstream : Text
  pub prefill_upstream : Text
  pub decode_upstream : Text
  pub require_healthy : Bool

unfoldable pub upstream_for_role : RoutePolicy → RequiredRole → Text
upstream_for_role policy needs_single = policy.single_upstream
upstream_for_role policy needs_prefill = policy.prefill_upstream
upstream_for_role policy needs_decode = policy.decode_upstream

-- The derived `==` of `PodRole`.
unfoldable pub same_role : PodRole → PodRole → Bool
same_role single single = true
same_role single prefill = false
same_role single decode = false
same_role prefill single = false
same_role prefill prefill = true
same_role prefill decode = false
same_role decode single = false
same_role decode prefill = false
same_role decode decode = true

-- The condition on a pod of the group.
unfoldable pub may_serve : LoadState → PodRole → PodEndpoint → Bool
may_serve loads role pod =
    pod.healthy && (not pod.draining && (supports pod.capabilities role && can_accept loads pod))

-- The closure that `for_each_set_bit` runs.
unfoldable pub add_eligible : UpstreamCatalog → LoadState → PodRole → HostBitmap → ℕ → HostBitmap
add_eligible upstreams loads role eligible bit = elim (pod_id_from bit) [
  | none ↦ eligible
  | some pod_id ↦ elim (pod_at upstreams pod_id) [
    | none ↦ eligible
    | some pod ↦ if may_serve loads role pod then Bitmap.set eligible pod_id else eligible
  ]
]

unfoldable pub eligible_candidates :
    UpstreamCatalog → LoadState → HostBitmap → Text → RequiredRole → HostBitmap
eligible_candidates upstreams loads alive group_name required_role =
    elim (group_by_name upstreams group_name) [
      | none ↦ Bitmap.empty
      | some group ↦
          if not (same_role group.role (role_from required_role))
          then Bitmap.empty
          else Bitmap.for_each_set_bit (add_eligible upstreams loads (role_from required_role))
              (Bitmap.and group.pod_bitmap alive) Bitmap.empty
    ]

unfoldable pub candidates_for_role :
    UpstreamCatalog → LoadState → RequiredRole → RoutePolicy → HostBitmap → HostBitmap
candidates_for_role upstreams loads role route_policy alive =
    eligible_candidates upstreams loads alive (upstream_for_role route_policy role) role

pub data RoutingPlan : Type 0 where
  single_plan : Text → ℕ → Text → Bool → ℕ → Text → RoutingPlan
  disaggregated_plan : Text → Text → ℕ → ℕ → Bool → ℕ → Text → RoutingPlan

unfoldable pub request_id : RoutingPlan → Text
request_id (single_plan id pod address hit depth policy) = id
request_id (disaggregated_plan id address prefill_pod decode_pod hit depth policy) = id

unfoldable pub primary_pod_id : RoutingPlan → ℕ
primary_pod_id (single_plan id pod address hit depth policy) = pod
primary_pod_id (disaggregated_plan id address prefill_pod decode_pod hit depth policy) = prefill_pod

unfoldable pub cache_hit : RoutingPlan → Bool
cache_hit (single_plan id pod address hit depth policy) = hit
cache_hit (disaggregated_plan id address prefill_pod decode_pod hit depth policy) = hit

unfoldable pub cache_prefix_depth : RoutingPlan → ℕ
cache_prefix_depth (single_plan id pod address hit depth policy) = depth
cache_prefix_depth (disaggregated_plan id address prefill_pod decode_pod hit depth policy) = depth

unfoldable pub target_address : RoutingPlan → Text
target_address (single_plan id pod address hit depth policy) = address
target_address (disaggregated_plan id address prefill_pod decode_pod hit depth policy) = address
