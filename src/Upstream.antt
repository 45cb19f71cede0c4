-- ===== src/Upstream.antt =====
-- src/calinix/upstream/roles.rs, pool.rs and pod.rs: the pods that the configuration names, with
-- their ids, their roles, and the catalog that the router reads.
pub mod Load
pub mod Health
pub mod Urls
pub mod Built
use mathlib.Core.Option
use calinix.Bitmap
use calinix.Bitmap.{HostBitmap}
use calinix.Config.{PodRole, single, prefill, decode, PodCapabilities, PodConfig, CalinixConfig}
use calinix.Hash.{Text}
use calinix.Prelude.Results.{Result, err, ok, ◌>>=◌, ◌>>◌, reject}
use calinix.Registry
use calinix.Registry.{CacheRegistry}
use calinix.Text.{same_text}
use calinix.Prelude.{
  ℕ, zero, suc, ◌+◌, ◌-◌, ◌*◌, ◌/◌, ◌%◌, ◌^◌, ◌≤◌, ◌<◌, min, max, ◌≡◌, refl, sym, ap, ap₂, ◌∙◌,
  subst, fun_ext, ◌≢◌, ◌↔◌, ◌⊎◌, inl, inr, Bool, true, false, not, ◌&&◌, ◌||◌, Option, none, some,
  List, [], ◌∷◌, ◌++◌, map, append_assoc, append-nil, arith, ltb, leb, ◌==◌, if◌then◌else◌, ltb→lt,
  lt→ltb, leb→le, ==_iff, ==_refl, tests, Bool-cases, Option-cases, length, get_elem?, get_or,
  set as set_elem, take, replicate, length-append, length-set, length-replicate, get_or-replicate,
  get_or-set, get_elem?-get_or, lt_wf,
}

abbrev pub only_single : PodCapabilities
only_single = record { can_single = true; can_prefill = false; can_decode = false }

abbrev pub only_prefill : PodCapabilities
only_prefill = record { can_single = false; can_prefill = true; can_decode = false }

abbrev pub only_decode : PodCapabilities
only_decode = record { can_single = false; can_prefill = false; can_decode = true }

unfoldable pub supports : PodCapabilities → PodRole → Bool
supports c single = c.can_single
supports c prefill = c.can_prefill
supports c decode = c.can_decode

-- `From<PodRole> for PodCapabilities`
unfoldable pub capabilities_from : PodRole → PodCapabilities
capabilities_from single = only_single
capabilities_from prefill = only_prefill
capabilities_from decode = only_decode

pub record PodEndpoint : Type 0 where
  pub id : ℕ
  pub pod_id : ℕ
  pub address : Text
  pub healthy : Bool
  pub draining : Bool
  pub max_conns : ℕ
  pub capabilities : PodCapabilities

pub record UpstreamGroup : Type 0 where
  pub id : ℕ
  pub name : Text
  pub role : PodRole
  pub pods : List ℕ
  pub pod_bitmap : HostBitmap

pub record UpstreamCatalog : Type 0 where
  pub pods : List PodEndpoint
  pub groups : List UpstreamGroup

-- `iter().find(...)`
unfoldable pub find_group : (UpstreamGroup → Bool) → List UpstreamGroup → Option UpstreamGroup
find_group test [] = none
find_group test (group ∷ groups) = if test group then some group else find_group test groups

unfoldable pub group_by_name : UpstreamCatalog → Text → Option UpstreamGroup
group_by_name catalog name = find_group (λ group. same_text group.name name) catalog.groups

unfoldable pub filter_id : ℕ → Option PodEndpoint → Option PodEndpoint
filter_id pod_id none = none
filter_id pod_id (some pod) = if pod.id == pod_id then some pod else none

unfoldable pub pod_at : UpstreamCatalog → ℕ → Option PodEndpoint
pod_at catalog pod_id = filter_id pod_id (get_elem? catalog.pods pod_id)

-- `filter_map(...)` over the ids.
unfoldable pub pods_at : UpstreamCatalog → List ℕ → List PodEndpoint
pods_at catalog [] = []
pods_at catalog (pod_id ∷ ids) = elim (pod_at catalog pod_id) [
  | none ↦ pods_at catalog ids
  | some pod ↦ pod ∷ pods_at catalog ids
]

unfoldable pub pods_in_group : UpstreamCatalog → ℕ → List PodEndpoint
pods_in_group catalog group_id = elim (find_group (λ group. group.id == group_id) catalog.groups) [
  | none ↦ []
  | some group ↦ pods_at catalog group.pods
]

-- The hash map: the pairs that were inserted, the last one in front.
pub record PodTable : Type 0 where
  pub pods : List PodEndpoint
  pub by_external_id : List (Text × ℕ)

pub record RuntimeRegistry : Type 0 where
  pub pod_table : PodTable
  pub upstreams : UpstreamCatalog
  pub single_pods : HostBitmap
  pub prefill_pods : HostBitmap
  pub decode_pods : HostBitmap
  pub cache_registry : CacheRegistry

unfoldable pub external_pod : List (Text × ℕ) → Text → Option ℕ
external_pod [] id = none
external_pod ((key, pod_id) ∷ entries) id =
    if same_text key id then some pod_id else external_pod entries id

-- The messages, by what they say.
pub data PodError : Type 0 where
  too_many_pods : PodError
  role_unsupported : Text → PodRole → PodError

-- `u16::try_from`
unfoldable pub pod_id_from : ℕ → Option ℕ
pod_id_from n = if leb n 65_535 then some n else none

-- The table that is being built, with the bitmap of the role at hand.
pub record Building : Type 0 where
  pub pods : List PodEndpoint
  pub by_external_id : List (Text × ℕ)
  pub role_bitmap : HostBitmap

-- `pod.capabilities.unwrap_or_else(|| role.into())`
unfoldable pub pod_capabilities : PodRole → PodConfig → PodCapabilities
pod_capabilities role pod = Option.get_or pod.capabilities (capabilities_from role)

-- The writes of one round for a pod that gets the id.
unfoldable pub add_pod : PodRole → Building → PodConfig → ℕ → Building
add_pod role b pod pod_id = record {
  pods =
      b.pods
      ++ record {
        id = pod_id;
        pod_id = pod_id;
        address = pod.url;
        healthy = pod.healthy;
        draining = pod.draining;
        max_conns = pod.max_conns;
        capabilities = pod_capabilities role pod;
      }
        ∷ [];
  by_external_id = (pod.id, pod_id) ∷ b.by_external_id;
  role_bitmap = Bitmap.set b.role_bitmap pod_id;
}

-- The body of the loop of `push_pods`.
unfoldable pub push_pod : PodRole → Building → PodConfig → Result PodError Building
push_pod role b pod = elim (pod_id_from (length b.pods)) [
  | none ↦ err too_many_pods
  | some pod_id ↦
      if not (supports (pod_capabilities role pod) role)
      then err (role_unsupported pod.id role)
      else ok (add_pod role b pod pod_id)
]

unfoldable pub push_pods : PodRole → Building → List PodConfig → Result PodError Building
push_pods role b [] = ok b
push_pods role b (pod ∷ configured) = do b' ← push_pod role b pod; push_pods role b' configured

-- The ids that fit in u16.
unfoldable pub push_pod_id : List ℕ → ℕ → List ℕ
push_pod_id pod_ids pod_id = elim (pod_id_from pod_id) [
  | none ↦ pod_ids
  | some id ↦ pod_ids ++ id ∷ []
]

unfoldable pub pod_ids_from_bitmap : HostBitmap → List ℕ
pod_ids_from_bitmap bitmap = Bitmap.for_each_set_bit push_pod_id bitmap []

-- "single", "prefill" and "decode"
abbrev pub single_name : Text
single_name = 115 ∷ 105 ∷ 110 ∷ 103 ∷ 108 ∷ 101 ∷ []

abbrev pub prefill_name : Text
prefill_name = 112 ∷ 114 ∷ 101 ∷ 102 ∷ 105 ∷ 108 ∷ 108 ∷ []

abbrev pub decode_name : Text
decode_name = 100 ∷ 101 ∷ 99 ∷ 111 ∷ 100 ∷ 101 ∷ []

unfoldable pub role_group : ℕ → Text → PodRole → HostBitmap → UpstreamGroup
role_group id name role pod_bitmap = record {
  id = id;
  name = name;
  role = role;
  pods = pod_ids_from_bitmap pod_bitmap;
  pod_bitmap = pod_bitmap;
}

unfoldable pub catalog_from_parts :
    List PodEndpoint → HostBitmap → HostBitmap → HostBitmap → UpstreamCatalog
catalog_from_parts pods single_pods prefill_pods decode_pods = record {
  pods = pods;
  groups =
      role_group 1 single_name single single_pods
      ∷ role_group 2 prefill_name prefill prefill_pods
      ∷ role_group 3 decode_name decode decode_pods
      ∷ [];
}

-- The next role starts with no pods in its bitmap.
abbrev pub next_role : Building → Building
next_role b = record b { role_bitmap = Bitmap.empty }

abbrev pub no_pods_yet : Building
no_pods_yet = record { pods = []; by_external_id = []; role_bitmap = Bitmap.empty }

unfoldable pub from_config : CalinixConfig → Result PodError RuntimeRegistry
from_config config = do
  let total_pods =
      length config.upstreams.single_upstream.pods
      + length config.upstreams.dispatch.prefill_group.pods
      + length config.upstreams.dispatch.decode_group.pods
  b₁ ← push_pods single no_pods_yet config.upstreams.single_upstream.pods
  b₂ ← push_pods prefill (next_role b₁) config.upstreams.dispatch.prefill_group.pods
  b₃ ← push_pods decode (next_role b₂) config.upstreams.dispatch.decode_group.pods
  ok (record {
    pod_table = record { pods = b₃.pods; by_external_id = b₃.by_external_id };
    upstreams = catalog_from_parts b₃.pods b₁.role_bitmap b₂.role_bitmap b₃.role_bitmap;
    single_pods = b₁.role_bitmap;
    prefill_pods = b₂.role_bitmap;
    decode_pods = b₃.role_bitmap;
    cache_registry = Registry.with_shards_empty_alive total_pods config.cache_registry.shards_count;
  })

unfoldable pub total_pods : RuntimeRegistry → ℕ
total_pods r = length r.pod_table.pods
