-- ===== src/Config.antt =====
-- src/calinix/config/schema.rs and validation.rs: the configuration, as it is after the decoding
-- of its file, and the checks on it.
pub mod Valid
use calinix.Hash.{Text}
use calinix.Prelude.Results.{Result, err, ok, ◌>>=◌, ◌>>◌, reject}
use calinix.Text.{same_text, is_blank}
use calinix.Prelude.{
  ℕ, zero, suc, ◌+◌, ◌-◌, ◌*◌, ◌/◌, ◌%◌, ◌^◌, ◌≤◌, ◌<◌, min, max, ◌≡◌, refl, sym, ap, ap₂, ◌∙◌,
  subst, fun_ext, ◌≢◌, ◌↔◌, ◌⊎◌, inl, inr, Bool, true, false, not, ◌&&◌, ◌||◌, Option, none, some,
  List, [], ◌∷◌, ◌++◌, map, append_assoc, append-nil, arith, ltb, leb, ◌==◌, if◌then◌else◌, ltb→lt,
  lt→ltb, leb→le, ==_iff, ==_refl, tests, Bool-cases, Option-cases, length, get_elem?, get_or,
  set as set_elem, take, replicate, length-append, length-set, length-replicate, get_or-replicate,
  get_or-set, get_elem?-get_or, lt_wf,
}

pub data PodRole : Type 0 where
  single : PodRole
  prefill : PodRole
  decode : PodRole

pub record PodCapabilities : Type 0 where
  pub can_single : Bool
  pub can_prefill : Bool
  pub can_decode : Bool

pub data Strategy : Type 0 where
  cache_aware : Strategy

pub data UpstreamMode : Type 0 where
  single_mode : UpstreamMode
  dispatch_mode : UpstreamMode

pub record GatewayConfig : Type 0 where
  pub port : ℕ
  pub strategy : Strategy

pub record HealthConfig : Type 0 where
  pub endpoint : Text
  pub interval_ms : ℕ
  pub timeout_ms : ℕ
  pub healthy_threshold : ℕ
  pub unhealthy_threshold : ℕ

pub record CacheRegistryConfig : Type 0 where
  pub enabled : Bool
  pub max_pods : ℕ
  pub shards_count : ℕ
  pub stale_ttl_ms : ℕ

pub record PodConfig : Type 0 where
  pub id : Text
  pub url : Text
  pub healthy : Bool
  pub draining : Bool
  pub max_conns : ℕ
  pub capabilities : Option PodCapabilities

pub record SingleUpstreamsConfig : Type 0 where
  pub mode : UpstreamMode
  pub pods : List PodConfig

pub record PodGroupConfig : Type 0 where
  pub pods : List PodConfig

pub record DispatchUpstreamsConfig : Type 0 where
  pub mode : UpstreamMode
  pub prefill_group : PodGroupConfig
  pub decode_group : PodGroupConfig

pub record UpstreamsConfig : Type 0 where
  pub single_upstream : SingleUpstreamsConfig
  pub dispatch : DispatchUpstreamsConfig

pub record CalinixConfig : Type 0 where
  pub version : ℕ
  pub gateway : GatewayConfig
  pub health : HealthConfig
  pub cache_registry : CacheRegistryConfig
  pub upstreams : UpstreamsConfig

-- The messages, by what they say.
pub data ConfigError : Type 0 where
  port_zero : ConfigError
  strategy_unknown : ConfigError
  max_pods_zero : ConfigError
  shards_count_zero : ConfigError
  endpoint_empty : ConfigError
  interval_zero : ConfigError
  timeout_zero : ConfigError
  healthy_threshold_zero : ConfigError
  unhealthy_threshold_zero : ConfigError
  max_pods_above : ConfigError
  single_mode_wrong : ConfigError
  dispatch_mode_wrong : ConfigError
  no_single_pod : ConfigError
  no_prefill_pod : ConfigError
  no_decode_pod : ConfigError
  pod_id_empty : ConfigError
  pod_id_duplicated : Text → ConfigError
  url_empty : Text → ConfigError
  max_conns_zero : Text → ConfigError
  too_many_pods : ℕ → ConfigError
  above_u16 : ConfigError

abbrev pub max_config_pods : ℕ
max_config_pods = 256

unfoldable pub is_cache_aware : Strategy → Bool
is_cache_aware cache_aware = true

unfoldable pub is_single_mode : UpstreamMode → Bool
is_single_mode single_mode = true
is_single_mode dispatch_mode = false

unfoldable pub no_pods : List PodConfig → Bool
no_pods [] = true
no_pods (pod ∷ pods) = false

-- `pod_ids` is a hash set: a list of the ids that it was given.
unfoldable pub is_seen : Text → List Text → Bool
is_seen id [] = false
is_seen id (seen ∷ pod_ids) = same_text id seen || is_seen id pod_ids

-- The body of the loop for one pod.
unfoldable pub check_pod : List Text → PodConfig → Result ConfigError (List Text)
check_pod pod_ids pod = do
  reject (is_blank pod.id) pod_id_empty
  reject (is_seen pod.id pod_ids) (pod_id_duplicated pod.id)
  reject (is_blank pod.url) (url_empty pod.id)
  reject (pod.max_conns == 0) (max_conns_zero pod.id)
  ok (pod.id ∷ pod_ids)

-- The result is `total_pods`.
unfoldable pub check_pods : List Text → ℕ → List PodConfig → Result ConfigError ℕ
check_pods pod_ids total_pods [] = ok total_pods
check_pods pod_ids total_pods (pod ∷ pods) = do
  pod_ids' ← check_pod pod_ids pod
  check_pods pod_ids' (total_pods + 1) pods

abbrev pub configured_pods : CalinixConfig → List PodConfig
configured_pods c =
    c.upstreams.single_upstream.pods
    ++ (c.upstreams.dispatch.prefill_group.pods ++ c.upstreams.dispatch.decode_group.pods)

unfoldable pub validate_config : CalinixConfig → Result ConfigError (Unit {0})
validate_config c = do
  reject (c.gateway.port == 0) port_zero
  reject (not (is_cache_aware c.gateway.strategy)) strategy_unknown
  reject (c.cache_registry.max_pods == 0) max_pods_zero
  reject (c.cache_registry.shards_count == 0) shards_count_zero
  reject (is_blank c.health.endpoint) endpoint_empty
  reject (c.health.interval_ms == 0) interval_zero
  reject (c.health.timeout_ms == 0) timeout_zero
  reject (c.health.healthy_threshold == 0) healthy_threshold_zero
  reject (c.health.unhealthy_threshold == 0) unhealthy_threshold_zero
  reject (ltb max_config_pods c.cache_registry.max_pods) max_pods_above
  reject (not (is_single_mode c.upstreams.single_upstream.mode)) single_mode_wrong
  reject (is_single_mode c.upstreams.dispatch.mode) dispatch_mode_wrong
  reject (no_pods c.upstreams.single_upstream.pods) no_single_pod
  reject (no_pods c.upstreams.dispatch.prefill_group.pods) no_prefill_pod
  reject (no_pods c.upstreams.dispatch.decode_group.pods) no_decode_pod
  total_pods ← check_pods [] 0 (configured_pods c)
  reject (ltb c.cache_registry.max_pods total_pods) (too_many_pods total_pods)
  reject (ltb 65_535 total_pods) above_u16
  ok tt
