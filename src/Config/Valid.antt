-- ===== src/Config/Valid.antt =====
-- What the checks of the configuration let through.
use calinix.Hash.{Text}
use calinix.Text.{is_blank}
use calinix.Config.{
  CalinixConfig, PodConfig, single_mode, dispatch_mode, ConfigError, too_many_pods, above_u16,
  is_seen, configured_pods,
}
use calinix.Prelude.Results.{Result, ok, ◌>>◌, reject}
use calinix.Prelude.{ℕ, ◌≤◌, ◌<◌, ◌≡◌, false, List, [], ◌∷◌, ltb, length}

-- A pod's own settings.
pub record IsPod (pod : PodConfig) : Type 0 where
  pub id_given : is_blank pod.id ≡ false
  pub url_given : is_blank pod.url ≡ false
  pub conns_positive : 0 < pod.max_conns

-- The pods are well-formed, and no id is among those before it.
abbrev pub ArePods : List Text → List PodConfig → Type 0
ArePods pod_ids [] = Unit {0}
ArePods pod_ids (pod ∷ pods) =
    IsPod pod × (is_seen pod.id pod_ids ≡ false) × ArePods (pod.id ∷ pod_ids) pods

-- What a configuration must be.
pub record IsConfig (c : CalinixConfig) : Type 0 where
  pub port_set : 0 < c.gateway.port
  pub shards_set : 0 < c.cache_registry.shards_count
  pub endpoint_given : is_blank c.health.endpoint ≡ false
  pub interval_set : 0 < c.health.interval_ms
  pub timeout_set : 0 < c.health.timeout_ms
  pub healthy_set : 0 < c.health.healthy_threshold
  pub unhealthy_set : 0 < c.health.unhealthy_threshold
  pub max_pods_bound : c.cache_registry.max_pods ≤ 256
  pub single_upstream_mode : c.upstreams.single_upstream.mode ≡ single_mode
  pub dispatch_upstream_mode : c.upstreams.dispatch.mode ≡ dispatch_mode
  pub some_single : 0 < length c.upstreams.single_upstream.pods
  pub some_prefill : 0 < length c.upstreams.dispatch.prefill_group.pods
  pub some_decode : 0 < length c.upstreams.dispatch.decode_group.pods
  pub pods_valid : ArePods [] (configured_pods c)
  pub count_bound : length (configured_pods c) ≤ c.cache_registry.max_pods

-- The end of the checks, for the number of pods that the loop gives.
abbrev count_checks : CalinixConfig → ℕ → Result ConfigError (Unit {0})
count_checks c total =
    reject (ltb c.cache_registry.max_pods total) (too_many_pods total)
    >> (reject (ltb 65_535 total) above_u16 >> ok tt)
