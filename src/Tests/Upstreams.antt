-- ===== src/Tests/Upstreams.antt =====
-- src/calinix/config/validation.rs and src/calinix/upstream on a small configuration.
use calinix.Bitmap
use calinix.Bitmap.{HostBitmap}
use calinix.Bitmap.Laws.{set-IsWords, empty-IsWords}
use calinix.Bitmap.Members.{IsWords}
use calinix.Routing.{needs_single, eligible_candidates}
use calinix.Routing.Eligible.{IsEligible, contains-eligible_candidates}
use calinix.Config.{
  CalinixConfig, single, prefill, decode, PodConfig, cache_aware, single_mode, dispatch_mode,
  validate_config, is_cache_aware, is_single_mode, no_pods, is_seen, check_pod, check_pods,
}
use calinix.Hash.{is_whitespace}
use calinix.Prelude.Results.{err, ok}
use calinix.Registry
use calinix.Text.{same_text, is_blank, strip_prefix, split_once, parse_digits, parse_u16}
use calinix.Upstream.{
  RuntimeRegistry, Building, no_pods_yet, next_role, from_config, push_pod, push_pods, pod_id_from,
  supports, pod_capabilities, capabilities_from, add_pod,
}
use calinix.Upstream.{
  UpstreamGroup, group_by_name, find_group, role_group, single_name, catalog_from_parts,
}
use calinix.Upstream.Built.{IsBuilt, built, from_config-IsBuilt}
use calinix.Upstream.Health.{healthy, PodHealthState, fresh_state, apply_health_result}
use calinix.Upstream.Health.Poller.{InStep, apply_health_result-InStep}
use calinix.Upstream.Load.{load_state, inflight}
use calinix.Upstream.Load.Guards.{
  Runs, start, tracked, held_for, one_more, track-some, inflight-held_for,
}
use calinix.Upstream.Urls.{port_invalid, http_scheme, split_path, parse_authority, parse_http_url}
use calinix.Upstream.Urls.Parts.{parse_http_url-parts}
use calinix.Prelude.{
  ℕ, ◌<◌, ◌≡◌, refl, ◌↔◌, true, false, none, some, List, [], ◌∷◌, ◌++◌, arith, length, get_or,
}

abbrev pod_named : ℕ → PodConfig
pod_named c = record {
  id = c ∷ [];
  url = 104 ∷ [];
  healthy = true;
  draining = false;
  max_conns = 100;
  capabilities = none;
}

abbrev pub small_config : CalinixConfig
small_config = record {
  version = 1;
  gateway = record { port = 8080; strategy = cache_aware };
  health = record {
    endpoint = 47 ∷ 104 ∷ [];
    interval_ms = 1000;
    timeout_ms = 500;
    healthy_threshold = 2;
    unhealthy_threshold = 3;
  };
  cache_registry = record { enabled = true; max_pods = 8; shards_count = 4; stale_ttl_ms = 0 };
  upstreams = record {
    single_upstream = record { mode = single_mode; pods = pod_named 97 ∷ [] };
    dispatch = record {
      mode = dispatch_mode;
      prefill_group = record { pods = pod_named 98 ∷ [] };
      decode_group = record { pods = pod_named 99 ∷ [] };
    };
  };
}

small_config-checked : validate_config small_config ≡ ok tt
unfolding validate_config is_cache_aware is_single_mode no_pods is_seen check_pod check_pods
    same_text is_blank is_whitespace
small_config-checked = refl

-- "http://h:80x/p"
port_refused :
    parse_http_url (http_scheme ++ 104 ∷ 58 ∷ 56 ∷ 120 ∷ 47 ∷ 112 ∷ [])
    ≡ err (port_invalid (http_scheme ++ 104 ∷ 58 ∷ 56 ∷ 120 ∷ 47 ∷ 112 ∷ []))
unfolding parse_http_url split_path parse_authority strip_prefix split_once parse_u16 parse_digits
port_refused = refl

parse_http_url-parts_example :
    (parse_http_url (http_scheme ++ (104 ∷ [] ++ 47 ∷ 112 ∷ [])) ≡ ok (104 ∷ [], 80, 47 ∷ 112 ∷ []))
    × (parse_http_url (http_scheme ++ ((104 ∷ [] ++ 58 ∷ 56 ∷ []) ++ 47 ∷ 112 ∷ []))
        ≡ elim (parse_u16 (56 ∷ [])) [
          | none ↦ err (port_invalid (http_scheme ++ ((104 ∷ [] ++ 58 ∷ 56 ∷ []) ++ 47 ∷ 112 ∷ [])))
          | some n ↦ ok (104 ∷ [], n, 47 ∷ 112 ∷ [])
        ])
parse_http_url-parts_example =
    parse_http_url-parts (104 ∷ []) (56 ∷ []) (112 ∷ []) (refl, tt) (refl, tt) (refl, tt)

abbrev one_state : List PodHealthState
one_state = fresh_state ∷ []

abbrev dark_registry : Registry.CacheRegistry
dark_registry = record {
  block_index = record { shards = [] ∷ []; alive = Bitmap.empty; pod_count = 1 };
}

dark_registry-InStep : InStep dark_registry one_state
unfolding Bitmap.contains Bitmap.word_at Bitmap.empty
dark_registry-InStep = record { few = omega arith; agree = λ p h. none_alive p (omega arith) }
  where
    none_alive :
        (p : ℕ)
        → p ≡ 0
        → Bitmap.contains dark_registry.block_index.alive p
          ≡ (get_or one_state p fresh_state).marked_alive
    none_alive p h = rw h refl

apply_health_result-InStep_example :
    InStep
      (apply_health_result dark_registry one_state 0 healthy 1 3).0
      (apply_health_result dark_registry one_state 0 healthy 1 3).1
apply_health_result-InStep_example =
    apply_health_result-InStep dark_registry one_state 0 healthy 1 3 dark_registry-InStep

-- One request on pod 1 of 2.
pod_within : 1 < length (load_state 2).counters
unfolding load_state
pod_within = omega arith

one_tracked : Runs 2 (one_more (load_state 2) 1) (1 ∷ [])
one_tracked =
    tracked (load_state 2) (one_more (load_state 2) 1) 1 1 [] (omega arith)
      (track-some (load_state 2) 1 pod_within) start

inflight-held_for_example : inflight (one_more (load_state 2) 1) 1 ≡ held_for 1 (1 ∷ [])
inflight-held_for_example = inflight-held_for 2 (one_more (load_state 2) 1) (1 ∷ []) one_tracked 1

abbrev with_single : Building
with_single = add_pod single no_pods_yet (pod_named 97) 0

abbrev with_prefill : Building
with_prefill = add_pod prefill (next_role with_single) (pod_named 98) 1

abbrev with_decode : Building
with_decode = add_pod decode (next_role with_prefill) (pod_named 99) 2

abbrev pub small_runtime : RuntimeRegistry
small_runtime = built small_config with_single with_prefill with_decode

small_runtime-built : from_config small_config ≡ ok small_runtime
unfolding from_config push_pods push_pod pod_id_from supports pod_capabilities capabilities_from
    add_pod
small_runtime-built = refl

from_config-IsBuilt_example : IsBuilt 1 1 1 small_runtime
from_config-IsBuilt_example = from_config-IsBuilt small_config small_runtime small_runtime-built

-- The bitmap of the single pods of the small configuration.
abbrev pub single_bitmap : HostBitmap
single_bitmap = Bitmap.set Bitmap.empty 0

abbrev single_group : UpstreamGroup
single_group = role_group 1 single_name single single_bitmap

single_group-found : group_by_name small_runtime.upstreams single_name ≡ some single_group
unfolding group_by_name find_group same_text catalog_from_parts add_pod role_group
single_group-found = refl

single_group-IsWords : IsWords single_group.pod_bitmap
unfolding role_group
single_group-IsWords = set-IsWords Bitmap.empty 0 empty-IsWords

contains-eligible_candidates_example :
    (Bitmap.contains
        (eligible_candidates small_runtime.upstreams
          (load_state 3)
          single_bitmap
          single_name
          needs_single)
        0
      ≡ true)
    ↔ IsEligible small_runtime.upstreams (load_state 3) single_bitmap needs_single single_group 0
contains-eligible_candidates_example =
    contains-eligible_candidates small_runtime.upstreams (load_state 3) single_bitmap single_name
      needs_single single_group 0 single_group-IsWords single_group-found
