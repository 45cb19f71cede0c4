-- ===== src/Registry.antt =====
-- src/calinix/cache_registry/mod.rs, types.rs, alive.rs, cleanup.rs, events.rs and snapshot.rs: the
-- registry, a front of the block index, the events that change it, and the reports about it.
pub mod Events
pub mod Reports
use mathlib.Core.Option
use calinix.Bitmap
use calinix.Bitmap.{HostBitmap}
use calinix.Hash.{BlockHash, default_shard_count}
use calinix.Index
use calinix.Index.{ShardedBlockIndexer}
use calinix.Query
use calinix.Query.{PrefixMatch}
use calinix.Query.Best.{best_prefix_match_for_candidates}
use calinix.Prelude.{
  ℕ, zero, suc, ◌+◌, ◌-◌, ◌*◌, ◌/◌, ◌%◌, ◌^◌, ◌≤◌, ◌<◌, min, max, ◌≡◌, refl, sym, ap, ap₂, ◌∙◌,
  subst, fun_ext, ◌≢◌, ◌↔◌, ◌⊎◌, inl, inr, Bool, true, false, not, ◌&&◌, ◌||◌, Option, none, some,
  List, [], ◌∷◌, ◌++◌, map, append_assoc, append-nil, arith, ltb, leb, ◌==◌, if◌then◌else◌, ltb→lt,
  lt→ltb, leb→le, ==_iff, ==_refl, tests, Bool-cases, Option-cases, length, get_elem?, get_or,
  set as set_elem, take, replicate, length-append, length-set, length-replicate, get_or-replicate,
  get_or-set, get_elem?-get_or, lt_wf,
}

pub record PrefixDepthByPod : Type 0 where
  pub pod_id : ℕ
  pub depth : ℕ

pub record CacheRegistryStats : Type 0 where
  pub pod_count : ℕ
  pub alive_pods : ℕ
  pub total_entries : ℕ
  pub non_empty_shards : ℕ

pub record AliveSet : Type 0 where
  pub bitmap : HostBitmap

unfoldable pub alive_set : ℕ → AliveSet
alive_set pod_count = record { bitmap = Bitmap.full_for_count pod_count }

unfoldable pub mark_alive : AliveSet → ℕ → AliveSet
mark_alive s pod_id = record { bitmap = Bitmap.set s.bitmap pod_id }

unfoldable pub mark_dead : AliveSet → ℕ → AliveSet
mark_dead s pod_id = record { bitmap = Bitmap.clear s.bitmap pod_id }

unfoldable pub is_alive : AliveSet → ℕ → Bool
is_alive s pod_id = Bitmap.contains s.bitmap pod_id

pub record CleanupReport : Type 0 where
  pub entries_before : ℕ
  pub entries_after : ℕ

-- `saturating_sub`
unfoldable pub removed_entries : CleanupReport → ℕ
removed_entries r = r.entries_before - r.entries_after

unfoldable pub report_dead_pod : ShardedBlockIndexer → ℕ → ShardedBlockIndexer × CleanupReport
report_dead_pod idx pod_id =
    let cleaned = Index.cleanup_dead_pod idx pod_id in
    (
      cleaned,
      record {
        entries_before = Index.total_entries idx;
        entries_after = Index.total_entries cleaned;
      },
    )

unfoldable pub report_not_alive : ShardedBlockIndexer → ShardedBlockIndexer × CleanupReport
report_not_alive idx =
    let cleaned = Index.cleanup_not_alive idx in
    (
      cleaned,
      record {
        entries_before = Index.total_entries idx;
        entries_after = Index.total_entries cleaned;
      },
    )

pub data CacheEvent : Type 0 where
  prefix_cached : ℕ → BlockHash → CacheEvent
  prefix_evicted : ℕ → BlockHash → CacheEvent
  pod_started : ℕ → CacheEvent
  pod_shutdown : ℕ → CacheEvent
  cleanup_pod : ℕ → CacheEvent

unfoldable pub apply_event : ShardedBlockIndexer → CacheEvent → ShardedBlockIndexer
apply_event idx (prefix_cached pod_id cumulative_hash) =
    (Index.register idx pod_id cumulative_hash).0
apply_event idx (prefix_evicted pod_id cumulative_hash) = Index.evict idx pod_id cumulative_hash
apply_event idx (pod_started pod_id) = Index.mark_alive idx pod_id
apply_event idx (pod_shutdown pod_id) = Index.shutdown idx pod_id
apply_event idx (cleanup_pod pod_id) = Index.cleanup_dead_pod idx pod_id

pub record CacheRegistrySnapshot : Type 0 where
  pub pod_count : ℕ
  pub alive : HostBitmap
  pub shard_entry_counts : List ℕ
  pub total_entries : ℕ

unfoldable pub from_indexer : ShardedBlockIndexer → CacheRegistrySnapshot
from_indexer idx =
    let shard_entry_counts = Index.shard_entry_counts idx in
    record {
      pod_count = idx.pod_count;
      alive = idx.alive;
      shard_entry_counts = shard_entry_counts;
      total_entries = Index.sum shard_entry_counts;
    }

pub record CacheRegistry : Type 0 where
  pub block_index : ShardedBlockIndexer

unfoldable pub new : ℕ → CacheRegistry
new pod_count = record { block_index = Index.new pod_count }

unfoldable pub with_shards : ℕ → ℕ → CacheRegistry
with_shards pod_count shard_count = record { block_index = Index.with_shards pod_count shard_count }

unfoldable pub new_empty_alive : ℕ → CacheRegistry
new_empty_alive pod_count = record {
  block_index = Index.with_shards_empty_alive pod_count default_shard_count;
}

unfoldable pub with_shards_empty_alive : ℕ → ℕ → CacheRegistry
with_shards_empty_alive pod_count shard_count = record {
  block_index = Index.with_shards_empty_alive pod_count shard_count;
}

unfoldable pub register_prefix : CacheRegistry → ℕ → BlockHash → CacheRegistry × Bool
register_prefix r pod_id cumulative_hash =
    let (idx, registered) = Index.register r.block_index pod_id cumulative_hash in
    (record { block_index = idx }, registered)

unfoldable pub register_chain : CacheRegistry → ℕ → List BlockHash → CacheRegistry × ℕ
register_chain r pod_id cumulative_hashes =
    let (idx, count) = Index.register_chain r.block_index pod_id cumulative_hashes in
    (record { block_index = idx }, count)

unfoldable pub evict_prefix : CacheRegistry → ℕ → BlockHash → CacheRegistry
evict_prefix r pod_id cumulative_hash = record {
  block_index = Index.evict r.block_index pod_id cumulative_hash;
}

unfoldable pub evict_chain : CacheRegistry → ℕ → List BlockHash → CacheRegistry
evict_chain r pod_id cumulative_hashes = record {
  block_index = Index.evict_chain r.block_index pod_id cumulative_hashes;
}

unfoldable pub shutdown_pod : CacheRegistry → ℕ → CacheRegistry
shutdown_pod r pod_id = record { block_index = Index.shutdown r.block_index pod_id }

unfoldable pub mark_pod_alive : CacheRegistry → ℕ → CacheRegistry
mark_pod_alive r pod_id = record { block_index = Index.mark_alive r.block_index pod_id }

unfoldable pub registry_owners : CacheRegistry → BlockHash → HostBitmap
registry_owners r cumulative_hash = Index.owners r.block_index cumulative_hash

unfoldable pub longest_prefix_lengths :
    CacheRegistry → List BlockHash → HostBitmap → Option (List ℕ)
longest_prefix_lengths r cumulative_hashes candidate_pods =
    Query.longest_prefix_lengths_for_candidates r.block_index cumulative_hashes candidate_pods

unfoldable pub prefix_lengths_into :
    CacheRegistry → List BlockHash → HostBitmap → List ℕ → Option (List ℕ)
prefix_lengths_into r cumulative_hashes candidate_pods lengths =
    Query.longest_prefix_lengths_into r.block_index cumulative_hashes candidate_pods lengths

unfoldable pub best_prefix_match :
    CacheRegistry → List BlockHash → HostBitmap → Option (Option PrefixMatch)
best_prefix_match r cumulative_hashes candidate_pods =
    best_prefix_match_for_candidates r.block_index cumulative_hashes candidate_pods

unfoldable pub cleanup_dead_pod : CacheRegistry → ℕ → CacheRegistry × CleanupReport
cleanup_dead_pod r pod_id =
    let (idx, report) = report_dead_pod r.block_index pod_id in
    (record { block_index = idx }, report)

unfoldable pub snapshot : CacheRegistry → CacheRegistrySnapshot
snapshot r = from_indexer r.block_index

-- `iter().filter(|entry_count| entry_count > 0).count()`
unfoldable pub count_positive : List ℕ → ℕ
count_positive [] = 0
count_positive (n ∷ ns) = let rest = count_positive ns in if ltb 0 n then rest + 1 else rest

unfoldable pub stats : CacheRegistry → CacheRegistryStats
stats r =
    let s = snapshot r in
    record {
      pod_count = s.pod_count;
      alive_pods = Bitmap.count s.alive;
      total_entries = s.total_entries;
      non_empty_shards = count_positive s.shard_entry_counts;
    }
