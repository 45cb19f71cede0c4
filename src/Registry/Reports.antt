-- ===== src/Registry/Reports.antt =====
-- The numbers that the registry reports.
use calinix.Bitmap
use calinix.Bitmap.{HostBitmap}
use calinix.Bitmap.First.{count-iter_set_bits}
use calinix.Index
use calinix.Index.{ShardedBlockIndexer, sum, retain_all}
use calinix.Index.Entries.{Shard, length-retain}
use calinix.Index.Invariant.{IsIndex}
use calinix.Registry.{
  CacheRegistry, removed_entries, report_dead_pod, report_not_alive, stats, snapshot, from_indexer,
  count_positive,
}
use calinix.Prelude.{ℕ, ◌+◌, ◌≤◌, ◌≡◌, refl, List, [], ◌∷◌, map, arith, length}

sum-retain_all :
    (keep : HostBitmap → HostBitmap) (shards : List Shard)
    → sum (map length (retain_all keep shards)) ≤ sum (map length shards)
unfolding sum retain_all
sum-retain_all keep [] = omega arith
sum-retain_all keep (shard ∷ shards) =
    omega (arith, length-retain keep shard, sum-retain_all keep shards)

-- A clean-up never adds entries, so the number of removed entries is the exact difference: with
-- it, the count after the clean-up adds up to the count before. Both clean-ups change the index as
-- they do without a report.
pub report-removed_entries :
    (idx : ShardedBlockIndexer) (pod_id : ℕ)
    → let (dead, dead_report) = report_dead_pod idx pod_id in
      let (gone, gone_report) = report_not_alive idx in
      (dead ≡ Index.cleanup_dead_pod idx pod_id)
      × (Index.total_entries dead + removed_entries dead_report ≡ Index.total_entries idx)
      × (gone ≡ Index.cleanup_not_alive idx)
      × (Index.total_entries gone + removed_entries gone_report ≡ Index.total_entries idx)
unfolding report_dead_pod report_not_alive removed_entries Index.total_entries
    Index.shard_entry_counts Index.cleanup_dead_pod Index.cleanup_not_alive
report-removed_entries idx pod_id = (
  refl,
  omega (arith, sum-retain_all (λ owners. Bitmap.clear owners pod_id) idx.shards),
  refl,
  omega (arith, sum-retain_all (λ owners. Bitmap.and owners idx.alive) idx.shards),
)

count_positive-sum : (ns : List ℕ) → (count_positive ns ≤ sum ns) × (count_positive ns ≤ length ns)
unfolding count_positive sum
count_positive-sum [] = (omega arith, omega arith)
count_positive-sum (n ∷ ns) =
    let (below, short) = count_positive-sum ns in (ground arith, ground arith)

-- Of a well-formed registry, the statistics count the live pods as a list of them would, there are
-- at most as many shards in use as entries, and the entries are those of all shards.
pub stats-bounds :
    (r : CacheRegistry)
    → IsIndex r.block_index
    → ((stats r).alive_pods ≡ length (Bitmap.iter_set_bits r.block_index.alive))
      × ((stats r).non_empty_shards ≤ (stats r).total_entries)
      × ((stats r).total_entries ≡ Index.total_entries r.block_index)
unfolding stats snapshot from_indexer Index.total_entries
stats-bounds r v = (
  count-iter_set_bits r.block_index.alive v.alive_words,
  (count_positive-sum (Index.shard_entry_counts r.block_index)).0,
  refl,
)
