-- ===== src/Tests/Indexes.antt =====
-- src/calinix/cache_registry/sharded_index.rs on a small index.
use calinix.Bitmap
use calinix.Bitmap.{HostBitmap}
use calinix.Index.{
  ShardedBlockIndexer, with_shards_and_alive, register, cleanup_not_alive, owners_alive,
}
use calinix.Index.Invariant.{IsIndex, with_shards_and_alive-IsIndex, register-IsIndex}
use calinix.Index.Owners.{owns, register-owns, cleanup_not_alive-owns}
use calinix.Tests.Bitmaps.{two_pods, two_pods-IsWords}
use calinix.Prelude.{◌≡◌, not, ◌&&◌, ◌||◌, arith, ltb, ◌==◌, if◌then◌else◌}

abbrev empty_index : ShardedBlockIndexer
empty_index = with_shards_and_alive 200 2 two_pods

-- Pod 3 caches block 11.
abbrev pub small_index : ShardedBlockIndexer
small_index = (register empty_index 3 11).0

empty_index-IsIndex : IsIndex empty_index
empty_index-IsIndex = with_shards_and_alive-IsIndex 200 2 two_pods two_pods-IsWords

pub small_index-IsIndex : IsIndex small_index
small_index-IsIndex = register-IsIndex empty_index 3 11 (omega arith) empty_index-IsIndex

register-owns_example :
    (owns (register small_index 130 11).0 11 3 ≡ (
      if 11 == 11
      then (130 == 3 && ltb 130 256) || owns small_index 11 3
      else owns small_index 11 3))
    × ((register small_index 130 11).1 ≡ not (owns small_index 11 130))
register-owns_example = register-owns small_index 130 11 11 3 small_index-IsIndex

cleanup_not_alive-owns_example :
    owns (cleanup_not_alive small_index) 11 3 ≡ Bitmap.contains (owners_alive small_index 11) 3
cleanup_not_alive-owns_example = cleanup_not_alive-owns small_index 11 3 small_index-IsIndex
