-- ===== src/Base/Search/Debug.antt =====
-- src/base/indexer.rs, `longest_prefix_lengths_debug`: the query that also counts what it does.
use calinix.Base.Indexer.{BaseIndexer}
use calinix.Base.Search.{search_step, whole}
use calinix.Bitmap
use calinix.Bitmap.{HostBitmap, max_pods}
use calinix.Hash.{BlockHash}
use calinix.Query.{SearchFrame, ◌>>=◌}
use calinix.Query.Debug.{PrefixMatchDebug}
use calinix.Prelude.{
  ℕ, zero, suc, ◌+◌, ◌*◌, ◌||◌, Option, none, some, List, [], ◌∷◌, ◌==◌, if◌then◌else◌, length,
  replicate,
}

-- The counters after the round for a frame, and the depths that the round leaves.
unfoldable pub count_frame : SearchFrame → List ℕ → PrefixMatchDebug → PrefixMatchDebug
count_frame frame lengths d =
    if Bitmap.is_empty frame.candidate_pods || (frame.min_prefix_depth == frame.max_prefix_depth)
    then record d { lengths = lengths; frames_processed = d.frames_processed + 1 }
    else record {
      lengths = lengths;
      frames_processed = d.frames_processed + 1;
      shard_lookups = d.shard_lookups + 1;
      bitmap_intersections = d.bitmap_intersections + 2;
    }

module _ (indexer : BaseIndexer) (cumulative_hashes : List BlockHash) where
  unfoldable pub debug_loop : ℕ → List SearchFrame → PrefixMatchDebug → Option PrefixMatchDebug
  debug_loop zero stack d = none
  debug_loop (suc fuel) [] d = some d
  debug_loop (suc fuel) (frame ∷ stack) d = do
    (stack', lengths') ← search_step indexer cumulative_hashes frame stack d.lengths
    debug_loop fuel stack' (count_frame frame lengths' d)

  unfoldable pub longest_prefix_lengths_debug : HostBitmap → Option PrefixMatchDebug
  longest_prefix_lengths_debug candidate_pods =
      debug_loop (2 * length cumulative_hashes + 2)
        (whole indexer cumulative_hashes candidate_pods ∷ [])
        (record {
          lengths = replicate max_pods 0;
          frames_processed = 0;
          shard_lookups = 0;
          bitmap_intersections = 1;
        })
