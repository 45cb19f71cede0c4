-- ===== src/Tests/Bases.antt =====
-- The prototype on a small index.
use calinix.Base.Indexer
use calinix.Base.Indexer.{BaseIndexer}
use calinix.Base.Indexer.Simulated.{
  IsSame, Operation, registering, evicting, shutting_down, run_base, run_present, run_base-IsSame,
}
use calinix.Base.Router.{Pod, both, decode}
use calinix.Base.Naive.{NaiveQueryResult, query_prefix_depths_naive}
use calinix.Base.Naive.Scanned.{query_prefix_depths_naive-depths}
use calinix.Base.Search
use calinix.Base.Search.Counts.{longest_prefix_lengths_debug-counts}
use calinix.Base.Search.Debug.{longest_prefix_lengths_debug}
use calinix.Base.Search.Same.{IsBase, present, longest_prefix_lengths_into-present}
use calinix.Bitmap
use calinix.Bitmap.{HostBitmap}
use calinix.Bitmap.Laws.{empty-IsWords, set-IsWords}
use calinix.Index
use calinix.Query
use calinix.Query.Debug.{PrefixMatchDebug}
use calinix.Prelude.{
  ℕ, ◌+◌, ◌*◌, ◌≤◌, ◌≡◌, ap, ◌∙◌, some, List, [], ◌∷◌, arith, length, replicate, length-replicate,
}

abbrev small_operations : List Operation
small_operations =
    registering 0 5 ∷ registering 1 5 ∷ registering 0 6 ∷ evicting 1 5 ∷ shutting_down 1 ∷ []

run_base-IsSame_example :
    IsSame (run_base (Indexer.new 2) small_operations) (run_present (Index.new 2) small_operations)
run_base-IsSame_example =
    run_base-IsSame 2 small_operations (omega arith, (omega arith, (omega arith, (tt, (tt, tt)))))

abbrev small_base : BaseIndexer
small_base = run_base (Indexer.new 2) small_operations

small_base-IsBase : IsBase small_base
small_base-IsBase =
    let same =
      run_base-IsSame 2 small_operations
        (omega arith, (omega arith, (omega arith, (tt, (tt, tt))))) in
    ap length same.shards ∙ same.full

abbrev both_pods : HostBitmap
both_pods = Bitmap.set (Bitmap.set Bitmap.empty 0) 1

longest_prefix_lengths_into-present_example :
    Search.longest_prefix_lengths_into small_base (5 ∷ 6 ∷ []) both_pods (replicate 256 0)
    ≡ Query.longest_prefix_lengths_into
        (present small_base)
        (5 ∷ 6 ∷ [])
        both_pods
        (replicate 256 0)
longest_prefix_lengths_into-present_example =
    longest_prefix_lengths_into-present small_base (5 ∷ 6 ∷ []) both_pods (replicate 256 0)
      small_base-IsBase
      (set-IsWords (Bitmap.set Bitmap.empty 0) 1 (set-IsWords Bitmap.empty 0 empty-IsWords))
      (omega (arith, length-replicate {A = ℕ} 256 0))

longest_prefix_lengths_debug-counts_example :
    (out : PrefixMatchDebug) × (longest_prefix_lengths_debug small_base (5 ∷ 6 ∷ []) both_pods
      ≡ some out)
    × (Search.longest_prefix_lengths_for_candidates small_base (5 ∷ 6 ∷ []) both_pods
        ≡ some out.lengths)
    × (out.frames_processed ≡ 2 * out.shard_lookups + 1)
    × (out.bitmap_intersections ≡ out.frames_processed)
    × (out.shard_lookups ≤ 2)
longest_prefix_lengths_debug-counts_example =
    longest_prefix_lengths_debug-counts small_base (5 ∷ 6 ∷ []) both_pods small_base-IsBase
      (set-IsWords (Bitmap.set Bitmap.empty 0) 1 (set-IsWords Bitmap.empty 0 empty-IsWords))

-- A pod for each role, two of them on a node.
abbrev small_pods : List Pod
small_pods =
    record { id = 0; role = both; node = 97 ∷ [] }
    ∷ record { id = 1; role = decode; node = 98 ∷ [] }
    ∷ record { id = 2; role = decode; node = 97 ∷ [] }
    ∷ []

query_prefix_depths_naive-depths_example :
    (out : NaiveQueryResult) × (query_prefix_depths_naive small_base (5 ∷ []) both_pods ≡ some out)
    × (Search.longest_prefix_lengths_for_candidates small_base (5 ∷ []) both_pods ≡ some out.depths)
query_prefix_depths_naive-depths_example =
    query_prefix_depths_naive-depths small_base (5 ∷ []) both_pods small_base-IsBase
      (set-IsWords (Bitmap.set Bitmap.empty 0) 1 (set-IsWords Bitmap.empty 0 empty-IsWords))
      (λ p small d above below held. absurd (omega arith))
