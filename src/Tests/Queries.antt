-- ===== src/Tests/Queries.antt =====
-- src/calinix/cache_registry/prefix_query.rs on a small index.

use calinix.Word.{wrapping_mul}
use calinix.Bitmap
use calinix.Bitmap.{HostBitmap, bitmap_code}
use calinix.Hash.{BlockHash, shard_for_with_count, shard_for_fibonacci_with_count}
use calinix.Index.{
  register, register_in, observe_pod, observe_loop, set_shard, shard_at, shard_for,
  with_shards_and_alive, owners,
}
use calinix.Index.Entries.{get, insert, or_insert}
use calinix.Query.{
  SearchFrame, SearchStack, new, push, pop, read_frames, spill_to_heap, write_frame, pop_last,
  pop_heap, write_depth, push_unless_empty, lengths_step, lengths_loop, longest_prefix_lengths_into,
  longest_prefix_lengths_for_candidates,
}
use calinix.Query.Best.{
  improve, push_halves, after_probe, probe_frame, best_step, best_loop, or_else,
  best_prefix_match_for_candidates,
}
use calinix.Query.Bisect.{held_run}
use calinix.Query.{PrefixMatch}
use calinix.Query.Best.Answer.{IsAnswer, best_prefix_match_for_candidates-IsAnswer}
use calinix.Query.Debug.{longest_prefix_lengths_debug}
use calinix.Query.Debug.Counts.{depths, AreConsistent, longest_prefix_lengths_debug-depths}
use calinix.Query.Frames.{holds}
use calinix.Query.Lengths.{
  depth_of, longest_prefix_lengths_into-depth_of, longest_prefix_lengths_for_candidates-depth_of,
}
use calinix.Query.Longest.{CachesPrefixes, longest_prefix_lengths_into-held_run}
use calinix.Query.Stack.{new-Holds, push-Holds}
use calinix.Tests.Bitmaps.{two_pods, two_pods-IsWords}
use calinix.Tests.Indexes.{small_index}
use calinix.Prelude.{
  ℕ, ◌≤◌, ◌<◌, ◌≡◌, refl, sym, subst, ◌⊎◌, true, none, some, List, [], ◌∷◌, arith, length, get_or,
}

query_code : Unit {0}
unfolding wrapping_mul bitmap_code register register_in observe_pod observe_loop set_shard shard_at
    shard_for shard_for_with_count shard_for_fibonacci_with_count with_shards_and_alive owners get
    insert or_insert new push pop read_frames spill_to_heap write_frame pop_last pop_heap
    write_depth push_unless_empty lengths_step lengths_loop longest_prefix_lengths_into
    longest_prefix_lengths_for_candidates improve push_halves after_probe probe_frame best_step
    best_loop or_else best_prefix_match_for_candidates
query_code = tt

abbrev request : List BlockHash
request = 11 ∷ 12 ∷ []

abbrev four_entries : List ℕ
four_entries = 9 ∷ 9 ∷ 9 ∷ 9 ∷ []

lengths_of_request :
    longest_prefix_lengths_into small_index request two_pods four_entries
    ≡ some (0 ∷ 0 ∷ 0 ∷ 1 ∷ [])
unfolding query_code
lengths_of_request = refl

best_of_request :
    best_prefix_match_for_candidates small_index request two_pods
    ≡ some (some (record { pod_id = 3; prefix_depth = 1 }))
unfolding query_code
best_of_request = refl

pod_is_candidate : Bitmap.contains two_pods 3 ≡ true
unfolding bitmap_code
pod_is_candidate = refl

pod_is_alive : Bitmap.contains small_index.alive 3 ≡ true
unfolding query_code
pod_is_alive = refl

holds_first : holds small_index request small_index.alive 3 1 ≡ true
unfolding query_code
holds_first = refl

three-CachesPrefixes : CachesPrefixes small_index request 3
three-CachesPrefixes d above below held =
    let one : d ≡ 1 = omega arith in
    subst (λ e. holds small_index request small_index.alive 3 e ≡ true) (sym one) holds_first

longest_prefix_lengths_into-held_run_example :
    (out : List ℕ) × (longest_prefix_lengths_into small_index request two_pods four_entries
      ≡ some out)
    × (get_or out 3 0 ≡ held_run (holds small_index request small_index.alive 3) 2 0)
longest_prefix_lengths_into-held_run_example =
    longest_prefix_lengths_into-held_run small_index request two_pods four_entries 3
      two_pods-IsWords (omega arith) pod_is_candidate pod_is_alive three-CachesPrefixes

longest_prefix_lengths_into-depth_of_example :
    (out : List ℕ) × (longest_prefix_lengths_into small_index request two_pods four_entries
      ≡ some out)
    × (length out ≡ length four_entries)
    × ((p : ℕ) → p < length four_entries → get_or out p 0 ≡ depth_of small_index request two_pods p)
longest_prefix_lengths_into-depth_of_example =
    longest_prefix_lengths_into-depth_of small_index request two_pods four_entries two_pods-IsWords

longest_prefix_lengths_for_candidates-depth_of_example :
    (out : List ℕ) × (longest_prefix_lengths_for_candidates small_index request two_pods ≡ some out)
    × (small_index.pod_count ≤ length out)
    × ((p : ℕ) → Bitmap.contains two_pods p ≡ true → p < length out)
    × ((p : ℕ) → p < length out → get_or out p 0 ≡ depth_of small_index request two_pods p)
longest_prefix_lengths_for_candidates-depth_of_example =
    longest_prefix_lengths_for_candidates-depth_of small_index request two_pods two_pods-IsWords

abbrev frame : SearchFrame
frame = record { min_prefix_depth = 0; max_prefix_depth = 2; candidate_pods = two_pods }

-- The stack after one push.
abbrev one_frame : SearchStack
one_frame = (push-Holds new frame [] new-Holds).0

longest_prefix_lengths_debug-depths_example :
    (depths (longest_prefix_lengths_debug small_index request two_pods)
      ≡ longest_prefix_lengths_for_candidates small_index request two_pods)
    × AreConsistent (longest_prefix_lengths_debug small_index request two_pods)
longest_prefix_lengths_debug-depths_example =
    longest_prefix_lengths_debug-depths small_index request two_pods

best_prefix_match_for_candidates-IsAnswer_example :
    ((Bitmap.is_empty two_pods ≡ true)
      × (best_prefix_match_for_candidates small_index request two_pods ≡ some none))
    ⊎ ((m : PrefixMatch) × (best_prefix_match_for_candidates small_index request two_pods
          ≡ some (some m))
        × IsAnswer small_index request two_pods m)
best_prefix_match_for_candidates-IsAnswer_example =
    best_prefix_match_for_candidates-IsAnswer small_index request two_pods two_pods-IsWords
