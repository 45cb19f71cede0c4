-- ===== src/Query/Debug/Counts.antt =====
-- The query that counts against the one that does not.
use calinix.Bitmap
use calinix.Bitmap.{HostBitmap}
use calinix.Hash.{BlockHash}
use calinix.Index.{ShardedBlockIndexer}
use calinix.Query.{
  SearchFrame, SearchStack, new, push, pop, lengths_step, lengths_loop, search_fuel,
  longest_prefix_lengths_into, longest_prefix_lengths_for_candidates, ◌>>=◌,
}
use calinix.Query.Debug.{PrefixMatchDebug, count_round, debug_loop, longest_prefix_lengths_debug}
use calinix.Prelude.{
  ℕ, zero, suc, ◌+◌, ◌*◌, ◌≤◌, max, ◌≡◌, refl, ap, ◌∙◌, inl, inr, Bool, true, false, ◌||◌, Option,
  none, some, List, arith, ◌==◌, if◌then◌else◌, Bool-cases, Option-cases, length, replicate,
  length-replicate,
}

-- The depths of a result, if there is one.
abbrev pub depths : Option PrefixMatchDebug → Option (List ℕ)
depths none = none
depths (some d) = some d.lengths

abbrev Consistent : PrefixMatchDebug → Type 0
Consistent d =
    (d.bitmap_intersections ≡ 2 * d.shard_lookups + 1) × (d.shard_lookups ≤ d.frames_processed)

-- The counters of a result, if there is one.
abbrev pub AreConsistent : Option PrefixMatchDebug → Type 0
AreConsistent none = Unit {0}
AreConsistent (some d) = Consistent d

count_round_lem :
    (frame : SearchFrame) (lengths : List ℕ) (d : PrefixMatchDebug)
    → Consistent d
    → Consistent (count_round frame lengths d) × ((count_round frame lengths d).lengths ≡ lengths)
unfolding count_round
count_round_lem frame lengths d c =
    elim (Bool-cases (frame.min_prefix_depth == frame.max_prefix_depth)) [
      | inl end ↦ rw (end, count_round) ((c.0, omega (arith, c.1)), refl)
      | inr wide ↦ rw (wide, count_round) ((omega (arith, c.0), omega (arith, c.1)), refl)
    ]

module _ (idx : ShardedBlockIndexer) (hashes : List BlockHash) (alive : HostBitmap) where
  debug_loop_lem :
      (fuel : ℕ) (stack : SearchStack) (d : PrefixMatchDebug)
      → Consistent d
      → (depths (debug_loop idx hashes alive fuel stack d)
          ≡ lengths_loop idx hashes alive fuel stack d.lengths)
        × AreConsistent (debug_loop idx hashes alive fuel stack d)
  unfolding debug_loop lengths_loop
  debug_loop_lem zero stack d c = (refl, tt)
  debug_loop_lem (suc fuel) stack d c = elim (Option-cases (pop stack)) [
    | inl fault ↦ rw (fault, debug_loop, lengths_loop) (refl, tt)
    | inr (none, ended) ↦ rw (ended, debug_loop, lengths_loop) (refl, c)
    | inr (some (frame, rest), popped) ↦
        elim (Option-cases (lengths_step idx hashes alive frame rest d.lengths)) [
          | inl fault ↦ rw (popped, fault, debug_loop, lengths_loop) (refl, tt)
          | inr ((stack', lengths'), stepped) ↦
              let (consistent, same) = count_round_lem frame lengths' d c in
              let (equal, counted) =
                debug_loop_lem fuel stack' (count_round frame lengths' d) consistent in
              rw (popped, stepped, debug_loop, lengths_loop)
                (equal ∙ ap (lengths_loop idx hashes alive fuel stack') same, counted)
        ]
  ]

-- The query that counts gives the depths of the one that does not, and intersects two bitmaps for
-- each look-up and one before, with at most one look-up a frame.
pub longest_prefix_lengths_debug-depths :
    (idx : ShardedBlockIndexer) (hashes : List BlockHash) (candidate_pods : HostBitmap)
    → (depths (longest_prefix_lengths_debug idx hashes candidate_pods)
        ≡ longest_prefix_lengths_for_candidates idx hashes candidate_pods)
      × AreConsistent (longest_prefix_lengths_debug idx hashes candidate_pods)
unfolding longest_prefix_lengths_debug longest_prefix_lengths_for_candidates
    longest_prefix_lengths_into
longest_prefix_lengths_debug-depths idx hashes candidate_pods =
    let size = max idx.pod_count (Bitmap.highest_set_bit_plus_one candidate_pods) in
    rw (length-replicate {A = ℕ} size 0) (
      answered (length hashes == 0 || Bitmap.is_empty (Bitmap.and candidate_pods idx.alive)) (
        push new (record {
          min_prefix_depth = 0;
          max_prefix_depth = length hashes;
          candidate_pods = Bitmap.and candidate_pods idx.alive;
        })))
  where
    first : PrefixMatchDebug
    first = record {
      lengths = replicate (max idx.pod_count (Bitmap.highest_set_bit_plus_one candidate_pods)) 0;
      frames_processed = 0;
      shard_lookups = 0;
      bitmap_intersections = 1;
    }

    answered :
        (nothing_to_do : Bool) (pushed : Option SearchStack)
        → (depths (
              if nothing_to_do
              then some first
              else pushed >>= λ stack.
                  debug_loop idx hashes idx.alive (search_fuel hashes) stack first)
            ≡ (if nothing_to_do
                then some first.lengths
                else pushed >>= λ stack.
                    lengths_loop idx hashes idx.alive (search_fuel hashes) stack first.lengths))
          × AreConsistent (
              if nothing_to_do
              then some first
              else pushed >>= λ stack.
                  debug_loop idx hashes idx.alive (search_fuel hashes) stack first)
    answered true pushed = (refl, (omega arith, omega arith))
    answered false none = (refl, tt)
    answered false (some stack) =
        debug_loop_lem idx hashes idx.alive (search_fuel hashes) stack first
          (omega arith, omega arith)
