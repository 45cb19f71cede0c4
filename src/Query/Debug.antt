-- ===== src/Query/Debug.antt =====
-- src/calinix/cache_registry/prefix_query.rs, `longest_prefix_lengths_debug`: the query that also
-- counts its frames, look-ups and intersections.
pub mod Counts
use calinix.Bitmap
use calinix.Bitmap.{HostBitmap}
use calinix.Hash.{BlockHash}
use calinix.Index.{ShardedBlockIndexer}
use calinix.Query.{SearchFrame, SearchStack, new, push, pop, lengths_step, search_fuel, ◌>>=◌}
use calinix.Prelude.{
  ℕ, zero, suc, ◌+◌, ◌-◌, ◌*◌, ◌/◌, ◌%◌, ◌^◌, ◌≤◌, ◌<◌, min, max, ◌≡◌, refl, sym, ap, ap₂, ◌∙◌,
  subst, fun_ext, ◌≢◌, ◌↔◌, ◌⊎◌, inl, inr, Bool, true, false, not, ◌&&◌, ◌||◌, Option, none, some,
  List, [], ◌∷◌, ◌++◌, map, append_assoc, append-nil, arith, ltb, leb, ◌==◌, if◌then◌else◌, ltb→lt,
  lt→ltb, leb→le, ==_iff, ==_refl, tests, Bool-cases, Option-cases, length, get_elem?, get_or,
  set as set_elem, take, replicate, length-append, length-set, length-replicate, get_or-replicate,
  get_or-set, get_elem?-get_or, get_elem?-beyond, get_elem?-cases, get_elem?-left, get_elem?-last,
  get_or-beyond, lt_wf,
}

pub record PrefixMatchDebug : Type 0 where
  pub lengths : List ℕ
  pub frames_processed : ℕ
  pub shard_lookups : ℕ
  pub bitmap_intersections : ℕ

-- The counters after the round for a frame, and the depths that the round leaves.
unfoldable pub count_round : SearchFrame → List ℕ → PrefixMatchDebug → PrefixMatchDebug
count_round frame lengths d =
    if frame.min_prefix_depth == frame.max_prefix_depth
    then record d { lengths = lengths; frames_processed = d.frames_processed + 1 }
    else record {
      lengths = lengths;
      frames_processed = d.frames_processed + 1;
      shard_lookups = d.shard_lookups + 1;
      bitmap_intersections = d.bitmap_intersections + 2;
    }

module _ (idx : ShardedBlockIndexer) (cumulative_hashes : List BlockHash) (alive : HostBitmap) where
  unfoldable pub debug_loop : ℕ → SearchStack → PrefixMatchDebug → Option PrefixMatchDebug
  debug_loop zero stack d = none
  debug_loop (suc fuel) stack d = do
    popped ← pop stack
    elim popped [
      | none ↦ some d
      | some (frame, rest) ↦ do
        (stack', lengths') ← lengths_step idx cumulative_hashes alive frame rest d.lengths
        debug_loop fuel stack' (count_round frame lengths' d)
    ]

unfoldable pub longest_prefix_lengths_debug :
    ShardedBlockIndexer → List BlockHash → HostBitmap → Option PrefixMatchDebug
longest_prefix_lengths_debug idx cumulative_hashes candidate_pods =
    let result_size = max idx.pod_count (Bitmap.highest_set_bit_plus_one candidate_pods) in
    let start : PrefixMatchDebug = record {
      lengths = replicate result_size 0;
      frames_processed = 0;
      shard_lookups = 0;
      bitmap_intersections = 1;
    } in
    let alive_candidates = Bitmap.and candidate_pods idx.alive in
    let searched =
      push new (record {
        min_prefix_depth = 0;
        max_prefix_depth = length cumulative_hashes;
        candidate_pods = alive_candidates;
      })
      >>= λ stack.
          debug_loop idx cumulative_hashes idx.alive (search_fuel cumulative_hashes) stack start in
    if length cumulative_hashes == 0 || Bitmap.is_empty alive_candidates
    then some start
    else searched
