-- ===== src/Query/Best.antt =====
-- src/calinix/cache_registry/prefix_query.rs, `best_prefix_match_for_candidates`: the same joint
-- search, deepest range first, that gives up ranges which cannot win and stops at a full match.
pub mod Invariant
pub mod Rounds
pub mod Splits
pub mod Optimal
pub mod Answer
use calinix.Bitmap
use calinix.Bitmap.{HostBitmap}
use calinix.Hash.{BlockHash}
use calinix.Index.{ShardedBlockIndexer, owners}
use calinix.Query.{
  SearchFrame, SearchStack, PrefixMatch, new, push, pop, push_unless_empty, probe_between,
  search_fuel, ◌>>=◌,
}
use calinix.Prelude.{
  ℕ, zero, suc, ◌+◌, ◌-◌, ◌*◌, ◌/◌, ◌%◌, ◌^◌, ◌≤◌, ◌<◌, min, max, ◌≡◌, refl, sym, ap, ap₂, ◌∙◌,
  subst, fun_ext, ◌≢◌, ◌↔◌, ◌⊎◌, inl, inr, Bool, true, false, not, ◌&&◌, ◌||◌, Option, none, some,
  List, [], ◌∷◌, ◌++◌, map, append_assoc, append-nil, arith, ltb, leb, ◌==◌, if◌then◌else◌, ltb→lt,
  lt→ltb, leb→le, ==_iff, ==_refl, tests, Bool-cases, Option-cases, length, get_elem?, get_or,
  set as set_elem, take, replicate, length-append, length-set, length-replicate, get_or-replicate,
  get_or-set, get_elem?-get_or, lt_wf,
}

-- A round returns from the function, or goes on.
pub data Round : Type 0 where
  return : PrefixMatch → Round
  continue : SearchStack → PrefixMatch → Round

-- The leaf: `depth` is the depth of every pod of the frame.
unfoldable pub improve : PrefixMatch → ℕ → Option ℕ → PrefixMatch
improve best depth none = best
improve best depth (some pod_id) =
    if ltb best.prefix_depth depth || (depth == best.prefix_depth && ltb pod_id best.pod_id)
    then record { pod_id = pod_id; prefix_depth = depth }
    else best

module _ (idx : ShardedBlockIndexer) (cumulative_hashes : List BlockHash) (alive : HostBitmap) where
  -- The two pushes at the end of the body.
  unfoldable pub push_halves : SearchFrame → HostBitmap → SearchStack → PrefixMatch → Option Round
  push_halves frame pods_at_or_above_probe stack best = do
    let probe_prefix_depth = probe_between frame.min_prefix_depth frame.max_prefix_depth
    let pods_below_probe = Bitmap.minus frame.candidate_pods pods_at_or_above_probe
    stack₁ ← push_unless_empty stack (record {
      min_prefix_depth = frame.min_prefix_depth;
      max_prefix_depth = probe_prefix_depth - 1;
      candidate_pods = pods_below_probe;
    })
    stack₂ ← push_unless_empty stack₁ (record {
      min_prefix_depth = probe_prefix_depth;
      max_prefix_depth = frame.max_prefix_depth;
      candidate_pods = pods_at_or_above_probe;
    })
    some (continue stack₂ best)

  -- The early return where the probe is at the full depth.
  unfoldable pub after_probe : SearchFrame → HostBitmap → SearchStack → PrefixMatch → Option Round
  after_probe frame pods_at_or_above_probe stack best =
      let probe_prefix_depth = probe_between frame.min_prefix_depth frame.max_prefix_depth in
      let full =
        if probe_prefix_depth == length cumulative_hashes
        then Bitmap.first_set_bit pods_at_or_above_probe
        else none in
      elim full [
        | some pod_id ↦
            some (return (record { pod_id = pod_id; prefix_depth = length cumulative_hashes }))
        | none ↦ push_halves frame pods_at_or_above_probe stack best
      ]

  unfoldable pub probe_frame : SearchFrame → SearchStack → PrefixMatch → Option Round
  probe_frame frame stack best = do
    let probe_prefix_depth = probe_between frame.min_prefix_depth frame.max_prefix_depth
    hash ← get_elem? cumulative_hashes (probe_prefix_depth - 1)
    let pods_with_probe_prefix = Bitmap.and (owners idx hash) alive
    after_probe frame (Bitmap.and frame.candidate_pods pods_with_probe_prefix) stack best

  -- The body of the `while` loop for the frame that it popped.
  unfoldable pub best_step : SearchFrame → SearchStack → PrefixMatch → Option Round
  best_step frame stack best =
      if Bitmap.is_empty frame.candidate_pods || ltb frame.max_prefix_depth best.prefix_depth
      then some (continue stack best)
      else if frame.min_prefix_depth == frame.max_prefix_depth
      then some (
          continue stack
            (improve best frame.min_prefix_depth (Bitmap.first_set_bit frame.candidate_pods)))
      else probe_frame frame stack best

  unfoldable pub best_loop : ℕ → SearchStack → PrefixMatch → Option PrefixMatch
  best_loop zero stack best = none
  best_loop (suc fuel) stack best = do
    popped ← pop stack
    elim popped [
      | none ↦ some best
      | some (frame, rest) ↦ do
        round ← best_step frame rest best
        elim round [
          | return found ↦ some found
          | continue stack' best' ↦ best_loop fuel stack' best'
        ]
    ]

-- `first_set_bit().or_else(...)`
unfoldable pub or_else : Option ℕ → Option ℕ → Option ℕ
or_else none b = b
or_else (some a) b = some a

-- The inner option is the one that the source returns.
unfoldable pub best_prefix_match_for_candidates :
    ShardedBlockIndexer → List BlockHash → HostBitmap → Option (Option PrefixMatch)
best_prefix_match_for_candidates idx cumulative_hashes candidate_pods =
    let alive_candidates = Bitmap.and candidate_pods idx.alive in
    elim (or_else (Bitmap.first_set_bit alive_candidates) (Bitmap.first_set_bit candidate_pods)) [
      | none ↦ some none
      | some fallback_pod ↦
          let best : PrefixMatch = record { pod_id = fallback_pod; prefix_depth = 0 } in
          let searched = (do
            stack ← push new (record {
              min_prefix_depth = 0;
              max_prefix_depth = length cumulative_hashes;
              candidate_pods = alive_candidates;
            })
            found ←
                best_loop idx cumulative_hashes idx.alive (search_fuel cumulative_hashes) stack best
            some (some found)) in
          if length cumulative_hashes == 0 || Bitmap.is_empty alive_candidates
          then some (some best)
          else searched
    ]
