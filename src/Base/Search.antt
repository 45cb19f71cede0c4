-- ===== src/Base/Search.antt =====
-- src/base/indexer.rs: the query of the prototype. Its stack is a vector, here the list of its
-- frames with the top first; frames without pods are pushed, and skipped when they are popped. The
-- caller's vector is emptied first, so it is left out of the arguments.
-- `none` stands for a panic (an index out of range) or the end of the fuel.
pub mod Same
pub mod Debug
pub mod Counts
use calinix.Base.Indexer.{BaseIndexer, owners_alive}
use calinix.Bitmap
use calinix.Bitmap.{HostBitmap, max_pods}
use calinix.Hash.{BlockHash}
use calinix.Query.{SearchFrame, ◌>>=◌}
use calinix.Prelude.{
  ℕ, zero, suc, ◌+◌, ◌-◌, ◌*◌, ◌/◌, ◌%◌, ◌^◌, ◌≤◌, ◌<◌, min, max, ◌≡◌, refl, sym, ap, ap₂, ◌∙◌,
  subst, fun_ext, ◌≢◌, ◌↔◌, ◌⊎◌, inl, inr, Bool, true, false, not, ◌&&◌, ◌||◌, Option, none, some,
  List, [], ◌∷◌, ◌++◌, map, append_assoc, append-nil, arith, ltb, leb, ◌==◌, if◌then◌else◌, ltb→lt,
  lt→ltb, leb→le, ==_iff, ==_refl, tests, Bool-cases, Option-cases, length, get_elem?, get_or,
  set as set_elem, take, replicate, length-append, length-set, length-replicate, get_or-replicate,
  get_or-set, get_elem?-get_or, get_elem?-beyond, get_elem?-cases, get_elem?-left, get_elem?-last,
  get_or-beyond, lt_wf,
}

-- `for pod_id in bits { lengths[pod_id] = depth; }`
unfoldable pub write_bits : ℕ → List ℕ → List ℕ → Option (List ℕ)
write_bits depth [] lengths = some lengths
write_bits depth (pod_id ∷ bits) lengths =
    if ltb pod_id (length lengths)
    then write_bits depth bits (set_elem lengths pod_id depth)
    else none

module _ (indexer : BaseIndexer) (cumulative_hashes : List BlockHash) where
  -- The frames that the probe of a frame pushes, the last one first.
  unfoldable pub halves : SearchFrame → ℕ → BlockHash → List SearchFrame
  halves frame probe_prefix_depth hash =
      let pods_with_probe_prefix = owners_alive indexer hash in
      let pods_at_or_above_probe = Bitmap.and frame.candidate_pods pods_with_probe_prefix in
      let pods_below_probe = Bitmap.minus frame.candidate_pods pods_at_or_above_probe in
      record {
        min_prefix_depth = frame.min_prefix_depth;
        max_prefix_depth = probe_prefix_depth - 1;
        candidate_pods = pods_below_probe;
      }
      ∷ record {
        min_prefix_depth = probe_prefix_depth;
        max_prefix_depth = frame.max_prefix_depth;
        candidate_pods = pods_at_or_above_probe;
      }
      ∷ []

  -- The body of the `while` loop for the frame that it popped.
  unfoldable pub search_step :
      SearchFrame → List SearchFrame → List ℕ → Option (List SearchFrame × List ℕ)
  search_step frame stack lengths =
      if Bitmap.is_empty frame.candidate_pods
      then some (stack, lengths)
      else (if frame.min_prefix_depth == frame.max_prefix_depth
          then (do
            written ←
                write_bits frame.min_prefix_depth (Bitmap.iter_set_bits frame.candidate_pods)
                  lengths
            some (stack, written))
          else (do
            let probe_prefix_depth = (frame.min_prefix_depth + frame.max_prefix_depth + 1) / 2
            hash ← get_elem? cumulative_hashes (probe_prefix_depth - 1)
            some (halves frame probe_prefix_depth hash ++ stack, lengths)))

  unfoldable pub search_loop : ℕ → List SearchFrame → List ℕ → Option (List ℕ)
  search_loop zero stack lengths = none
  search_loop (suc fuel) [] lengths = some lengths
  search_loop (suc fuel) (frame ∷ stack) lengths = do
    (stack', lengths') ← search_step frame stack lengths
    search_loop fuel stack' lengths'

  -- The frame that the search starts with.
  unfoldable pub whole : HostBitmap → SearchFrame
  whole candidate_pods = record {
    min_prefix_depth = 0;
    max_prefix_depth = length cumulative_hashes;
    candidate_pods = Bitmap.and candidate_pods indexer.alive;
  }

  -- Each round ends a frame or splits its range of depths, so twice the depth bounds the rounds.
  unfoldable pub longest_prefix_lengths_into : HostBitmap → List ℕ → Option (List ℕ)
  longest_prefix_lengths_into candidate_pods lengths =
      search_loop (2 * length cumulative_hashes + 2) (whole candidate_pods ∷ [])
        (replicate (length lengths) 0)

  unfoldable pub longest_prefix_lengths_for_candidates : HostBitmap → Option (List ℕ)
  longest_prefix_lengths_for_candidates candidate_pods =
      longest_prefix_lengths_into candidate_pods (replicate max_pods 0)
