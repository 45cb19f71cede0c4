-- ===== src/Base/Search/Counts.antt =====
-- The counting query of the prototype: the depths of the query, and how its counters relate.
use calinix.Base.Indexer.{BaseIndexer}
use calinix.Base.Search
use calinix.Base.Search.{write_bits, halves, search_step, search_loop, whole}
use calinix.Base.Search.Debug.{count_frame, debug_loop, longest_prefix_lengths_debug}
use calinix.Base.Search.Same.{IsBase, round}
use calinix.Bitmap
use calinix.Bitmap.{HostBitmap, max_pods}
use calinix.Bitmap.Laws.{and-IsWords}
use calinix.Bitmap.Members.{IsWords}
use calinix.Hash.{BlockHash}
use calinix.Query.{SearchFrame}
use calinix.Query.Frames.{IsFrame, AreFrames, work}
use calinix.Query.Debug.{PrefixMatchDebug}
use calinix.Prelude.{
  ℕ, zero, suc, ◌+◌, ◌-◌, ◌*◌, ◌/◌, ◌≤◌, ◌<◌, ◌≡◌, refl, sym, ap, ◌∙◌, inl, inr, ◌||◌, Option, none,
  some, List, [], ◌∷◌, ◌++◌, arith, ◌==◌, if◌then◌else◌, Bool-cases, Option-cases, length,
  get_elem?, replicate, length-replicate,
}

-- Every frame that waits will be counted; a look-up replaces one frame by two.
record IsCounted (fs : List SearchFrame) (d : PrefixMatchDebug) : Type 0 where
  frames : d.frames_processed + length fs ≡ d.bitmap_intersections
  lookups : d.bitmap_intersections ≡ 2 * d.shard_lookups + 1

abbrev left : List SearchFrame → List ℕ → Option (List SearchFrame × List ℕ)
left fs w = some (fs, w)

left-length :
    (fs fs' : List SearchFrame) (w w' : List ℕ) → left fs w ≡ left fs' w' → length fs' ≡ length fs
left-length fs fs' w w' h =
    ap (λ (o : Option (List SearchFrame × List ℕ)). elim o [ none ↦ 0 | some r ↦ length r.0 ])
      (sym h)

module _ (b : BaseIndexer) (hashes : List BlockHash) where
  search_step-length :
      (f : SearchFrame) (fs fs' : List SearchFrame) (lengths written : List ℕ)
      → search_step b hashes f fs lengths ≡ some (fs', written)
      → length fs' ≡ (
          if Bitmap.is_empty f.candidate_pods || (f.min_prefix_depth == f.max_prefix_depth)
          then length fs
          else length fs + 2)
  unfolding search_step halves
  search_step-length f fs fs' lengths written h =
      elim (Bool-cases (Bitmap.is_empty f.candidate_pods)) [
        | inl vacant ↦
            let step : search_step b hashes f fs lengths ≡ left fs lengths = rw vacant in
            rw vacant (left-length fs fs' lengths written (sym step ∙ h))
        | inr some_pods ↦ elim (Bool-cases (f.min_prefix_depth == f.max_prefix_depth)) [
          | inl done ↦
              let bits = Bitmap.iter_set_bits f.candidate_pods in
              elim (Option-cases (write_bits f.min_prefix_depth bits lengths)) [
                | inl out ↦
                    let step : search_step b hashes f fs lengths ≡ none =
                      rw (some_pods, done, out) in
                    absurd (ground arith)
                | inr (w, fits) ↦
                    let step : search_step b hashes f fs lengths ≡ left fs w =
                      rw (some_pods, done, fits) in
                    rw (some_pods, done) (left-length fs fs' w written (sym step ∙ h))
              ]
          | inr apart ↦
              let at = (f.min_prefix_depth + f.max_prefix_depth + 1) / 2 in
              elim (Option-cases (get_elem? hashes (at - 1))) [
                | inl out ↦
                    let step : search_step b hashes f fs lengths ≡ none =
                      rw (some_pods, apart, out) in
                    absurd (ground arith)
                | inr (hash, found) ↦
                    let pushed = halves b hashes f at hash ++ fs in
                    let step : search_step b hashes f fs lengths ≡ left pushed lengths =
                      rw (some_pods, apart, found) in
                    rw (some_pods, apart)
                      (left-length pushed fs' lengths written (sym step ∙ h) ∙ omega arith)
              ]
        ]
      ]

  count_frame-IsCounted :
      (f : SearchFrame) (fs fs' : List SearchFrame) (written : List ℕ) (d : PrefixMatchDebug)
      → search_step b hashes f fs d.lengths ≡ some (fs', written)
      → IsCounted (f ∷ fs) d
      → IsCounted fs' (count_frame f written d)
  unfolding count_frame
  count_frame-IsCounted f fs fs' written d h v =
      let left = search_step-length f fs fs' d.lengths written h in
      let frames = v.frames in
      let lookups = v.lookups in
      elim (Bool-cases
        (Bitmap.is_empty f.candidate_pods || (f.min_prefix_depth == f.max_prefix_depth))) [
          | inl ends ↦ rw (ends, count_frame) (record { frames = ground arith; lookups = lookups })
          | inr splits ↦
              rw (splits, count_frame) (record { frames = ground arith; lookups = omega arith })
        ]

count_frame_lem :
    (f : SearchFrame) (written : List ℕ) (d : PrefixMatchDebug)
    → ((count_frame f written d).lengths ≡ written)
      × ((count_frame f written d).frames_processed ≡ d.frames_processed + 1)
unfolding count_frame
count_frame_lem f written d =
    elim (Bool-cases
      (Bitmap.is_empty f.candidate_pods || (f.min_prefix_depth == f.max_prefix_depth))) [
        | inl ends ↦ rw (ends, count_frame) (refl, refl)
        | inr splits ↦ rw (splits, count_frame) (refl, refl)
      ]

module _ (b : BaseIndexer) (hashes : List BlockHash) (full : IsBase b) where
  debug_loop-IsCounted :
      (fuel : ℕ) (fs : List SearchFrame) (d : PrefixMatchDebug)
      → AreFrames (length hashes) fs
      → 256 ≤ length d.lengths
      → work fs < fuel
      → IsCounted fs d
      → (out : PrefixMatchDebug) × (debug_loop b hashes fuel fs d ≡ some out)
        × IsCounted [] out
        × (search_loop b hashes fuel fs d.lengths ≡ some out.lengths)
        × (out.frames_processed ≤ d.frames_processed + work fs)
  unfolding debug_loop search_loop work
  debug_loop-IsCounted zero fs d vs wide lt v = absurd (omega arith)
  debug_loop-IsCounted (suc fuel) [] d vs wide lt v = (d, refl, v, refl, omega arith)
  debug_loop-IsCounted (suc fuel) (f ∷ fs) d vs wide lt v =
      let r = round b hashes full f fs d.lengths vs.0 vs.1 wide in
      let less = r.less in
      let size = r.size in
      let (same, one) = count_frame_lem f r.written d in
      let (out, run, counted, searched, few) =
        debug_loop-IsCounted fuel r.stack (count_frame f r.written d) r.frames
          (rw (same, size) wide) (omega arith)
          (count_frame-IsCounted b hashes f fs r.stack r.written d r.returns v) in
      (out, rw (r.returns) run, counted, rw (r.returns, ← same) searched, omega (arith, one))

-- For an index of the prototype with its 256 shards and candidates in u64 words: the counting query
-- returns, with the depths of the query that does not count. It processes an odd number of frames,
-- at most two for each hash and one, which is as many as it intersects bitmaps, and each look-up
-- stands for two of them.
pub longest_prefix_lengths_debug-counts :
    (b : BaseIndexer) (hashes : List BlockHash) (candidate_pods : HostBitmap)
    → IsBase b
    → IsWords candidate_pods
    → (out : PrefixMatchDebug) × (longest_prefix_lengths_debug b hashes candidate_pods ≡ some out)
      × (Search.longest_prefix_lengths_for_candidates b hashes candidate_pods ≡ some out.lengths)
      × (out.frames_processed ≡ 2 * out.shard_lookups + 1)
      × (out.bitmap_intersections ≡ out.frames_processed)
      × (out.shard_lookups ≤ length hashes)
unfolding longest_prefix_lengths_debug Search.longest_prefix_lengths_for_candidates
    Search.longest_prefix_lengths_into whole
longest_prefix_lengths_debug-counts b hashes candidate_pods full w =
    let valid : IsFrame (length hashes) (whole b hashes candidate_pods) = record {
      ordered = omega arith;
      in_range = omega arith;
      words = and-IsWords _ _ w;
    } in
    let (out, run, counted, searched, few) =
      debug_loop-IsCounted b hashes full (2 * length hashes + 2)
        (whole b hashes candidate_pods ∷ [])
        (record {
          lengths = replicate max_pods 0;
          frames_processed = 0;
          shard_lookups = 0;
          bitmap_intersections = 1;
        })
        (valid, tt) (omega (arith, length-replicate {A = ℕ} 256 0)) (unfold work in omega arith)
        (record { frames = omega arith; lookups = omega arith }) in
    let frames = counted.frames in
    let lookups = counted.lookups in
    let bound : out.frames_processed ≤ 2 * length hashes + 1 = unfold work in omega arith in
    (out, run, searched, omega arith, omega arith, omega arith)
