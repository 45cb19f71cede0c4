-- ===== src/Query/Lengths.antt =====
-- `longest_prefix_lengths_into` returns, with every entry the binary search of its own pod.
use calinix.Bitmap
use calinix.Bitmap.{HostBitmap}
use calinix.Bitmap.Members.{IsWords}
use calinix.Bitmap.Laws.{contains-and, contains-is_empty, and-IsWords}
use calinix.Bitmap.Bounds.{highest_set_bit_plus_one-bound}
use calinix.Hash.{BlockHash}
use calinix.Index.{ShardedBlockIndexer}
use calinix.Query.{
  SearchFrame, SearchStack, new, lengths_loop, search_fuel, longest_prefix_lengths_into,
  longest_prefix_lengths_for_candidates,
}
use calinix.Query.Stack.{Holds, new-Holds, push-Holds, pop-Holds, pop-Holds_nil}
use calinix.Query.Bisect.{bisect, bisect_end}
use calinix.Query.Frames.{holds, IsFrame, AreFrames, work, outcome}
use calinix.Prelude.{
  ℕ, zero, suc, ◌≤◌, ◌<◌, max, ◌≡◌, refl, ap, ◌∙◌, inl, inr, true, ◌&&◌, ◌||◌, some, List, [], ◌∷◌,
  arith, ◌==◌, if◌then◌else◌, Bool-cases, length, get_or, replicate, length-replicate,
  get_or-replicate,
}
use calinix.Query.Rounds.{round}

module _ (idx : ShardedBlockIndexer) (hashes : List BlockHash) (alive : HostBitmap) where
  -- With fuel for the work that waits, the loop returns, and every pod has its outcome.
  lengths_loop-outcome :
      (fuel : ℕ) (fs : List SearchFrame) (s : SearchStack) (lengths : List ℕ)
      → Holds s fs
      → AreFrames (length hashes) fs
      → work fs < fuel
      → (out : List ℕ) × (lengths_loop idx hashes alive fuel s lengths ≡ some out)
        × (length out ≡ length lengths)
        × ((p : ℕ)
            → p < length lengths
            → get_or out p 0 ≡ outcome (holds idx hashes alive p) p fs (get_or lengths p 0))
  unfolding lengths_loop work
  lengths_loop-outcome zero fs s lengths h vs lt = absurd (omega arith)
  lengths_loop-outcome (suc fuel) [] s lengths h vs lt =
      (lengths, rw (pop-Holds_nil s h), refl, λ p lt'. unfold outcome in refl)
  lengths_loop-outcome (suc fuel) (f ∷ fs) s lengths h vs lt =
      let (s', popped, h') = pop-Holds s f fs h in
      let r = round idx hashes alive f fs s' lengths h' vs.0 vs.1 in
      let less = r.less in
      let size = r.size in
      let (out, run, long, entries) =
        lengths_loop-outcome fuel r.waiting r.stack r.written r.held r.frames (omega arith) in
      (
        out,
        rw (popped, r.returns) run,
        long ∙ size,
        λ p lt'. entries p (rw size lt') ∙ r.same p lt',
      )

-- The depth of a pod: the binary search over the depths at which it holds the request's hash, if
-- it is a candidate and alive, and 0 if not.
unfoldable pub depth_of : ShardedBlockIndexer → List BlockHash → HostBitmap → ℕ → ℕ
depth_of idx hashes candidate_pods p =
    if Bitmap.contains candidate_pods p && Bitmap.contains idx.alive p
    then bisect (holds idx hashes idx.alive p) 0 (length hashes)
    else 0

-- For candidates in u64 words, the query returns, whatever was in the buffer: no slot is read
-- before it is written, no index is out of range and the rounds suffice. It keeps the buffer's
-- size and gives each pod its depth: 0 to a pod that is no live candidate, and to the others what
-- a binary search for that pod alone finds.
pub longest_prefix_lengths_into-depth_of :
    (idx : ShardedBlockIndexer) (hashes : List BlockHash) (candidate_pods : HostBitmap)
    (lengths : List ℕ)
    → IsWords candidate_pods
    → (out : List ℕ) × (longest_prefix_lengths_into idx hashes candidate_pods lengths ≡ some out)
      × (length out ≡ length lengths)
      × ((p : ℕ) → p < length lengths → get_or out p 0 ≡ depth_of idx hashes candidate_pods p)
unfolding longest_prefix_lengths_into depth_of
longest_prefix_lengths_into-depth_of idx hashes candidate_pods lengths w =
    let cleared : List ℕ = replicate (length lengths) 0 in
    let live = Bitmap.and candidate_pods idx.alive in
    let has_at = λ (p : ℕ). holds idx hashes idx.alive p in
    elim (Bool-cases (length hashes == 0 || Bitmap.is_empty live)) [
      | inl nothing ↦ (
        cleared,
        rw nothing,
        length-replicate (length lengths) 0,
        λ p lt.
            get_or-replicate (length lengths) p 0
            ∙ ground (
              arith,
              contains-is_empty live p,
              contains-and candidate_pods idx.alive p,
              bisect_end (has_at p) 0,
              ap {A = ℕ} (bisect (has_at p) 0),
            ),
      )
      | inr something ↦
          let frame : SearchFrame = record {
            min_prefix_depth = 0;
            max_prefix_depth = length hashes;
            candidate_pods = live;
          } in
          let valid : IsFrame (length hashes) frame = record {
            ordered = omega arith;
            in_range = omega arith;
            words = and-IsWords _ _ w;
          } in
          let (s, pushed, held) = push-Holds new frame [] new-Holds in
          let enough : work (frame ∷ []) < search_fuel hashes = unfold work in omega arith in
          let (out, run, long, entries) =
            lengths_loop-outcome idx hashes idx.alive (search_fuel hashes) (frame ∷ []) s cleared
              held (valid, tt) enough in
          let size = length-replicate {A = ℕ} (length lengths) 0 in
          (
            out,
            rw (something, pushed) run,
            long ∙ size,
            λ p lt.
                entries p (rw size lt)
                ∙ unfold outcome in
                  rw (
                    get_or-replicate {A = ℕ} (length lengths) p 0,
                    contains-and candidate_pods idx.alive p,
                  ),
          )
    ]

-- For candidates in u64 words, the query that allocates its buffer returns an entry for every pod
-- that was observed and for every candidate, each the depth of its pod.
pub longest_prefix_lengths_for_candidates-depth_of :
    (idx : ShardedBlockIndexer) (hashes : List BlockHash) (candidate_pods : HostBitmap)
    → IsWords candidate_pods
    → (out : List ℕ) × (longest_prefix_lengths_for_candidates idx hashes candidate_pods ≡ some out)
      × (idx.pod_count ≤ length out)
      × ((p : ℕ) → Bitmap.contains candidate_pods p ≡ true → p < length out)
      × ((p : ℕ) → p < length out → get_or out p 0 ≡ depth_of idx hashes candidate_pods p)
unfolding longest_prefix_lengths_for_candidates
longest_prefix_lengths_for_candidates-depth_of idx hashes candidate_pods w =
    let size = max idx.pod_count (Bitmap.highest_set_bit_plus_one candidate_pods) in
    let zeros : List ℕ = replicate size 0 in
    let (out, run, long, entries) =
      longest_prefix_lengths_into-depth_of idx hashes candidate_pods zeros w in
    let room : length out ≡ size = long ∙ length-replicate {A = ℕ} size 0 in
    let bound = highest_set_bit_plus_one-bound candidate_pods w in
    (out, run, omega arith, λ p c. omega (arith, bound.0 p c), λ p lt. entries p (rw (← long) lt))
