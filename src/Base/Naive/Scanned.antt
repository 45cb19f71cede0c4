-- ===== src/Base/Naive/Scanned.antt =====
-- The linear scan counts, for each pod, the leading blocks that the pod holds.
use calinix.Base.Indexer.{BaseIndexer, owners_alive}
use calinix.Base.Naive.{
  NaiveQueryResult, NaiveState, visit_pod, count_lookup, scan_blocks, query_prefix_depths_naive,
}
use calinix.Base.Naive.Tested.{visit_all-IsTested}
use calinix.Base.Search.{longest_prefix_lengths_for_candidates}
use calinix.Base.Search.Same.{IsBase, present, owners-present, longest_prefix_lengths_into-outcome}
use calinix.Bitmap
use calinix.Bitmap.{HostBitmap, max_pods}
use calinix.Bitmap.Laws.{contains-and, and-IsWords}
use calinix.Bitmap.Members.{IsWords, contains-test_bit}
use calinix.Bitmap.Scan.{for_each_set_bit-range}
use calinix.Hash.{BlockHash}
use calinix.Query.Bisect.{held_run, bisect-held_run}
use calinix.Query.Lengths.{depth_of}
use calinix.Query.Longest.{CachesPrefixes}
use calinix.Query.Frames.{holds}
use calinix.Prelude.{
  ℕ, suc, ◌+◌, ◌-◌, ◌≤◌, ◌<◌, ◌≡◌, refl, sym, ap, ◌∙◌, inl, inr, true, false, ◌&&◌, Option, none,
  some, List, [], ◌∷◌, arith, if◌then◌else◌, Bool-cases, length, get_or, replicate,
  length-replicate, get_or-replicate, get_or_ext,
}

-- The leading blocks that the pod holds.
abbrev run_of : BaseIndexer → ℕ → List BlockHash → ℕ
run_of b p [] = 0
run_of b p (h ∷ hs) = if Bitmap.contains (owners_alive b h) p then suc (run_of b p hs) else 0

module _ (b : BaseIndexer) (candidates : HostBitmap) (words : IsWords candidates) where
  scan_blocks-run_of :
      (hashes : List BlockHash) (i : ℕ) (s : NaiveState)
      → 256 ≤ length s.result.depths
      → (out : NaiveState) × (scan_blocks b candidates i hashes (some s) ≡ some out)
        × (length out.result.depths ≡ length s.result.depths)
        × (out.result.shard_lookups ≡ s.result.shard_lookups + length hashes)
        × ((p : ℕ)
            → p < length s.result.depths
            → (Bitmap.contains s.still_matching_pods p ≡ true
                → Bitmap.contains candidates p ≡ true
                → get_or s.result.depths p 0 ≡ i
                → get_or out.result.depths p 0 ≡ i + run_of b p hashes)
              × (Bitmap.contains s.still_matching_pods p ≡ false
                  → get_or out.result.depths p 0 ≡ get_or s.result.depths p 0))
  unfolding scan_blocks count_lookup
  scan_blocks-run_of [] i s room =
      (s, refl, refl, omega arith, λ p lt. ((λ m c e. e ∙ omega arith), (λ m. refl)))
  scan_blocks-run_of (h ∷ hashes) i s room =
      let (s1, visited, u) =
        visit_all-IsTested (owners_alive b h) (i + 1) (Bitmap.contains candidates) 256 0
          (count_lookup s) room in
      let size = u.size in
      let (out, run, long, looked, entries) = scan_blocks-run_of hashes (i + 1) s1 (omega arith) in
      let kept = u.lookups in
      (
        out,
        ap (scan_blocks b candidates (i + 1) hashes) (
              for_each_set_bit-range (visit_pod (owners_alive b h) (i + 1)) candidates
                (some (count_lookup s)) words
              ∙ visited)
            ∙ run,
        long ∙ size,
        omega (arith, looked, kept),
        λ p lt.
            let small = contains-test_bit candidates p in
            let still = u.still p in
            let entry = u.entry p lt in
            let rest = entries p (omega arith) in
            (
              (λ m c e. elim (Bool-cases (Bitmap.contains (owners_alive b h) p)) [
                | inl owns ↦ rw owns (ground (arith, rest.0))
                | inr lacks ↦ rw lacks (ground (arith, rest.1))
              ]),
              (λ m. ground (arith, rest.1)),
            ),
      )

-- The count along the list is the count by depths.
held_run-run_of :
    (b : BaseIndexer) (full : IsBase b) (hashes : List BlockHash) (p : ℕ) (hs : List BlockHash)
    (d : ℕ)
    → ((k : ℕ) → k < length hs → get_or hashes (d + k) 0 ≡ get_or hs k 0)
    → held_run (holds (present b) hashes b.alive p) (length hs) d ≡ run_of b p hs
unfolding held_run owners_alive
held_run-run_of b full hashes p [] d h = refl
held_run-run_of b full hashes p (hash ∷ hs) d h =
    let same : get_or hashes (d + 1 - 1) 0 ≡ hash = rw (place d) (h 0 (omega arith)) in
    rw
      (
        same,
        owners-present b hash full,
        held_run-run_of b full hashes p hs (d + 1) (λ k lt. rw (shift k) (h (suc k) (omega arith))),
      )
      refl
  where
    place : (n : ℕ) → n + 1 - 1 ≡ n + 0
    place n = omega arith

    shift : (k : ℕ) → d + 1 + k ≡ d + suc k
    shift k = omega arith

-- For an index of the prototype with its 256 shards and candidates in u64 words, whatever hashes the
-- pods hold: the linear scan returns. It looks up each hash of the request once, and gives each live
-- candidate the number of leading hashes that it holds, and 0 to every other pod.
pub query_prefix_depths_naive-held_run :
    (b : BaseIndexer) (hashes : List BlockHash) (candidate_pods : HostBitmap)
    → IsBase b
    → IsWords candidate_pods
    → (out : NaiveQueryResult) × (query_prefix_depths_naive b hashes candidate_pods ≡ some out)
      × (length out.depths ≡ 256)
      × (out.shard_lookups ≡ length hashes)
      × ((p : ℕ)
          → p < 256
          → get_or out.depths p 0 ≡ (
              if Bitmap.contains candidate_pods p && Bitmap.contains b.alive p
              then held_run (holds (present b) hashes b.alive p) (length hashes) 0
              else 0))
unfolding query_prefix_depths_naive
query_prefix_depths_naive-held_run b hashes candidate_pods full w =
    let live = Bitmap.and candidate_pods b.alive in
    let room = length-replicate {A = ℕ} 256 0 in
    let (out, run, long, looked, entries) =
      scan_blocks-run_of b live (and-IsWords _ _ w) hashes 0
        (record {
          result = record { depths = replicate max_pods 0; shard_lookups = 0; pod_bit_tests = 0 };
          still_matching_pods = live;
        })
        (omega (arith, room)) in
    (
      out.result,
      ap (λ (o : Option NaiveState). elim o [ none ↦ none | some s ↦ some s.result ]) run,
      long ∙ room,
      omega (arith, looked),
      λ p lt.
          let counted = held_run-run_of b full hashes p hashes 0 (λ k lt'. rw (from_zero k) refl) in
          let zero_first = get_or-replicate {A = ℕ} 256 p 0 in
          let entry = entries p (omega (arith, room)) in
          ground (arith, contains-and candidate_pods b.alive p, entry.0, entry.1),
    )
  where
    from_zero : (k : ℕ) → 0 + k ≡ k
    from_zero k = omega arith

-- For an index of the prototype with its 256 shards and candidates in u64 words, if every pod caches
-- prefixes (with the hash of the request at some depth it also holds the one before): the linear scan
-- and the query of the prototype return the same depths.
pub query_prefix_depths_naive-depths :
    (b : BaseIndexer) (hashes : List BlockHash) (candidate_pods : HostBitmap)
    → IsBase b
    → IsWords candidate_pods
    → ((p : ℕ) → p < 256 → CachesPrefixes (present b) hashes p)
    → (out : NaiveQueryResult) × (query_prefix_depths_naive b hashes candidate_pods ≡ some out)
      × (longest_prefix_lengths_for_candidates b hashes candidate_pods ≡ some out.depths)
unfolding longest_prefix_lengths_for_candidates depth_of
query_prefix_depths_naive-depths b hashes candidate_pods full w closed =
    let room = length-replicate {A = ℕ} 256 0 in
    let (out, run, long, looked, entries) =
      query_prefix_depths_naive-held_run b hashes candidate_pods full w in
    let (depths, searched, size, entries') =
      longest_prefix_lengths_into-outcome b hashes full candidate_pods (replicate max_pods 0) w
        (omega (arith, room)) in
    let same : depths ≡ out.depths =
      get_or_ext depths out.depths 0 (size ∙ room ∙ sym long) (λ p lt.
        let small : p < 256 = omega (arith, size, room) in
        entries' p (omega (arith, size))
        ∙ rw (bisect-held_run (holds (present b) hashes b.alive p) (length hashes) (closed p small))
            (sym (entries p small))) in
    (out, run, searched ∙ ap some same)
