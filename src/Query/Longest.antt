-- ===== src/Query/Longest.antt =====
-- What the depth of a pod means: the longest prefix of the request that the pod caches.
use calinix.Bitmap
use calinix.Bitmap.{HostBitmap}
use calinix.Bitmap.Members.{IsWords}
use calinix.Hash.{BlockHash}
use calinix.Index.{ShardedBlockIndexer}
use calinix.Query.{longest_prefix_lengths_into}
use calinix.Query.Bisect.{
  bisect, IsBoundary, bisect-IsBoundary, IsClosed, held_run, bisect-held_run,
}
use calinix.Query.Frames.{holds}
use calinix.Query.Lengths.{depth_of, longest_prefix_lengths_into-depth_of}
use calinix.Prelude.{ℕ, ◌<◌, ◌≡◌, ◌∙◌, true, some, List, arith, length, get_or}

-- A pod caches prefixes: with the hash at some depth it also holds the one before.
abbrev pub CachesPrefixes : ShardedBlockIndexer → List BlockHash → ℕ → Type 0
CachesPrefixes idx hashes p = IsClosed (holds idx hashes idx.alive p) (length hashes)

-- For candidates in u64 words and a live candidate whose id is within the buffer and which caches
-- prefixes, the query returns, and the pod's entry is the number of leading hashes of the request
-- that the pod holds, as a linear scan counts them.
pub longest_prefix_lengths_into-held_run :
    (idx : ShardedBlockIndexer) (hashes : List BlockHash) (candidate_pods : HostBitmap)
    (lengths : List ℕ) (p : ℕ)
    → IsWords candidate_pods
    → p < length lengths
    → Bitmap.contains candidate_pods p ≡ true
    → Bitmap.contains idx.alive p ≡ true
    → CachesPrefixes idx hashes p
    → (out : List ℕ) × (longest_prefix_lengths_into idx hashes candidate_pods lengths ≡ some out)
      × (get_or out p 0 ≡ held_run (holds idx hashes idx.alive p) (length hashes) 0)
unfolding depth_of
longest_prefix_lengths_into-held_run idx hashes candidate_pods lengths p w lt candidate live
      closed =
    let (out, run, long, entries) =
      longest_prefix_lengths_into-depth_of idx hashes candidate_pods lengths w in
    (
      out,
      run,
      entries p lt
          ∙ rw (candidate, live)
              (bisect-held_run (holds idx hashes idx.alive p) (length hashes) closed),
    )

-- For candidates in u64 words and a live candidate whose id is within the buffer, whatever hashes
-- it holds, the query returns, and the pod's entry is 0 or a depth at which it holds the request's
-- hash, and the pod does not hold the hash at the next depth, if there is one.
pub longest_prefix_lengths_into-IsBoundary :
    (idx : ShardedBlockIndexer) (hashes : List BlockHash) (candidate_pods : HostBitmap)
    (lengths : List ℕ) (p : ℕ)
    → IsWords candidate_pods
    → p < length lengths
    → Bitmap.contains candidate_pods p ≡ true
    → Bitmap.contains idx.alive p ≡ true
    → (out : List ℕ) × (longest_prefix_lengths_into idx hashes candidate_pods lengths ≡ some out)
      × IsBoundary (holds idx hashes idx.alive p) 0 (length hashes) (get_or out p 0)
unfolding depth_of
longest_prefix_lengths_into-IsBoundary idx hashes candidate_pods lengths p w lt candidate live =
    let (out, run, long, entries) =
      longest_prefix_lengths_into-depth_of idx hashes candidate_pods lengths w in
    let search = bisect (holds idx hashes idx.alive p) 0 (length hashes) in
    let entry : get_or out p 0 ≡ search = entries p lt ∙ rw (candidate, live) in
    (
      out,
      run,
      rw entry (bisect-IsBoundary (holds idx hashes idx.alive p) 0 (length hashes) (omega arith)),
    )
