-- ===== src/Base/Search/Same.antt =====
-- The query of the prototype gives every pod the depth that the present query gives it.
use calinix.Base.Indexer
use calinix.Base.Indexer.{BaseIndexer, shard_of}
use calinix.Base.Search
use calinix.Base.Search.{write_bits, halves, search_step, search_loop, whole}
use calinix.Bitmap
use calinix.Bitmap.{HostBitmap}
use calinix.Bitmap.Laws.{contains-and, contains-is_empty, and-IsWords, minus-IsWords}
use calinix.Bitmap.Members.{IsWords}
use calinix.Bitmap.Scan.{range_where, visit_all, iter_set_bits-range, for_each_set_bit-range}
use calinix.Hash.{BlockHash, shard_for_with_count, shard_for_fibonacci}
use calinix.Hash.Sharding.{shard_for_fibonacci-base}
use calinix.Index
use calinix.Index.{ShardedBlockIndexer, shard_at, shard_for}
use calinix.Query
use calinix.Query.{SearchFrame, write_depth}
use calinix.Query.Bisect.{bisect_end}
use calinix.Query.Depths.{write_depths}
use calinix.Query.Frames.{holders, IsFrame, AreFrames, work, outcome}
use calinix.Query.Lengths.{depth_of, longest_prefix_lengths_into-depth_of}
use calinix.Query.Rounds.{has, split_same}
use calinix.Prelude.{
  ℕ, zero, suc, ◌+◌, ◌-◌, ◌*◌, ◌/◌, ◌≤◌, ◌<◌, ◌≡◌, refl, sym, ap, ◌∙◌, inl, inr, Bool, true, false,
  some, List, [], ◌∷◌, ◌++◌, arith, ◌==◌, lt→ltb, Bool-cases, length, get_elem?, get_or,
  set as set_elem, replicate, length-set, length-replicate, get_or-replicate, get_elem?-get_or,
  get_or_ext,
}

-- The index of the prototype as an index of the library.
abbrev pub present : BaseIndexer → ShardedBlockIndexer
present b = record { shards = b.shards; alive = b.alive; pod_count = 0 }

-- It has its 256 shards.
abbrev pub IsBase : BaseIndexer → Type 0
IsBase b = length b.shards ≡ 256

pub owners-present :
    (b : BaseIndexer) (h : BlockHash) → IsBase b → Index.owners (present b) h ≡ Indexer.owners b h
unfolding Index.owners shard_at shard_for Indexer.owners shard_of shard_for_with_count
    shard_for_fibonacci
owners-present b h full = rw (full, ← shard_for_fibonacci-base h)

write_bits-range :
    (p : ℕ → Bool) (n base depth : ℕ) (lengths : List ℕ)
    → base + n ≤ length lengths
    → write_bits depth (range_where p n base) lengths
      ≡ some (visit_all (write_depth depth) (range_where p n base) lengths)
unfolding write_bits visit_all range_where
write_bits-range p zero base depth lengths h = refl
write_bits-range p (suc n) base depth lengths h = elim (Bool-cases (p base)) [
  | inr miss ↦ rw miss (write_bits-range p n (base + 1) depth lengths (omega arith))
  | inl hit ↦
      let fits = lt→ltb base (length lengths) (omega arith) in
      rw (hit, fits)
        (write_bits-range p n (base + 1) depth (set_elem lengths base depth)
            (omega (arith, length-set lengths base depth))
          ∙ ap (λ xs. some (visit_all (write_depth depth) (range_where p n (base + 1)) xs))
              (sym (unfold write_depth in rw fits)))
]

-- The prototype writes the members of a finished frame as the present query does.
write_bits-for_each_set_bit :
    (depth : ℕ) (pods : HostBitmap) (lengths : List ℕ)
    → IsWords pods
    → 256 ≤ length lengths
    → write_bits depth (Bitmap.iter_set_bits pods) lengths
      ≡ some (Bitmap.for_each_set_bit (write_depth depth) pods lengths)
write_bits-for_each_set_bit depth pods lengths w wide =
    rw (iter_set_bits-range pods w, for_each_set_bit-range (write_depth depth) pods lengths w)
      (write_bits-range (Bitmap.contains pods) 256 0 depth lengths wide)

module _ (b : BaseIndexer) (hashes : List BlockHash) (full : IsBase b) where
  -- What a round that starts with the frame `f` on the top of `fs` leaves.
  pub record IsRound (f : SearchFrame) (fs : List SearchFrame) (lengths : List ℕ) : Type 0 where
    pub stack : List SearchFrame
    pub written : List ℕ
    pub returns : search_step b hashes f fs lengths ≡ some (stack, written)
    pub frames : AreFrames (length hashes) stack
    pub less : suc (work stack) ≤ 2 * (f.max_prefix_depth - f.min_prefix_depth) + 1 + work fs
    pub size : length written ≡ length lengths
    pub same :
        (p : ℕ)
        → p < length lengths
        → outcome (has (present b) hashes b.alive p) p stack (get_or written p 0)
          ≡ outcome (has (present b) hashes b.alive p) p (f ∷ fs) (get_or lengths p 0)

  IsRound-empty :
      (f : SearchFrame) (fs : List SearchFrame) (lengths : List ℕ)
      → AreFrames (length hashes) fs
      → Bitmap.is_empty f.candidate_pods ≡ true
      → IsRound f fs lengths
  unfolding search_step outcome
  IsRound-empty f fs lengths vs vacant = record {
    stack = fs;
    written = lengths;
    returns = rw vacant;
    frames = vs;
    less = omega arith;
    size = refl;
    same = λ p lt. rw (contains-is_empty f.candidate_pods p vacant);
  }

  IsRound-end :
      (f : SearchFrame) (fs : List SearchFrame) (lengths : List ℕ)
      → IsFrame (length hashes) f
      → AreFrames (length hashes) fs
      → 256 ≤ length lengths
      → Bitmap.is_empty f.candidate_pods ≡ false
      → (f.min_prefix_depth == f.max_prefix_depth) ≡ true
      → IsRound f fs lengths
  unfolding search_step outcome
  IsRound-end f fs lengths v vs wide some_pods done =
      let (size, depths) = write_depths f.min_prefix_depth f.candidate_pods lengths v.words in
      let ends : f.max_prefix_depth ≡ f.min_prefix_depth = ground arith in
      record {
        stack = fs;
        written = _;
        returns = rw (
          some_pods,
          done,
          write_bits-for_each_set_bit f.min_prefix_depth f.candidate_pods lengths v.words wide,
        );
        frames = vs;
        less = omega arith;
        size = size;
        same = λ p lt.
            rw
              (depths p lt, ends, bisect_end (has (present b) hashes b.alive p) f.min_prefix_depth);
      }

  IsRound-split :
      (f : SearchFrame) (fs : List SearchFrame) (lengths : List ℕ)
      → IsFrame (length hashes) f
      → AreFrames (length hashes) fs
      → Bitmap.is_empty f.candidate_pods ≡ false
      → (f.min_prefix_depth == f.max_prefix_depth) ≡ false
      → IsRound f fs lengths
  unfolding search_step outcome halves Indexer.owners_alive work
  IsRound-split f fs lengths v vs some_pods apart =
      let ordered = v.ordered in
      let in_range = v.in_range in
      let at = (f.min_prefix_depth + f.max_prefix_depth + 1) / 2 in
      let hash = get_or hashes (at - 1) 0 in
      let narrow : f.min_prefix_depth < f.max_prefix_depth = ground arith in
      let probed : get_elem? hashes (at - 1) ≡ some hash =
        get_elem?-get_or hashes (at - 1) 0 (omega arith) in
      let above_words =
        and-IsWords f.candidate_pods (holders (present b) hashes b.alive at) v.words in
      record {
        stack = halves b hashes f at hash ++ fs;
        written = lengths;
        returns = rw (some_pods, apart, probed);
        frames = rw (← owners-present b hash full) (
          record {
            ordered = omega arith;
            in_range = omega arith;
            words = minus-IsWords _ _ v.words;
          },
          (record { ordered = omega arith; in_range = in_range; words = above_words }, vs),
        );
        less = omega arith;
        size = refl;
        same = λ p lt. rw (← owners-present b hash full) (
            ap (outcome (has (present b) hashes b.alive p) p fs)
              (split_same (present b) hashes b.alive f p (get_or lengths p 0) v apart));
      }

  pub round :
      (f : SearchFrame) (fs : List SearchFrame) (lengths : List ℕ)
      → IsFrame (length hashes) f
      → AreFrames (length hashes) fs
      → 256 ≤ length lengths
      → IsRound f fs lengths
  round f fs lengths v vs wide = elim (Bool-cases (Bitmap.is_empty f.candidate_pods)) [
    | inl vacant ↦ IsRound-empty f fs lengths vs vacant
    | inr some_pods ↦ elim (Bool-cases (f.min_prefix_depth == f.max_prefix_depth)) [
      | inl done ↦ IsRound-end f fs lengths v vs wide some_pods done
      | inr apart ↦ IsRound-split f fs lengths v vs some_pods apart
    ]
  ]

  search_loop-outcome :
      (fuel : ℕ) (fs : List SearchFrame) (lengths : List ℕ)
      → AreFrames (length hashes) fs
      → 256 ≤ length lengths
      → work fs < fuel
      → (out : List ℕ) × (search_loop b hashes fuel fs lengths ≡ some out)
        × (length out ≡ length lengths)
        × ((p : ℕ)
            → p < length lengths
            → get_or out p 0 ≡ outcome (has (present b) hashes b.alive p) p fs (get_or lengths p 0))
  unfolding search_loop work
  search_loop-outcome zero fs lengths vs wide lt = absurd (omega arith)
  search_loop-outcome (suc fuel) [] lengths vs wide lt =
      (lengths, refl, refl, λ p lt'. unfold outcome in refl)
  search_loop-outcome (suc fuel) (f ∷ fs) lengths vs wide lt =
      let r = round f fs lengths vs.0 vs.1 wide in
      let less = r.less in
      let size = r.size in
      let (out, run, long, entries) =
        search_loop-outcome fuel r.stack r.written r.frames (omega arith) (omega arith) in
      (out, rw (r.returns) run, long ∙ size, λ p lt'. entries p (rw size lt') ∙ r.same p lt')

  -- The query returns the depths that the present one gives.
  pub longest_prefix_lengths_into-outcome :
      (candidate_pods : HostBitmap) (lengths : List ℕ)
      → IsWords candidate_pods
      → 256 ≤ length lengths
      → (out : List ℕ) × (Search.longest_prefix_lengths_into b hashes candidate_pods lengths
          ≡ some out)
        × (length out ≡ length lengths)
        × ((p : ℕ)
            → p < length lengths
            → get_or out p 0 ≡ depth_of (present b) hashes candidate_pods p)
  unfolding Search.longest_prefix_lengths_into depth_of whole
  longest_prefix_lengths_into-outcome candidate_pods lengths w wide =
      let valid : IsFrame (length hashes) (whole b hashes candidate_pods) = record {
        ordered = omega arith;
        in_range = omega arith;
        words = and-IsWords _ _ w;
      } in
      let size = length-replicate {A = ℕ} (length lengths) 0 in
      let (out, run, long, entries) =
        search_loop-outcome (2 * length hashes + 2) (whole b hashes candidate_pods ∷ [])
          (replicate (length lengths) 0) (valid, tt) (omega (arith, size))
          (unfold work in omega arith) in
      (
        out,
        run,
        long ∙ size,
        λ p lt.
            entries p (rw size lt)
            ∙ unfold outcome in
              rw (
                get_or-replicate {A = ℕ} (length lengths) p 0,
                contains-and candidate_pods b.alive p,
              ),
      )

-- For an index of the prototype with its 256 shards, candidates in u64 words and a buffer of at
-- least 256 entries: the query of the prototype, which pushes frames without pods and skips them,
-- returns exactly what the present query returns for the same shards and live pods.
pub longest_prefix_lengths_into-present :
    (b : BaseIndexer) (hashes : List BlockHash) (candidate_pods : HostBitmap) (lengths : List ℕ)
    → IsBase b
    → IsWords candidate_pods
    → 256 ≤ length lengths
    → Search.longest_prefix_lengths_into b hashes candidate_pods lengths
      ≡ Query.longest_prefix_lengths_into (present b) hashes candidate_pods lengths
longest_prefix_lengths_into-present b hashes candidate_pods lengths full w wide =
    let (out, run, long, entries) =
      longest_prefix_lengths_into-outcome b hashes full candidate_pods lengths w wide in
    let (out', run', long', entries') =
      longest_prefix_lengths_into-depth_of (present b) hashes candidate_pods lengths w in
    run
    ∙ ap some (
        get_or_ext out out' 0 (long ∙ sym long')
          (λ p lt. entries p (omega (arith, long)) ∙ sym (entries' p (omega (arith, long)))))
    ∙ sym run'
