-- ===== src/Query/Rounds.antt =====
-- One round of the search of `longest_prefix_lengths_into` keeps what every pod comes to.
use calinix.Bitmap
use calinix.Bitmap.{HostBitmap}
use calinix.Bitmap.Laws.{contains-and, contains-minus, and-IsWords, minus-IsWords}
use calinix.Hash.{BlockHash}
use calinix.Index.{ShardedBlockIndexer}
use calinix.Query.{SearchFrame, SearchStack, probe_between, lengths_step}
use calinix.Query.Stack.{Holds}
use calinix.Query.Bisect.{bisect, bisect_end, bisect_step}
use calinix.Query.Depths.{write_depths}
use calinix.Query.Frames.{
  holders, holds, IsFrame, AreFrames, work, outcome, push_unless_empty-Holds,
}
use calinix.Prelude.{
  ℕ, suc, ◌+◌, ◌-◌, ◌*◌, ◌≤◌, ◌<◌, ◌≡◌, refl, ap, ◌∙◌, inl, inr, Bool, true, false, some, List, ◌∷◌,
  arith, ◌==◌, if◌then◌else◌, Bool-cases, length, get_elem?, get_or, get_elem?-get_or,
}

module _ (idx : ShardedBlockIndexer) (hashes : List BlockHash) (alive : HostBitmap) where
  abbrev pub has : ℕ → ℕ → Bool
  has p = holds idx hashes alive p

  -- What a round that starts with the frame `f` on the top of `fs` leaves.
  pub record IsRound (f : SearchFrame) (fs : List SearchFrame) (s : SearchStack) (lengths : List ℕ)
      : Type 0 where
    pub stack : SearchStack
    pub written : List ℕ
    pub waiting : List SearchFrame
    pub returns : lengths_step idx hashes alive f s lengths ≡ some (stack, written)
    pub held : Holds stack waiting
    pub frames : AreFrames (length hashes) waiting
    pub less : suc (work waiting) ≤ 2 * (f.max_prefix_depth - f.min_prefix_depth) + 1 + work fs
    pub size : length written ≡ length lengths
    pub same :
        (p : ℕ)
        → p < length lengths
        → outcome (has p) p waiting (get_or written p 0)
          ≡ outcome (has p) p (f ∷ fs) (get_or lengths p 0)

  IsRound-end :
      (f : SearchFrame) (fs : List SearchFrame) (s : SearchStack) (lengths : List ℕ)
      → Holds s fs
      → IsFrame (length hashes) f
      → AreFrames (length hashes) fs
      → (f.min_prefix_depth == f.max_prefix_depth) ≡ true
      → IsRound f fs s lengths
  unfolding lengths_step outcome
  IsRound-end f fs s lengths h v vs done =
      let (size, depths) = write_depths f.min_prefix_depth f.candidate_pods lengths v.words in
      let ends : f.max_prefix_depth ≡ f.min_prefix_depth = ground arith in
      record {
        stack = s;
        written = _;
        waiting = fs;
        returns = rw done;
        held = h;
        frames = vs;
        less = omega arith;
        size = size;
        same = λ p lt. rw (depths p lt, ends, bisect_end (has p) f.min_prefix_depth);
      }

  abbrev pub above_of : SearchFrame → HostBitmap
  above_of f =
      Bitmap.and f.candidate_pods
        (holders idx hashes alive (probe_between f.min_prefix_depth f.max_prefix_depth))

  abbrev above : SearchFrame → SearchFrame
  above f = record {
    min_prefix_depth = probe_between f.min_prefix_depth f.max_prefix_depth;
    max_prefix_depth = f.max_prefix_depth;
    candidate_pods = above_of f;
  }

  abbrev below : SearchFrame → SearchFrame
  below f = record {
    min_prefix_depth = f.min_prefix_depth;
    max_prefix_depth = probe_between f.min_prefix_depth f.max_prefix_depth - 1;
    candidate_pods = Bitmap.minus f.candidate_pods (above_of f);
  }

  -- The two halves of a frame mean for a pod what the frame means.
  pub split_same :
      (f : SearchFrame) (p cur : ℕ)
      → IsFrame (length hashes) f
      → (f.min_prefix_depth == f.max_prefix_depth) ≡ false
      → (if Bitmap.contains (above_of f) p
          then bisect
              (has p)
              (probe_between f.min_prefix_depth f.max_prefix_depth)
              f.max_prefix_depth
          else (if Bitmap.contains (Bitmap.minus f.candidate_pods (above_of f)) p
              then bisect
                  (has p)
                  f.min_prefix_depth
                  (probe_between f.min_prefix_depth f.max_prefix_depth - 1)
              else cur))
        ≡ (if Bitmap.contains f.candidate_pods p
            then bisect (has p) f.min_prefix_depth f.max_prefix_depth
            else cur)
  split_same f p cur v wide =
      let at = probe_between f.min_prefix_depth f.max_prefix_depth in
      ground (
        arith,
        contains-and f.candidate_pods (holders idx hashes alive at) p,
        contains-minus f.candidate_pods (above_of f) p (and-IsWords _ _ v.words),
        bisect_step (has p) f.min_prefix_depth f.max_prefix_depth,
        v.ordered,
      )

  IsRound-split :
      (f : SearchFrame) (fs : List SearchFrame) (s : SearchStack) (lengths : List ℕ)
      → Holds s fs
      → IsFrame (length hashes) f
      → AreFrames (length hashes) fs
      → (f.min_prefix_depth == f.max_prefix_depth) ≡ false
      → IsRound f fs s lengths
  unfolding lengths_step outcome
  IsRound-split f fs s lengths h v vs wide =
      let n = length hashes in
      let ordered = v.ordered in
      let in_range = v.in_range in
      let at = probe_between f.min_prefix_depth f.max_prefix_depth in
      let apart : f.min_prefix_depth < f.max_prefix_depth = ground arith in
      let above_words = and-IsWords f.candidate_pods (holders idx hashes alive at) v.words in
      let above_frame : IsFrame n (above f) = record {
        ordered = omega arith;
        in_range = in_range;
        words = above_words;
      } in
      let below_frame : IsFrame n (below f) = record {
        ordered = omega arith;
        in_range = omega arith;
        words = minus-IsWords _ _ v.words;
      } in
      let (s1, fs1, push1, h1, vs1, work1, same1) =
        push_unless_empty-Holds n s (above f) fs h above_frame vs in
      let (s2, fs2, push2, h2, vs2, work2, same2) =
        push_unless_empty-Holds n s1 (below f) fs1 h1 below_frame vs1 in
      let probed : get_elem? hashes (at - 1) ≡ some (get_or hashes (at - 1) 0) =
        get_elem?-get_or hashes (at - 1) 0 (omega arith) in
      record {
        stack = s2;
        written = lengths;
        waiting = fs2;
        returns = rw (wide, probed, push1, push2);
        held = h2;
        frames = vs2;
        less = omega arith;
        size = refl;
        same = λ p lt.
            same2 (has p) p (get_or lengths p 0)
            ∙ same1 (has p) p _
            ∙ ap (outcome (has p) p fs) (split_same f p (get_or lengths p 0) v wide);
      }

  pub round :
      (f : SearchFrame) (fs : List SearchFrame) (s : SearchStack) (lengths : List ℕ)
      → Holds s fs
      → IsFrame (length hashes) f
      → AreFrames (length hashes) fs
      → IsRound f fs s lengths
  round f fs s lengths h v vs = elim (Bool-cases (f.min_prefix_depth == f.max_prefix_depth)) [
    | inl done ↦ IsRound-end f fs s lengths h v vs done
    | inr wide ↦ IsRound-split f fs s lengths h v vs wide
  ]
