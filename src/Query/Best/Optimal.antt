-- ===== src/Query/Best/Optimal.antt =====
-- `best_prefix_match_for_candidates` returns, with a best live candidate.
use calinix.Bitmap
use calinix.Bitmap.{HostBitmap}
use calinix.Bitmap.First.{first_set_bit-IsFirst}
use calinix.Bitmap.Laws.{and-IsWords}
use calinix.Hash.{BlockHash}
use calinix.Index.{ShardedBlockIndexer}
use calinix.Query.{SearchFrame, SearchStack, PrefixMatch, probe_between}
use calinix.Query.Best.{
  return, continue, improve, push_halves, after_probe, probe_frame, best_step, best_loop,
}
use calinix.Query.Best.Invariant.{IsSearch, IsBest, IsSearch-IsBest}
use calinix.Query.Best.Rounds.{add, push_unless_empty-add, IsSearch-skip, IsSearch-improve}
use calinix.Query.Best.Splits.{IsSplit, above, below, IsSearch-split, IsBest-full}
use calinix.Query.Frames.{holders, holds, work}
use calinix.Query.Stack.{Holds, pop-Holds, pop-Holds_nil}
use calinix.Prelude.{
  ℕ, zero, suc, ◌-◌, ◌≤◌, ◌<◌, ◌≡◌, refl, ◌∙◌, ◌⊎◌, inl, inr, Bool, true, false, ◌||◌, some, List,
  [], ◌∷◌, arith, ltb, ◌==◌, Bool-cases, length, get_elem?, get_or, get_elem?-get_or,
}

module _ (idx : ShardedBlockIndexer) (hashes : List BlockHash) (alive live : HostBitmap) where
  abbrev has : ℕ → ℕ → Bool
  has p = holds idx hashes alive p

  abbrev n : ℕ
  n = length hashes

  -- A round returns the answer, or goes on with less work.
  abbrev Went : SearchFrame → List SearchFrame → SearchStack → PrefixMatch → Type 0
  Went f fs s best =
      ((m : PrefixMatch) × (best_step idx hashes alive f s best ≡ some (return m))
        × IsBest has live n m)
      ⊎ ((s' : SearchStack) × (best' : PrefixMatch) × (fs' : List SearchFrame) × (best_step idx
              hashes alive f s best
            ≡ some (continue s' best'))
          × Holds s' fs'
          × IsSearch has live n fs' best'
          × (suc (work fs') ≤ work (f ∷ fs)))

  abbrev skips : SearchFrame → PrefixMatch → Bool
  skips f best = Bitmap.is_empty f.candidate_pods || ltb f.max_prefix_depth best.prefix_depth

  Went-end :
      (f : SearchFrame) (fs : List SearchFrame) (s : SearchStack) (best : PrefixMatch)
      → skips f best ≡ false
      → (f.min_prefix_depth == f.max_prefix_depth) ≡ true
      → Holds s fs
      → IsSearch has live n (f ∷ fs) best
      → Went f fs s best
  unfolding best_step work
  Went-end f fs s best kept end h v =
      elim (first_set_bit-IsFirst f.candidate_pods v.open_frames.0.words) [
        | inl (missing, vacant) ↦ absurd (ground arith)
        | inr (q, found, first) ↦ inr (
          s,
          improve best f.min_prefix_depth (some q),
          fs,
          rw (kept, end, found, best_step),
          h,
          IsSearch-improve has live n f fs best q end first v,
          omega arith,
        )
      ]

  module _ (f : SearchFrame) (fs : List SearchFrame) (s : SearchStack) (best : PrefixMatch)
      (kept : skips f best ≡ false) (wide : (f.min_prefix_depth == f.max_prefix_depth) ≡ false)
      (h : Holds s fs) (v : IsSearch has live n (f ∷ fs) best) where
    abbrev at : ℕ
    at = probe_between f.min_prefix_depth f.max_prefix_depth

    abbrev probed : HostBitmap
    probed = holders idx hashes alive at

    split : IsSplit has live n f probed
    split = record {
      open_frame = v.open_frames.0;
      wide = let ordered = v.open_frames.0.ordered in ground arith;
      holders_found = λ p. refl;
    }

    hash_found : get_elem? hashes (at - 1) ≡ some (get_or hashes (at - 1) 0)
    hash_found =
        let in_range = v.open_frames.0.in_range in
        let apart = split.wide in get_elem?-get_or hashes (at - 1) 0 (omega arith)

    Went-on :
        (Bitmap.is_empty (above has live n f probed).candidate_pods ≡ false → at < n)
        → best_step idx hashes alive f s best
          ≡ push_halves idx hashes alive f (above has live n f probed).candidate_pods s best
        → Went f fs s best
    unfolding push_halves work
    Went-on low stepped =
        let (s₁, pushed₁, h₁, work₁) = push_unless_empty-add s (below has live n f probed) fs h in
        let (s₂, pushed₂, h₂, work₂) =
          push_unless_empty-add s₁ (above has live n f probed) (add (below has live n f probed) fs)
            h₁ in
        let apart = split.wide in
        inr (
          s₂,
          best,
          _,
          stepped ∙ rw (pushed₁, pushed₂, push_halves),
          h₂,
          IsSearch-split has live n f probed fs best split low v,
          omega arith,
        )

    probe :
        best_step idx hashes alive f s best
        ≡ after_probe idx hashes alive f (above has live n f probed).candidate_pods s best
    unfolding best_step probe_frame
    probe = rw (kept, wide, hash_found, best_step, probe_frame)

    Went-split : Went f fs s best
    unfolding after_probe
    Went-split =
        let in_range = v.open_frames.0.in_range in
        let apart = split.wide in
        let words = and-IsWords f.candidate_pods probed v.open_frames.0.words in
        elim (Bool-cases (at == n)) [
          | inr early ↦ Went-on (λ some_pods. ground arith) (probe ∙ rw (early, after_probe))
          | inl full ↦
              elim (first_set_bit-IsFirst (above has live n f probed).candidate_pods words) [
                | inl (missing, vacant) ↦
                    Went-on (λ some_pods. absurd (ground arith))
                      (probe ∙ rw (full, missing, after_probe))
                | inr (q, found, first) ↦ inl (
                  record { pod_id = q; prefix_depth = n },
                  probe ∙ rw (full, found, after_probe),
                  IsBest-full has live n f probed fs best q split (ground arith) first v,
                )
              ]
        ]

  Went-round :
      (f : SearchFrame) (fs : List SearchFrame) (s : SearchStack) (best : PrefixMatch)
      → Holds s fs
      → IsSearch has live n (f ∷ fs) best
      → Went f fs s best
  unfolding best_step work
  Went-round f fs s best h v = elim (Bool-cases (skips f best)) [
    | inl skipped ↦ inr (
      s,
      best,
      fs,
      rw (skipped, best_step),
      h,
      IsSearch-skip has live n f fs best skipped v,
      omega arith,
    )
    | inr kept ↦ elim (Bool-cases (f.min_prefix_depth == f.max_prefix_depth)) [
      | inl end ↦ Went-end f fs s best kept end h v
      | inr wide ↦ Went-split f fs s best kept wide h v
    ]
  ]

  pub best_loop-IsBest :
      (fuel : ℕ) (fs : List SearchFrame) (s : SearchStack) (best : PrefixMatch)
      → Holds s fs
      → IsSearch has live n fs best
      → work fs < fuel
      → (m : PrefixMatch) × (best_loop idx hashes alive fuel s best ≡ some m) × IsBest has live n m
  unfolding best_loop
  best_loop-IsBest zero fs s best h v lt = absurd (omega arith)
  best_loop-IsBest (suc fuel) [] s best h v lt =
      (best, rw (pop-Holds_nil s h, best_loop), IsSearch-IsBest has live n best v)
  best_loop-IsBest (suc fuel) (f ∷ fs) s best h v lt =
      let (s', popped, h') = pop-Holds s f fs h in
      elim (Went-round f fs s' best h' v) [
        | inl (m, stepped, is_best) ↦ (m, rw (popped, stepped, best_loop), is_best)
        | inr (s₁, best₁, fs₁, stepped, h₁, v₁, less) ↦
            let (m, run, is_best) = best_loop-IsBest fuel fs₁ s₁ best₁ h₁ v₁ (omega arith) in
            (m, rw (popped, stepped, best_loop) run, is_best)
      ]
