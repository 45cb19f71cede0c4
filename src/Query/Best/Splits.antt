-- ===== src/Query/Best/Splits.antt =====
-- The round that probes: the two halves of a frame, or a full match.
use calinix.Bitmap
use calinix.Bitmap.{HostBitmap}
use calinix.Bitmap.First.{IsFirst}
use calinix.Bitmap.Laws.{contains-and, contains-minus, and-IsWords, minus-IsWords}
use calinix.Query.{SearchFrame, PrefixMatch, probe_between}
use calinix.Query.Best.Invariant.{depth, Beats, IsOpen, Waits, IsSearch, IsBest}
use calinix.Query.Best.Rounds.{add, AreOpen-add, Waits-add, OnTop-add, depth-le}
use calinix.Query.Bisect.{bisect, bisect_step, bisect-IsBoundary}
use calinix.Prelude.{
  ℕ, ◌-◌, ◌<◌, ◌≡◌, sym, ◌∙◌, ◌⊎◌, inl, inr, Bool, true, false, not, ◌&&◌, List, ◌∷◌, arith, ◌==◌,
  if◌then◌else◌, Bool-cases,
}

-- `probed` are the pods that hold the probed depth.
module _ (has : ℕ → ℕ → Bool) (live : HostBitmap) (n : ℕ) (f : SearchFrame)
    (probed : HostBitmap) where
  abbrev at : ℕ
  at = probe_between f.min_prefix_depth f.max_prefix_depth

  abbrev pub above : SearchFrame
  above = record {
    min_prefix_depth = at;
    max_prefix_depth = f.max_prefix_depth;
    candidate_pods = Bitmap.and f.candidate_pods probed;
  }

  abbrev pub below : SearchFrame
  below = record {
    min_prefix_depth = f.min_prefix_depth;
    max_prefix_depth = at - 1;
    candidate_pods = Bitmap.minus f.candidate_pods (Bitmap.and f.candidate_pods probed);
  }

  -- The frame can be split, and the probe tells its pods apart.
  pub record IsSplit : Type 0 where
    pub open_frame : IsOpen has live n f
    pub wide : f.min_prefix_depth < f.max_prefix_depth
    pub holders_found : (p : ℕ) → has p at ≡ Bitmap.contains probed p

  contains-above :
      (p : ℕ)
      → Bitmap.contains above.candidate_pods p
        ≡ (Bitmap.contains f.candidate_pods p && Bitmap.contains probed p)
  contains-above p = contains-and f.candidate_pods probed p

  contains-below :
      (p : ℕ)
      → IsSplit
      → Bitmap.contains below.candidate_pods p
        ≡ (Bitmap.contains f.candidate_pods p && not (Bitmap.contains probed p))
  contains-below p v =
      let words = and-IsWords f.candidate_pods probed v.open_frame.words in
      ground (arith, contains-minus f.candidate_pods above.candidate_pods p words, contains-above p)

  -- What the probe says of the depth of a pod of the frame.
  depth_split :
      (p : ℕ)
      → IsSplit
      → Bitmap.contains f.candidate_pods p ≡ true
      → depth has live n p ≡ (
          if Bitmap.contains probed p
          then bisect (has p) at f.max_prefix_depth
          else bisect (has p) f.min_prefix_depth (at - 1))
  depth_split p v here =
      let (l, same) = v.open_frame.pods p here in
      let step = bisect_step (has p) f.min_prefix_depth f.max_prefix_depth v.wide in
      let found = v.holders_found p in sym same ∙ step ∙ rw found

  IsOpen-above : IsSplit → at < n → IsOpen has live n above
  IsOpen-above v low =
      let wide = v.wide in
      record {
        ordered = omega arith;
        in_range = v.open_frame.in_range;
        not_full = low;
        words = and-IsWords f.candidate_pods probed v.open_frame.words;
        pods = λ p h.
            let both = contains-above p in
            let here : Bitmap.contains f.candidate_pods p ≡ true = ground arith in
            let holds_probe : Bitmap.contains probed p ≡ true = ground arith in
            ((v.open_frame.pods p here).0, sym (depth_split p v here ∙ rw holds_probe));
      }

  IsOpen-below : IsSplit → IsOpen has live n below
  IsOpen-below v =
      let wide = v.wide in
      let in_range = v.open_frame.in_range in
      record {
        ordered = omega arith;
        in_range = omega arith;
        not_full = v.open_frame.not_full;
        words = minus-IsWords _ _ v.open_frame.words;
        pods = λ p h.
            let both = contains-below p v in
            let here : Bitmap.contains f.candidate_pods p ≡ true = ground arith in
            let lacks_probe : Bitmap.contains probed p ≡ false = ground arith in
            ((v.open_frame.pods p here).0, sym (depth_split p v here ∙ rw lacks_probe));
      }

  -- A pod of the frame with a full match is in the upper half.
  full-above :
      (p : ℕ)
      → IsSplit
      → Bitmap.contains f.candidate_pods p ≡ true
      → depth has live n p ≡ n
      → Bitmap.contains above.candidate_pods p ≡ true
  full-above p v here full = elim (Bool-cases (Bitmap.contains probed p)) [
    | inl holds_probe ↦ let both = contains-above p in ground arith
    | inr lacks_probe ↦
        let wide = v.wide in
        let in_range = v.open_frame.in_range in
        let split : depth has live n p ≡ bisect (has p) f.min_prefix_depth (at - 1) =
          depth_split p v here ∙ rw lacks_probe in
        let low = (bisect-IsBoundary (has p) f.min_prefix_depth (at - 1) (omega arith)).at_most in
        absurd (omega arith)
  ]

  -- The two halves wait instead of the frame, the upper one on the top.
  pub IsSearch-split :
      (fs : List SearchFrame) (best : PrefixMatch)
      → IsSplit
      → (Bitmap.is_empty above.candidate_pods ≡ false → at < n)
      → IsSearch has live n (f ∷ fs) best
      → IsSearch has live n (add above (add below fs)) best
  IsSearch-split fs best v low s = record {
    open_frames =
        AreOpen-add has live n above (add below fs) (λ some_pods. IsOpen-above v (low some_pods))
          (AreOpen-add has live n below fs (λ some_pods. IsOpen-below v) s.open_frames.1);
    covered = λ p l. halved p (s.covered p l);
    full_on_top = λ p l full.
        OnTop-add has live n p above (add below fs) (full-above p v (s.full_on_top p l full) full);
    chosen = s.chosen;
    reached = s.reached;
  }
    where
      halved :
          (p : ℕ)
          → Beats has live n best p ⊎ Waits has live n p (f ∷ fs)
          → Beats has live n best p ⊎ Waits has live n p (add above (add below fs))
      halved p (inl beaten) = inl beaten
      halved p (inr (inr waits)) = inr (
          Waits-add has live n p above (add below fs)
            (inr (Waits-add has live n p below fs (inr waits))))
      halved p (inr (inl here)) = elim (Bool-cases (Bitmap.contains probed p)) [
        | inl holds_probe ↦
            let both = contains-above p in
            inr (Waits-add has live n p above (add below fs) (inl (ground arith)))
        | inr lacks_probe ↦
            let both = contains-below p v in
            inr (
              Waits-add has live n p above (add below fs)
                (inr (Waits-add has live n p below fs (inl (ground arith)))))
      ]

  -- A probe at the full depth that some pod passes is the end.
  pub IsBest-full :
      (fs : List SearchFrame) (best : PrefixMatch) (q : ℕ)
      → IsSplit
      → at ≡ n
      → IsFirst (Bitmap.contains above.candidate_pods) q
      → IsSearch has live n (f ∷ fs) best
      → IsBest has live n (record { pod_id = q; prefix_depth = n })
  IsBest-full fs best q v end first s =
      let both = contains-above q in
      let passes = first.passes in
      let here : Bitmap.contains f.candidate_pods q ≡ true = ground arith in
      let holds_probe : Bitmap.contains probed q ≡ true = ground arith in
      let in_range = v.open_frame.in_range in
      let wide = v.wide in
      let low = (bisect-IsBoundary (has q) at f.max_prefix_depth (omega arith)).at_least in
      let split : depth has live n q ≡ bisect (has q) at f.max_prefix_depth =
        depth_split q v here ∙ rw holds_probe in
      let top = depth-le has live n q in
      record {
        live_pod = (v.open_frame.pods q here).0;
        exact = omega arith;
        beats_all = λ p l. beats p l (Bool-cases (depth has live n p == n));
      }
    where
      beats :
          (p : ℕ)
          → Bitmap.contains live p ≡ true
          → ((depth has live n p == n) ≡ true) ⊎ ((depth has live n p == n) ≡ false)
          → Beats has live n (record { pod_id = q; prefix_depth = n }) p
      beats p l (inl full) =
          let same : depth has live n p ≡ n = ground arith in
          let here = full-above p v (s.full_on_top p l same) same in
          let away = first.least p in inr (same, ground arith)
      beats p l (inr less) = let top = depth-le has live n p in inl (ground arith)
