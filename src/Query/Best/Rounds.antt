-- ===== src/Query/Best/Rounds.antt =====
-- One round of the search for the best match keeps what holds between the rounds, or returns the
-- best match.
use calinix.Bitmap
use calinix.Bitmap.{HostBitmap}
use calinix.Bitmap.First.{IsFirst}
use calinix.Bitmap.Laws.{contains-is_empty}
use calinix.Query.{SearchFrame, SearchStack, PrefixMatch, push_unless_empty}
use calinix.Query.Best.{improve}
use calinix.Query.Best.Invariant.{depth, Beats, IsOpen, AreOpen, Waits, OnTop, IsSearch}
use calinix.Query.Bisect.{bisect-IsBoundary}
use calinix.Query.Frames.{work}
use calinix.Query.Stack.{Holds, push-Holds}
use calinix.Prelude.{
  ℕ, ◌+◌, ◌-◌, ◌*◌, ◌≤◌, ◌≡◌, ◌⊎◌, inl, inr, Bool, true, false, ◌&&◌, ◌||◌, some, List, ◌∷◌, arith,
  ltb, ◌==◌, if◌then◌else◌, Bool-cases,
}

-- The waiting frames after a push that leaves a frame without pods out.
abbrev pub add : SearchFrame → List SearchFrame → List SearchFrame
add f fs = if Bitmap.is_empty f.candidate_pods then fs else f ∷ fs

pub push_unless_empty-add :
    (s : SearchStack) (f : SearchFrame) (fs : List SearchFrame)
    → Holds s fs
    → (s' : SearchStack) × (push_unless_empty s f ≡ some s')
      × Holds s' (add f fs)
      × (work (add f fs) ≤ 2 * (f.max_prefix_depth - f.min_prefix_depth) + 1 + work fs)
unfolding push_unless_empty work
push_unless_empty-add s f fs h = elim (Bool-cases (Bitmap.is_empty f.candidate_pods)) [
  | inl vacant ↦
      (s, rw (vacant, push_unless_empty), rw (vacant, add) h, rw (vacant, add) (omega arith))
  | inr some_pods ↦
      let (s', pushed, h') = push-Holds s f fs h in
      (
        s',
        rw (some_pods, push_unless_empty) pushed,
        rw (some_pods, add) h',
        rw (some_pods, add) (omega arith),
      )
]

module _ (has : ℕ → ℕ → Bool) (live : HostBitmap) (n : ℕ) where
  pub AreOpen-add :
      (f : SearchFrame) (fs : List SearchFrame)
      → (Bitmap.is_empty f.candidate_pods ≡ false → IsOpen has live n f)
      → AreOpen has live n fs
      → AreOpen has live n (add f fs)
  AreOpen-add f fs v vs = elim (Bool-cases (Bitmap.is_empty f.candidate_pods)) [
    | inl vacant ↦ rw (vacant, add) vs
    | inr some_pods ↦ rw (some_pods, add) (v some_pods, vs)
  ]

  pub Waits-add :
      (p : ℕ) (f : SearchFrame) (fs : List SearchFrame)
      → (Bitmap.contains f.candidate_pods p ≡ true) ⊎ Waits has live n p fs
      → Waits has live n p (add f fs)
  Waits-add p f fs w = elim (Bool-cases (Bitmap.is_empty f.candidate_pods)) [
    | inr some_pods ↦ rw (some_pods, add) w
    | inl vacant ↦ rw (vacant, add) (elsewhere w (contains-is_empty f.candidate_pods p vacant))
  ]
    where
      elsewhere :
          (Bitmap.contains f.candidate_pods p ≡ true) ⊎ Waits has live n p fs
          → Bitmap.contains f.candidate_pods p ≡ false
          → Waits has live n p fs
      elsewhere (inl here) away = absurd (ground arith)
      elsewhere (inr w) away = w

  pub OnTop-add :
      (p : ℕ) (f : SearchFrame) (fs : List SearchFrame)
      → Bitmap.contains f.candidate_pods p ≡ true
      → OnTop has live n p (add f fs)
  OnTop-add p f fs here = elim (Bool-cases (Bitmap.is_empty f.candidate_pods)) [
    | inr some_pods ↦ rw (some_pods, add) here
    | inl vacant ↦ let away = contains-is_empty f.candidate_pods p vacant in absurd (ground arith)
  ]

  pub depth-le : (p : ℕ) → depth has live n p ≤ n
  depth-le p = (bisect-IsBoundary (has p) 0 n (omega arith)).at_most

  -- The depth of a pod of an open frame is in its range.
  depth-in_range :
      (f : SearchFrame) (p : ℕ)
      → IsOpen has live n f
      → Bitmap.contains f.candidate_pods p ≡ true
      → (f.min_prefix_depth ≤ depth has live n p) × (depth has live n p ≤ f.max_prefix_depth)
  depth-in_range f p v here =
      let same = (v.pods p here).1 in
      let range = bisect-IsBoundary (has p) f.min_prefix_depth f.max_prefix_depth v.ordered in
      let low = range.at_least in let high = range.at_most in (omega arith, omega arith)

  -- A range that cannot beat the best match, or has no pods, is given up.
  pub IsSearch-skip :
      (f : SearchFrame) (fs : List SearchFrame) (best : PrefixMatch)
      → (Bitmap.is_empty f.candidate_pods || ltb f.max_prefix_depth best.prefix_depth) ≡ true
      → IsSearch has live n (f ∷ fs) best
      → IsSearch has live n fs best
  IsSearch-skip f fs best skipped s = record {
    open_frames = s.open_frames.1;
    covered = λ p l. settled p (s.covered p l);
    full_on_top = λ p l e.
        let here = s.full_on_top p l e in
        let away = contains-is_empty f.candidate_pods p in
        let low = depth-in_range f p s.open_frames.0 here in
        let top = depth-le best.pod_id in let reached = s.reached in absurd (ground arith);
    chosen = s.chosen;
    reached = s.reached;
  }
    where
      settled :
          (p : ℕ)
          → Beats has live n best p ⊎ Waits has live n p (f ∷ fs)
          → Beats has live n best p ⊎ Waits has live n p fs
      settled p (inl beaten) = inl beaten
      settled p (inr (inr waits)) = inr waits
      settled p (inr (inl here)) =
          let away = contains-is_empty f.candidate_pods p in
          let high = (depth-in_range f p s.open_frames.0 here).1 in inl (inl (ground arith))

  -- A frame whose range is one depth: its first pod is compared with the best match.
  pub IsSearch-improve :
      (f : SearchFrame) (fs : List SearchFrame) (best : PrefixMatch) (q : ℕ)
      → (f.min_prefix_depth == f.max_prefix_depth) ≡ true
      → IsFirst (Bitmap.contains f.candidate_pods) q
      → IsSearch has live n (f ∷ fs) best
      → IsSearch has live n fs (improve best f.min_prefix_depth (some q))
  unfolding improve
  IsSearch-improve f fs best q done first s =
      let end = f.min_prefix_depth in
      let q_open = s.open_frames.0.pods q first.passes in
      let q_low = depth-in_range f q s.open_frames.0 first.passes in
      elim (Bool-cases
        (ltb best.prefix_depth end || (end == best.prefix_depth && ltb q best.pod_id))) [
          | inl better ↦
              rw (better, improve)
                (record {
                  open_frames = s.open_frames.1;
                  covered = λ p l. improved better p (s.covered p l);
                  full_on_top = not_full;
                  chosen = q_open.0;
                  reached = q_low.0;
                })
          | inr worse ↦
              rw (worse, improve)
                (record {
                  open_frames = s.open_frames.1;
                  covered = λ p l. kept worse p (s.covered p l);
                  full_on_top = not_full;
                  chosen = s.chosen;
                  reached = s.reached;
                })
        ]
    where
      not_full :
          (p : ℕ) → Bitmap.contains live p ≡ true → depth has live n p ≡ n → OnTop has live n p fs
      not_full p l e =
          let high = (depth-in_range f p s.open_frames.0 (s.full_on_top p l e)).1 in
          let low = s.open_frames.0.not_full in absurd (ground arith)

      not_before : (p : ℕ) → Bitmap.contains f.candidate_pods p ≡ true → q ≤ p
      not_before p here = let away = first.least p in ground arith

      improved :
          (ltb best.prefix_depth f.min_prefix_depth
              || (f.min_prefix_depth == best.prefix_depth && ltb q best.pod_id))
            ≡ true
          → (p : ℕ) → Beats has live n best p ⊎ Waits has live n p (f ∷ fs)
          → Beats has live n (record { pod_id = q; prefix_depth = f.min_prefix_depth }) p
            ⊎ Waits has live n p fs
      improved better p (inl (inl less)) = inl (inl (ground arith))
      improved better p (inl (inr (same, later))) =
          elim (Bool-cases (ltb best.prefix_depth f.min_prefix_depth)) [
            | inl deeper ↦ inl (inl (ground arith))
            | inr tie ↦ inl (inr (ground arith, ground arith))
          ]
      improved better p (inr (inr waits)) = inr waits
      improved better p (inr (inl here)) =
          let range = depth-in_range f p s.open_frames.0 here in
          inl (inr (ground arith, not_before p here))

      kept :
          (ltb best.prefix_depth f.min_prefix_depth
              || (f.min_prefix_depth == best.prefix_depth && ltb q best.pod_id))
            ≡ false
          → (p : ℕ) → Beats has live n best p ⊎ Waits has live n p (f ∷ fs)
          → Beats has live n best p ⊎ Waits has live n p fs
      kept worse p (inl beaten) = inl beaten
      kept worse p (inr (inr waits)) = inr waits
      kept worse p (inr (inl here)) =
          let range = depth-in_range f p s.open_frames.0 here in
          let after = not_before p here in
          elim (Bool-cases (f.min_prefix_depth == best.prefix_depth)) [
            | inl tie ↦ inl (inr (ground arith, ground arith))
            | inr apart ↦ inl (inl (ground arith))
          ]
