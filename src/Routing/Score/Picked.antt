-- ===== src/Routing/Score/Picked.antt =====
-- The candidate that wins.
use calinix.Bitmap
use calinix.Bitmap.{HostBitmap}
use calinix.Bitmap.Members.{IsWords, contains-test_bit}
use calinix.Bitmap.Scan.{range_where, visit_all, for_each_set_bit-range}
use calinix.Prelude.Results.{err, ok}
use calinix.Routing.{RequiredRole}
use calinix.Routing.Eligible.{is_in, is_in-range_where}
use calinix.Routing.Score.{
  Floats, IsOrder, CandidateScore, ScoreStage, RoutingContext, no_candidates, weights_for,
  score_candidate, better, keep_better, best_candidate,
}
use calinix.Session.{StickyStore}
use calinix.Upstream.{UpstreamCatalog}
use calinix.Upstream.Load.{LoadState}
use calinix.Prelude.{
  ℕ, ◌≡◌, refl, sym, ap, ap₂, ◌∙◌, subst, fun_ext, ◌⊎◌, inl, inr, Bool, true, false, ◌||◌, Option,
  none, some, List, [], ◌∷◌, arith, leb, ◌==◌, ==_iff, Bool-cases, Option-cases, length,
}

module _ {F : Type 0} (fl : Floats F) (v : IsOrder fl) where
  pub better-asym : (a b : CandidateScore F) → better fl a b ≡ true → better fl b a ≡ false
  unfolding better
  better-asym a b h = ground (arith, v.less-asym a.final_score b.final_score)

  better_trans :
      (a b c : CandidateScore F)
      → better fl a b ≡ true
      → better fl b c ≡ true
      → better fl a c ≡ true
  unfolding better
  better_trans a b c h k = ground (
    arith,
    v.less-asym a.final_score b.final_score,
    v.less-asym b.final_score c.final_score,
    v.less-asym a.final_score c.final_score,
    v.less-split c.final_score a.final_score b.final_score,
    v.less-split b.final_score c.final_score a.final_score,
    v.less-split a.final_score c.final_score b.final_score,
    v.less-split a.final_score b.final_score c.final_score,
    v.less-split c.final_score b.final_score a.final_score,
    v.less-split b.final_score a.final_score c.final_score,
  )

  better_irrefl : (t s : CandidateScore F) → t ≡ s → better fl t s ≡ false
  better_irrefl t s same = elim (Bool-cases (better fl t s)) [
    | inr equal ↦ equal
    | inl above ↦
        let swapped : better fl s t ≡ true = ap₂ (better fl) (sym same) same ∙ above in
        absurd (ground (arith, better-asym t s above))
  ]

  -- A score that does not beat the old best does not beat a new one that does.
  better-kept :
      (t s b : CandidateScore F)
      → better fl s b ≡ true
      → better fl t b ≡ false
      → better fl t s ≡ false
  better-kept t s b above below = elim (Bool-cases (better fl t s)) [
    | inr equal ↦ equal
    | inl beats ↦ let chain = better_trans t s b beats above in absurd (ground arith)
  ]

  some_injective : (t s : CandidateScore F) → some t ≡ some s → t ≡ s
  some_injective t s h = ap (λ o. elim o [ none ↦ t | some a ↦ a ]) h

  -- The best of the numbers that `seen` has, none of which is better.
  abbrev pub IsPick :
      (ℕ → Option (CandidateScore F)) → (ℕ → Bool) → Option (CandidateScore F) → Type 0
  IsPick score seen none = (x : ℕ) → seen x ≡ true → score x ≡ none
  IsPick score seen (some b) =
      ((p : ℕ) × (seen p ≡ true) × (score p ≡ some b))
      × ((x : ℕ) (t : CandidateScore F) → seen x ≡ true → score x ≡ some t → better fl t b ≡ false)

  module _ (score : ℕ → Option (CandidateScore F)) where
    abbrev with_also : ℕ → (ℕ → Bool) → ℕ → Bool
    with_also x seen q = (x == q) || seen q

    -- A number that is scored as `s`, or as nothing.
    score_at : (x q : ℕ) → (x == q) ≡ true → score q ≡ score x
    score_at x q same = ap score (sym ((==_iff x q).0 same))

    -- The same number is scored as the same.
    same_score :
        (x q : ℕ) (s t : CandidateScore F)
        → (x == q) ≡ true
        → score x ≡ some s
        → score q ≡ some t
        → t ≡ s
    same_score x q s t same scored k = some_injective t s (sym k ∙ score_at x q same ∙ scored)

    IsPick-keep_better :
        (seen : ℕ → Bool) (best : Option (CandidateScore F)) (x : ℕ)
        → IsPick score seen best
        → IsPick score (with_also x seen) (keep_better fl score best x)
    unfolding keep_better
    IsPick-keep_better seen none x w = elim (Option-cases (score x)) [
      | inl unscored ↦
          rw (unscored, keep_better)
            (λ q h. elim (Bool-cases (x == q)) [
              | inl same ↦ score_at x q same ∙ unscored
              | inr other ↦ w q (ground arith)
            ])
      | inr (s, scored) ↦
          rw (scored, keep_better)
            (
              (x, ground arith, scored),
              λ q t h k. elim (Bool-cases (x == q)) [
                | inl same ↦ better_irrefl t s (same_score x q s t same scored k)
                | inr other ↦ absurd (ground (arith, w q))
              ],
            )
    ]
    IsPick-keep_better seen (some b) x ((p, seen_p, scored_p), top) =
        elim (Option-cases (score x)) [
          | inl unscored ↦
              rw (unscored, keep_better)
                (
                  (p, ground arith, scored_p),
                  λ q t h k. elim (Bool-cases (x == q)) [
                    | inl same ↦ let missing = score_at x q same ∙ unscored in absurd (ground arith)
                    | inr other ↦ top q t (ground arith) k
                  ],
                )
          | inr (s, scored) ↦ elim (Bool-cases (better fl s b)) [
            | inl above ↦
                rw (scored, above, keep_better)
                  (
                    (x, ground arith, scored),
                    λ q t h k. elim (Bool-cases (x == q)) [
                      | inl same ↦ better_irrefl t s (same_score x q s t same scored k)
                      | inr other ↦ better-kept t s b above (top q t (ground arith) k)
                    ],
                  )
            | inr stays ↦
                rw (scored, stays, keep_better)
                  (
                    (p, ground arith, scored_p),
                    λ q t h k. elim (Bool-cases (x == q)) [
                      | inl same ↦
                          ap (λ a. better fl a b) (same_score x q s t same scored k) ∙ stays
                      | inr other ↦ top q t (ground arith) k
                    ],
                  )
          ]
        ]

    IsPick-visit_all :
        (xs : List ℕ) (seen : ℕ → Bool) (best : Option (CandidateScore F))
        → IsPick score seen best
        → IsPick score (λ q. is_in q xs || seen q) (visit_all (keep_better fl score) xs best)
    unfolding visit_all
    IsPick-visit_all [] seen best w = w
    IsPick-visit_all (x ∷ xs) seen best w =
        subst
          (λ s. IsPick score s (visit_all (keep_better fl score) xs (keep_better fl score best x)))
          (fun_ext (λ q. ground arith))
          (IsPick-visit_all xs (with_also x seen) (keep_better fl score best x)
            (IsPick-keep_better seen best x w))

-- The final score of `t` is not above that of `s`, and if it is not below either, the pod id of `t`
-- is not smaller.
pub record IsNoBetter {F : Type 0} (fl : Floats F) (t s : CandidateScore F) : Type 0 where
  pub not_above : fl.less s.final_score t.final_score ≡ false
  pub tie : (fl.less t.final_score s.final_score || leb s.pod_id t.pod_id) ≡ true

better-IsNoBetter :
    {F : Type 0} (fl : Floats F) (t s : CandidateScore F)
    → better fl t s ≡ false
    → IsNoBetter fl t s
unfolding better
better-IsNoBetter fl t s h = record { not_above = ground arith; tie = ground arith }

is_in-members :
    (b : HostBitmap) (q : ℕ)
    → (is_in q (range_where (Bitmap.contains b) 256 0) || false) ≡ Bitmap.contains b q
is_in-members b q =
    ground (arith, is_in-range_where (Bitmap.contains b) 256 0 q, contains-test_bit b q)

-- For candidates in u64 words and floating-point numbers whose `total_cmp` is an order: the stage
-- reports that there is no candidate exactly if no candidate can be scored, and else picks one with
-- its score, such that `total_cmp` puts no candidate's final score above the picked one's, and no
-- candidate with an equal score has a smaller pod id.
pub best_candidate-IsPick :
    {F : Type 0} (fl : Floats F) (stage : ScoreStage F) (ctx : RoutingContext) (role : RequiredRole)
    (candidates : HostBitmap) (cache_depths : List ℕ) (upstreams : UpstreamCatalog)
    (loads : LoadState) (sticky : StickyStore) (selected_prefill : Option ℕ)
    → IsOrder fl
    → IsWords candidates
    → let score =
        score_candidate fl ctx
          (weights_for fl stage role)
          (length ctx.cumulative_hashes)
          cache_depths
          upstreams
          loads
          sticky
          selected_prefill in
      let picked =
        best_candidate fl stage ctx role candidates cache_depths upstreams loads sticky
          selected_prefill in
      ((picked ≡ err no_candidates)
        × ((x : ℕ) → Bitmap.contains candidates x ≡ true → score x ≡ none))
      ⊎ ((s : CandidateScore F) × (picked ≡ ok s)
          × ((p : ℕ) × (Bitmap.contains candidates p ≡ true) × (score p ≡ some s))
          × ((x : ℕ) (t : CandidateScore F)
              → Bitmap.contains candidates x ≡ true
              → score x ≡ some t
              → IsNoBetter fl t s))
unfolding best_candidate
best_candidate-IsPick {F} fl stage ctx role candidates cache_depths upstreams loads sticky
      selected_prefill order words =
    let visit = keep_better fl score in
    let visited = for_each_set_bit-range visit candidates none words in
    answered (Bitmap.for_each_set_bit visit candidates none) (
      subst (IsPick fl order score (Bitmap.contains candidates)) (sym visited) (
        subst
          (λ seen.
            IsPick fl order score seen
              (visit_all visit (range_where (Bitmap.contains candidates) 256 0) none))
          (fun_ext (is_in-members candidates))
          (IsPick-visit_all fl order score (range_where (Bitmap.contains candidates) 256 0)
            (λ q. false) none (λ x h. absurd (ground arith)))))
  where
    score : ℕ → Option (CandidateScore F)
    score =
        score_candidate fl ctx (weights_for fl stage role) (length ctx.cumulative_hashes)
          cache_depths upstreams loads sticky selected_prefill

    answered :
        (best : Option (CandidateScore F))
        → IsPick fl order score (Bitmap.contains candidates) best
        → ((elim best [ none ↦ err no_candidates | some s ↦ ok s ] ≡ err no_candidates)
            × ((x : ℕ) → Bitmap.contains candidates x ≡ true → score x ≡ none))
          ⊎ ((s : CandidateScore F) × (elim best [ none ↦ err no_candidates | some s ↦ ok s ]
                ≡ ok s)
              × ((p : ℕ) × (Bitmap.contains candidates p ≡ true) × (score p ≡ some s))
              × ((x : ℕ) (t : CandidateScore F)
                  → Bitmap.contains candidates x ≡ true
                  → score x ≡ some t
                  → IsNoBetter fl t s))
    answered none w = inl (refl, w)
    answered (some s) (found, top) =
        inr (s, refl, found, λ x t member scored. better-IsNoBetter fl t s (top x t member scored))
