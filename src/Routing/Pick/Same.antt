-- ===== src/Routing/Pick/Same.antt =====
-- The pick among the scores of all candidates is the best candidate.
use calinix.Bitmap
use calinix.Bitmap.{HostBitmap}
use calinix.Bitmap.Members.{IsWords}
use calinix.Bitmap.Scan.{range_where, visit_all, iter_set_bits-range, for_each_set_bit-range}
use calinix.Prelude.Results.{err, ok}
use calinix.Prelude.Results.{err, ok}
use calinix.Routing.{RequiredRole}
use calinix.Routing.Pick.{max_from, pick_best}
use calinix.Routing.Pipeline.Planned.{IsFor, score_candidate-IsFor}
use calinix.Routing.Score.{
  Floats, IsOrder, CandidateScore, ScoreStage, RoutingContext, no_candidates, weights_for, better,
  score_candidate, keep_better, best_candidate,
}
use calinix.Routing.Score.Picked.{better-asym}
use calinix.Session.{StickyStore}
use calinix.Upstream.{UpstreamCatalog}
use calinix.Upstream.Load.{LoadState}
use calinix.Prelude.{
  ℕ, zero, suc, ◌+◌, ◌<◌, ◌≡◌, refl, sym, ap, ◌∙◌, subst, inl, inr, Bool, Option, none, some, List,
  [], ◌∷◌, arith, if◌then◌else◌, Bool-cases, Option-cases, length,
}

-- The scores of the numbers that have one, in their order.
abbrev pub scored :
    {F : Type 0} → (ℕ → Option (CandidateScore F)) → List ℕ → List (CandidateScore F)
scored score [] = []
scored score (x ∷ xs) = elim (score x) [ none ↦ scored score xs | some s ↦ s ∷ scored score xs ]

module _ {F : Type 0} (fl : Floats F) (v : IsOrder fl) where
  -- `best_candidate` asks whether the new score is better, `max_by` whether the old one is.
  keep-max :
      (b s : CandidateScore F)
      → b.pod_id < s.pod_id
      → (if better fl s b then s else b) ≡ (if better fl b s then b else s)
  unfolding better
  keep-max b s h = ground (arith, better-asym fl v b s)

  -- The better of the best so far and the next score, if there is one.
  abbrev over : CandidateScore F → Option (CandidateScore F) → CandidateScore F
  over b none = b
  over b (some s) = if better fl b s then b else s

  kept-over :
      (b : CandidateScore F) (o : Option (CandidateScore F))
      → ((s : CandidateScore F) → o ≡ some s → b.pod_id < s.pod_id)
      → elim o [ none ↦ some b | some s ↦ if better fl s b then some s else some b ]
        ≡ some (over b o)
  kept-over b none h = refl
  kept-over b (some s) h = rw (← keep-max b s (h s refl)) (ground arith)

  over-pod_id :
      (b : CandidateScore F) (o : Option (CandidateScore F)) (x : ℕ)
      → ((s : CandidateScore F) → o ≡ some s → s.pod_id ≡ x)
      → b.pod_id < x
      → (over b o).pod_id < x + 1
  over-pod_id b none x named h = omega arith
  over-pod_id b (some s) x named h = elim (Bool-cases (better fl b s)) [
    | inl stays ↦ rw stays (omega arith)
    | inr beaten ↦ rw beaten (omega (arith, named s refl))
  ]

  max_from-over :
      (b : CandidateScore F) (o : Option (CandidateScore F)) (scores : List (CandidateScore F))
      → max_from fl b (elim o [ none ↦ scores | some s ↦ s ∷ scores ])
        ≡ max_from fl (over b o) scores
  unfolding max_from
  max_from-over b none scores = refl
  max_from-over b (some s) scores = refl

  module _ (score : ℕ → Option (CandidateScore F))
      (names : (x : ℕ) (s : CandidateScore F) → score x ≡ some s → s.pod_id ≡ x) where
    visit_all-max_from :
        (p : ℕ → Bool) (n base : ℕ) (b : CandidateScore F)
        → b.pod_id < base
        → visit_all (keep_better fl score) (range_where p n base) (some b)
          ≡ some (max_from fl b (scored score (range_where p n base)))
    unfolding visit_all range_where keep_better
    visit_all-max_from p zero base b h = unfold max_from in refl
    visit_all-max_from p (suc n) base b h = elim (Bool-cases (p base)) [
      | inr out ↦ rw out (visit_all-max_from p n (base + 1) b (omega arith))
      | inl member ↦ rw (member) (
          ap (visit_all (keep_better fl score) (range_where p n (base + 1)))
            (kept-over b (score base) (λ s found. omega (arith, names base s found)))
          ∙ visit_all-max_from p n (base + 1) (over b (score base))
              (over-pod_id b (score base) base (names base) h)
          ∙ ap some (sym (max_from-over b (score base) _)))
    ]

    visit_all-pick_best :
        (p : ℕ → Bool) (n base : ℕ)
        → elim (visit_all (keep_better fl score) (range_where p n base) none) [
          | none ↦ err no_candidates
          | some best ↦ ok best
        ]
          ≡ pick_best fl (scored score (range_where p n base))
    unfolding visit_all range_where keep_better pick_best
    visit_all-pick_best p zero base = refl
    visit_all-pick_best p (suc n) base = elim (Bool-cases (p base)) [
      | inr out ↦ rw out (visit_all-pick_best p n (base + 1))
      | inl member ↦ elim (Option-cases (score base)) [
        | inl unscored ↦ rw (member, keep_better, unscored) (visit_all-pick_best p n (base + 1))
        | inr (s, found) ↦
            let named = names base s found in
            rw (member, keep_better, found)
              (ap
                (λ (o : Option (CandidateScore F)). elim o [
                  | none ↦ err no_candidates
                  | some best ↦ ok best
                ])
                (visit_all-max_from p n (base + 1) s (omega (arith, named))))
      ]
    ]

-- For candidates in u64 words and floating-point numbers whose `total_cmp` is an order: the pick
-- among the scores of the candidates, listed in ascending order without those that have none, is
-- the best candidate, and an error if that is one.
pub pick_best-best_candidate :
    {F : Type 0} (fl : Floats F) (stage : ScoreStage F) (ctx : RoutingContext) (role : RequiredRole)
    (candidates : HostBitmap) (cache_depths : List ℕ) (upstreams : UpstreamCatalog)
    (loads : LoadState) (sticky : StickyStore) (selected_prefill : Option ℕ)
    → IsOrder fl
    → IsWords candidates
    → pick_best fl (
        scored
          (score_candidate fl ctx
            (weights_for fl stage role)
            (length ctx.cumulative_hashes)
            cache_depths
            upstreams
            loads
            sticky
            selected_prefill)
          (Bitmap.iter_set_bits candidates))
      ≡ best_candidate fl stage ctx role candidates cache_depths upstreams loads sticky
          selected_prefill
unfolding best_candidate
pick_best-best_candidate {F} fl stage ctx role candidates cache_depths upstreams loads sticky
      selected_prefill order words =
    let weights = weights_for fl stage role in
    let n = length ctx.cumulative_hashes in
    let score =
      score_candidate fl ctx weights n cache_depths upstreams loads sticky selected_prefill in
    let names : (x : ℕ) (s : CandidateScore F) → score x ≡ some s → s.pod_id ≡ x = λ x s h.
      (subst (IsFor fl cache_depths x) h (
        score_candidate-IsFor fl ctx weights n cache_depths upstreams loads sticky selected_prefill
          x)).0 in
    ap (λ xs. pick_best fl (scored score xs)) (iter_set_bits-range candidates words)
    ∙ sym (visit_all-pick_best fl order score names (Bitmap.contains candidates) 256 0)
    ∙ ap (λ (o : Option (CandidateScore F)). elim o [ none ↦ err no_candidates | some s ↦ ok s ])
        (sym (for_each_set_bit-range (keep_better fl score) candidates none words))
