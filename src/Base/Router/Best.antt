-- ===== src/Base/Router/Best.antt =====
-- The greatest element of a list of scores, and the scores of the set bits.
use calinix.Base.Router.{
  ScoredCandidate, BasePodRole, Mode, Pod, scored_at, score_bits, max_from, max_by_key,
  score_at_most, decode_at_most,
}
use calinix.Bitmap.Scan.{range_where}
use calinix.Routing.Eligible.{is_in}
use calinix.Prelude.{
  ℕ, zero, suc, ◌+◌, ◌≤◌, max, ◌≡◌, refl, ap, ◌∙◌, ◌⊎◌, inl, inr, Bool, true, ◌||◌, none, some,
  List, [], ◌∷◌, map, arith, ◌==◌, if◌then◌else◌, Bool-cases, length, get_or, get_elem?-get_or,
}

module _ (at_most : ScoredCandidate → ScoredCandidate → Bool)
    (total : (a b : ScoredCandidate) → (at_most a b || at_most b a) ≡ true)
    (trans : (a b c : ScoredCandidate)
      → at_most a b ≡ true
      → at_most b c ≡ true
      → at_most a c ≡ true)
    (f : ℕ → ScoredCandidate) where
  -- One of the numbers has the greatest score, and `max_from` gives it.
  max_from-map :
      (b : ℕ) (xs : List ℕ)
      → (r : ℕ) × (max_from at_most (f b) (map f xs) ≡ f r)
        × (((b == r) || is_in r xs) ≡ true)
        × ((q : ℕ) → ((b == q) || is_in q xs) ≡ true → at_most (f q) (f r) ≡ true)
  unfolding max_from
  max_from-map b [] =
      (b, refl, ground arith, λ q h. ground (arith, total (f b) (f b), ap {A = ℕ} f))
  max_from-map b (x ∷ xs) = elim (Bool-cases (at_most (f b) (f x))) [
    | inl up ↦
        let (r, max, member, top) = max_from-map x xs in
        (
          r,
          ap (λ t. max_from at_most (if t then f x else f b) (map f xs)) up ∙ max,
          ground arith,
          λ q h. elim (Bool-cases (b == q)) [
            | inl same ↦
                trans (f q) (f x) (f r) (ground (arith, ap {A = ℕ} f)) (top x (ground arith))
            | inr other ↦ top q (ground arith)
          ],
        )
    | inr down ↦
        let (r, max, member, top) = max_from-map b xs in
        (
          r,
          ap (λ t. max_from at_most (if t then f x else f b) (map f xs)) down ∙ max,
          ground arith,
          λ q h. elim (Bool-cases (x == q)) [
            | inl same ↦
                trans (f q) (f b) (f r) (ground (arith, total (f b) (f x), ap {A = ℕ} f))
                  (top b (ground arith))
            | inr other ↦ top q (ground arith)
          ],
        )
  ]

  -- The pick among the scores of a list of numbers: none of an empty list.
  pub max_by_key-map :
      (xs : List ℕ)
      → ((xs ≡ []) × (max_by_key at_most (map f xs) ≡ none))
        ⊎ ((r : ℕ) × (max_by_key at_most (map f xs) ≡ some (record { pod_id = (f r).pod_id }))
            × (is_in r xs ≡ true)
            × ((q : ℕ) → is_in q xs ≡ true → at_most (f q) (f r) ≡ true))
  unfolding max_by_key
  max_by_key-map [] = inl (refl, refl)
  max_by_key-map (x ∷ xs) =
      let (r, max, member, top) = max_from-map x xs in
      inr (r, ap (λ (s : ScoredCandidate). some (record { pod_id = s.pod_id })) max, member, top)

pub score_at_most_total : (a b : ScoredCandidate) → (score_at_most a b || score_at_most b a) ≡ true
unfolding score_at_most
score_at_most_total a b = ground arith

pub score_at_most_trans :
    (a b c : ScoredCandidate)
    → score_at_most a b ≡ true
    → score_at_most b c ≡ true
    → score_at_most a c ≡ true
unfolding score_at_most
score_at_most_trans a b c h k = ground arith

pub decode_at_most_total :
    (near : ScoredCandidate → Bool) (a b : ScoredCandidate)
    → (decode_at_most near a b || decode_at_most near b a) ≡ true
unfolding decode_at_most
decode_at_most_total near a b = ground (arith, score_at_most_total a b)

pub decode_at_most_trans :
    (near : ScoredCandidate → Bool) (a b c : ScoredCandidate)
    → decode_at_most near a b ≡ true
    → decode_at_most near b c ≡ true
    → decode_at_most near a c ≡ true
unfolding decode_at_most
decode_at_most_trans near a b c h k = ground (arith, score_at_most_trans a b c)

-- With a depth for each bit, every bit of the range has its score.
pub score_bits-range :
    (pods : List Pod) (role : BasePodRole) (mode : Mode) (lengths : List ℕ) (p : ℕ → Bool)
    (n base : ℕ)
    → base + n ≤ length lengths
    → score_bits pods role mode lengths (range_where p n base)
      ≡ some (map (λ q. scored_at pods role mode q (get_or lengths q 0)) (range_where p n base))
unfolding score_bits range_where
score_bits-range pods role mode lengths p zero base h = refl
score_bits-range pods role mode lengths p (suc n) base h = elim (Bool-cases (p base)) [
  | inr miss ↦ rw miss (score_bits-range pods role mode lengths p n (base + 1) (omega arith))
  | inl hit ↦
      rw
        (
          hit,
          get_elem?-get_or lengths base 0 (omega arith),
          score_bits-range pods role mode lengths p n (base + 1) (omega arith),
        )
        refl
]
