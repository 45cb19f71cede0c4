-- ===== src/Upstream/Load/Guards.antt =====
-- The counters and the guards that are held: every sequence of tracked requests and dropped guards.
use mathlib.Core.Option
use calinix.Upstream.Load.{LoadState, load_state, inflight, track, decrement}
use calinix.Prelude.{
  ℕ, ◌+◌, ◌-◌, ◌%◌, ◌^◌, ◌≤◌, ◌<◌, ◌≡◌, refl, sym, ap, ◌∙◌, inl, inr, Option, none, some, List, [],
  ◌∷◌, ◌++◌, arith, ◌==◌, if◌then◌else◌, length, get_or, set as set_elem, get_or-replicate,
  get_or-set, get_elem?-get_or, get_elem?-beyond, get_elem?-cases, get_or-beyond,
}

unfoldable pub held_for : ℕ → List ℕ → ℕ
held_for p [] = 0
held_for p (g ∷ held) = let rest = held_for p held in if g == p then rest + 1 else rest

-- `Runs n s held`: from `n` counters at 0, tracked requests and dropped guards lead to the state
-- `s` while the guards `held` are alive; never more than a u64 counts.
pub data Runs (n : ℕ) : LoadState → List ℕ → Type 0 where
  start : Runs n (load_state n) []
  tracked :
      (s s' : LoadState) (p g : ℕ) (held : List ℕ)
      → length held < 2 ^ 64 - 1
      → track s p ≡ some (s', g)
      → Runs n s held
      → Runs n s' (g ∷ held)
  dropped :
      (s : LoadState) (g : ℕ) (before after : List ℕ)
      → Runs n s (before ++ g ∷ after)
      → Runs n (decrement s g) (before ++ after)

pub held_for-bound : (p : ℕ) (held : List ℕ) → held_for p held ≤ length held
unfolding held_for
held_for-bound p [] = omega arith
held_for-bound p (g ∷ held) = ground (arith, held_for-bound p held)

held_for-dropped :
    (p g : ℕ) (before after : List ℕ)
    → held_for p (before ++ g ∷ after)
      ≡ (if g == p then held_for p (before ++ after) + 1 else held_for p (before ++ after))
unfolding held_for
held_for-dropped p g [] after = refl
held_for-dropped p g (b ∷ before) after = ground (arith, held_for-dropped p g before after)

abbrev pub one_more : LoadState → ℕ → LoadState
one_more s p = record { counters = set_elem s.counters p ((inflight s p + 1) % 2 ^ 64) }

pub track-none : (s : LoadState) (p : ℕ) → length s.counters ≤ p → track s p ≡ none
unfolding track
track-none s p h = rw (get_elem?-beyond s.counters p h, track)

pub track-some :
    (s : LoadState) (p : ℕ) → p < length s.counters → track s p ≡ some (one_more s p, p)
unfolding track inflight
track-some s p h = rw (get_elem?-get_or s.counters p 0 h, track)

-- A tracked request is for a pod that has a counter.
pub tracked-some :
    (s s' : LoadState) (p g : ℕ)
    → track s p ≡ some (s', g)
    → (p < length s.counters) × (s' ≡ one_more s p) × (g ≡ p)
tracked-some s s' p g h = elim (get_elem?-cases s.counters p 0) [
  | inr (beyond, missing) ↦ absurd (ground (arith, track-none s p beyond))
  | inl (below, found) ↦
      let same = sym h ∙ track-some s p below in
      (
        below,
        ap (λ (o : Option (LoadState × ℕ)). (Option.get_or o (s, 0)).0) same,
        ap (λ (o : Option (LoadState × ℕ)). (Option.get_or o (s, 0)).1) same,
      )
]

pub inflight-one_more :
    (s : LoadState) (p q : ℕ)
    → p < length s.counters
    → inflight (one_more s p) q ≡ (if p == q then (inflight s p + 1) % 2 ^ 64 else inflight s q)
unfolding inflight
inflight-one_more s p q h = get_or-set s.counters p q _ 0 h

pub inflight-decrement :
    (s : LoadState) (p q : ℕ)
    → inflight (decrement s p) q ≡ (if p == q then inflight s q - 1 else inflight s q)
unfolding inflight decrement
inflight-decrement s p q = elim (get_elem?-cases s.counters p 0) [
  | inr (beyond, missing) ↦ rw (missing, decrement) (outside p q beyond)
  | inl (below, found) ↦
      rw (found, decrement)
        (ground (arith, get_or-set s.counters p q (get_or s.counters p 0 - 1) 0 below))
]
  where
    outside :
        (p q : ℕ)
        → length s.counters ≤ p
        → get_or s.counters q 0
          ≡ (if p == q then get_or s.counters q 0 - 1 else get_or s.counters q 0)
    outside p q h = elim (get_elem?-cases s.counters q 0) [
      | inl (below, found) ↦ ground arith
      | inr (beyond, missing) ↦ rw (get_or-beyond s.counters q 0 beyond) (ground arith)
    ]

pub inflight-load_state : (n p : ℕ) → inflight (load_state n) p ≡ 0
unfolding inflight load_state
inflight-load_state n p = get_or-replicate n p 0

-- However requests are tracked and guards dropped, the counter of each pod is the number of
-- guards that are held for it, as long as fewer than 2 ^ 64 - 1 guards are held when one is taken.
pub inflight-held_for :
    (n : ℕ) (s : LoadState) (held : List ℕ)
    → Runs n s held
    → (p : ℕ) → inflight s p ≡ held_for p held
unfolding held_for
inflight-held_for n s held (start) p = inflight-load_state n p
inflight-held_for n s₂ held (tracked s s' p' g rest room h run) p =
    let (below, same, own) = tracked-some s s' p' g h in
    let before = inflight-held_for n s rest run p in
    let before' = inflight-held_for n s rest run p' in
    rw (same, own)
      (ground
        (arith, inflight-one_more s p' p below, held_for-bound p rest, held_for-bound p' rest))
inflight-held_for n s₂ held (dropped s g before after run) p =
    let held_before = inflight-held_for n s (before ++ g ∷ after) run p in
    ground (arith, inflight-decrement s g p, held_for-dropped p g before after)
