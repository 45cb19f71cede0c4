-- ===== src/Query/Bisect.antt =====
-- The binary search of one pod, as a function of the depths at which the pod holds the request's
-- hash: what every pod's share of the joint search comes to.
use calinix.Query.{probe_between}
use calinix.Prelude.{
  ℕ, zero, suc, ◌+◌, ◌-◌, ◌≤◌, ◌<◌, ◌≡◌, refl, inl, inr, Bool, true, false, arith, ◌==◌,
  if◌then◌else◌, Bool-cases,
}

-- `has d` is true if the pod holds the hash at depth `d`, for `d` from 1. At most `fuel` rounds.
unfoldable pub bisect_in : (ℕ → Bool) → ℕ → ℕ → ℕ → ℕ
bisect_in has zero lo hi = lo
bisect_in has (suc fuel) lo hi =
    let probe = probe_between lo hi in
    let above = bisect_in has fuel probe hi in
    let below = bisect_in has fuel lo (probe - 1) in
    if lo == hi then lo else if has probe then above else below

pub bisect : (ℕ → Bool) → ℕ → ℕ → ℕ
bisect has lo hi = bisect_in has (hi - lo) lo hi

bisect_in_fuel :
    (has : ℕ → Bool) (f g lo hi : ℕ)
    → lo ≤ hi
    → hi - lo ≤ f
    → hi - lo ≤ g
    → bisect_in has f lo hi ≡ bisect_in has g lo hi
unfolding bisect_in
bisect_in_fuel has zero zero lo hi h p q = refl
bisect_in_fuel has zero (suc g) lo hi h p q = ground arith
bisect_in_fuel has (suc f) zero lo hi h p q = ground arith
bisect_in_fuel has (suc f) (suc g) lo hi h p q = ground (
  arith,
  bisect_in_fuel has f g (probe_between lo hi) hi,
  bisect_in_fuel has f g lo (probe_between lo hi - 1),
)

pub bisect_end : (has : ℕ → Bool) (lo : ℕ) → bisect has lo lo ≡ lo
unfolding bisect bisect_in
bisect_end has lo = rw (none_left lo)
  where
    none_left : (n : ℕ) → n - n ≡ 0
    none_left n = omega arith

-- One probe.
pub bisect_step :
    (has : ℕ → Bool) (lo hi : ℕ)
    → lo < hi
    → bisect has lo hi ≡ (
        if has (probe_between lo hi)
        then bisect has (probe_between lo hi) hi
        else bisect has lo (probe_between lo hi - 1))
unfolding bisect bisect_in
bisect_step has lo hi h = rw rounds (
    ground (
      arith,
      bisect_in_fuel has (hi - lo - 1) (hi - probe_between lo hi) (probe_between lo hi) hi,
      bisect_in_fuel has (hi - lo - 1) (probe_between lo hi - 1 - lo) lo (probe_between lo hi - 1),
    ))
  where
    rounds : hi - lo ≡ suc (hi - lo - 1)
    rounds = omega arith

-- The answer is in the range; the pod holds the hash there, unless it is the lower end, and not
-- the next one, unless it is the upper end.
pub record IsBoundary (has : ℕ → Bool) (lo hi d : ℕ) : Type 0 where
  pub at_least : lo ≤ d
  pub at_most : d ≤ hi
  pub held : lo < d → has d ≡ true
  pub next_missing : d < hi → has (d + 1) ≡ false

bisect_in-IsBoundary :
    (has : ℕ → Bool) (f lo hi : ℕ)
    → lo ≤ hi
    → hi - lo ≤ f
    → IsBoundary has lo hi (bisect_in has f lo hi)
unfolding bisect_in
bisect_in-IsBoundary has zero lo hi h p = ground arith
bisect_in-IsBoundary has (suc f) lo hi h p = elim (Bool-cases (lo == hi)) [
  | inl done ↦ rw done (ground arith)
  | inr wide ↦
      let probe = probe_between lo hi in
      elim (Bool-cases (has probe)) [
        | inl yes_probe ↦
            let r = bisect_in-IsBoundary has f probe hi (ground arith) (ground arith) in
            rw (wide, yes_probe) (ground (arith, r.held, r.next_missing, r.at_least, r.at_most))
        | inr no_probe ↦
            let r = bisect_in-IsBoundary has f lo (probe - 1) (ground arith) (ground arith) in
            rw (wide, no_probe) (ground (arith, r.held, r.next_missing, r.at_least, r.at_most))
      ]
]

-- The search ends at such a boundary, whatever depths the pod holds.
pub bisect-IsBoundary :
    (has : ℕ → Bool) (lo hi : ℕ) → lo ≤ hi → IsBoundary has lo hi (bisect has lo hi)
unfolding bisect
bisect-IsBoundary has lo hi h = bisect_in-IsBoundary has (hi - lo) lo hi h (omega arith)

-- The number of depths from 1 on that are held without a gap, among the first `n`.
unfoldable pub held_run : (ℕ → Bool) → ℕ → ℕ → ℕ
held_run has zero d = 0
held_run has (suc n) d = if has (d + 1) then suc (held_run has n (d + 1)) else 0

-- Depths are held from the first on, without a gap: what holds of a pod that caches prefixes.
abbrev pub IsClosed : (ℕ → Bool) → ℕ → Type 0
IsClosed has n = (d : ℕ) → 0 < d → d < n → has (d + 1) ≡ true → has d ≡ true

held_below :
    (has : ℕ → Bool) (n k j : ℕ)
    → IsClosed has n
    → k ≤ n
    → has k ≡ true
    → 0 < j
    → j ≤ k
    → has j ≡ true
held_below has n zero j closed h e pos le = absurd (omega arith)
held_below has n (suc k) j closed h e pos le = elim (Bool-cases (j == suc k)) [
  | inl same ↦ ground arith
  | inr lower ↦
      held_below has n k j closed (omega arith)
        (closed k (ground arith) (omega arith) (ground arith)) pos (ground arith)
]

held_run_boundary :
    (has : ℕ → Bool) (n d b : ℕ)
    → d ≤ b
    → b ≤ d + n
    → ((j : ℕ) → d < j → j ≤ b → has j ≡ true)
    → (b < d + n → has (b + 1) ≡ false)
    → d + held_run has n d ≡ b
unfolding held_run
held_run_boundary has zero d b h k all stop = omega arith
held_run_boundary has (suc n) d b h k all stop = elim (Bool-cases (d == b)) [
  | inl here ↦ ground arith
  | inr further ↦ ground (
    arith,
    all (d + 1),
    held_run_boundary has n (d + 1) b (ground arith) (omega arith) (λ j p q. all j (omega arith) q)
        (λ p. stop (omega arith)),
  )
]

-- Where there are no gaps, the binary search gives the length of the run that is held.
pub bisect-held_run : (has : ℕ → Bool) (n : ℕ) → IsClosed has n → bisect has 0 n ≡ held_run has n 0
bisect-held_run has n closed =
    let b = bisect-IsBoundary has 0 n (omega arith) in
    let d = bisect has 0 n in
    let all = λ (j : ℕ) (p : 0 < j) (q : j ≤ d).
      held_below has n d j closed b.at_most (b.held (omega arith)) p q in
    omega (
      arith,
      held_run_boundary has n 0 d (omega arith) (omega arith) all
          (λ p. b.next_missing (omega arith)),
    )
