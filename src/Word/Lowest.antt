-- ===== src/Word/Lowest.antt =====
-- The lowest set bit: where it is, and the word without it.
use Prim.Native.Nat.{bit_and}
use native.Mathlib.Nat.{pow-suc, one-le-pow}
use calinix.Word.{trailing_zeros_in}
use calinix.Word.Digits.{bit_and_step}
use calinix.Word.Bits.{bit_and_self}
use calinix.Prelude.{ℕ, zero, suc, ◌+◌, ◌-◌, ◌*◌, ◌/◌, ◌^◌, ◌≤◌, ◌<◌, ◌≡◌, arith, ap}

-- `m` shifted by one more place.
pub mul-two_pow-suc : (m j : ℕ) → m * 2 ^ suc j ≡ 2 * (m * 2 ^ j)
mul-two_pow-suc m j = omega (arith, ap (λ (t : ℕ). m * t) (pow-suc 2 j))

pub trailing_zeros_in_odd : (n m j : ℕ) → j < n → trailing_zeros_in n ((2 * m + 1) * 2 ^ j) ≡ j
unfolding trailing_zeros_in
trailing_zeros_in_odd zero m j h = absurd (omega arith)
trailing_zeros_in_odd (suc n) m zero h = ground arith
trailing_zeros_in_odd (suc n) m (suc j) h =
    ground (arith, mul-two_pow-suc (2 * m + 1) j, trailing_zeros_in_odd n m j (omega arith))

bit_and_double : (a : ℕ) → 1 ≤ a → bit_and (2 * a) (2 * a - 1) ≡ 2 * bit_and a (a - 1)
bit_and_double a h = ground (arith, bit_and_step (2 * a) (2 * a - 1), halves)
  where
    halves : bit_and (2 * a / 2) ((2 * a - 1) / 2) ≡ bit_and a (a - 1)
    halves =
        let left : 2 * a / 2 ≡ a = omega arith in
        let right : (2 * a - 1) / 2 ≡ a - 1 = omega arith in rw (left, right)

pub odd_pos : (m j : ℕ) → 1 ≤ (2 * m + 1) * 2 ^ j
odd_pos m j = grind (arith, one-le-pow j 2)

-- `r & (r - 1)` drops the lowest set bit.
pub bit_and-pred :
    (m j : ℕ) → bit_and ((2 * m + 1) * 2 ^ j) ((2 * m + 1) * 2 ^ j - 1) ≡ m * 2 ^ suc j
bit_and-pred m zero = ground (arith, bit_and_step (2 * m + 1) (2 * m), bit_and_self m)
bit_and-pred m (suc j) = rw (
  mul-two_pow-suc (2 * m + 1) j,
  bit_and_double _ (odd_pos m j),
  bit_and-pred m j,
  mul-two_pow-suc m (suc j),
)
