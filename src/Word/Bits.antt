-- ===== src/Word/Bits.antt =====
-- The binary digits of a word, and what the bit operations do to each.
use Prim.Native.Nat.{bit_and, bit_or, bit_and-bitwise}
use native.Mathlib.Nat.{pow-suc, one-le-pow}
use calinix.Word.{bit_not}
use calinix.Word.Digits.{bit_and_step, bit_or_step}
use calinix.Prelude.{
  ℕ, zero, suc, ◌-◌, ◌/◌, ◌%◌, ◌^◌, ◌≤◌, ◌<◌, ◌==◌, ◌≡◌, refl, arith, Bool, false, not, ◌&&◌, ◌||◌,
  if◌then◌else◌, ◌∙◌, ltb, ltb→lt, Bool-cases, inl, inr,
}

-- Bit `k` of `w`.
unfoldable pub test_bit : ℕ → ℕ → Bool
test_bit w zero = w % 2 == 1
test_bit w (suc k) = test_bit (w / 2) k

pub test_bit-and : (a b k : ℕ) → test_bit (bit_and a b) k ≡ (test_bit a k && test_bit b k)
unfolding test_bit
test_bit-and a b zero = ground (arith, bit_and_step a b)
test_bit-and a b (suc k) = rw (half a b) (test_bit-and (a / 2) (b / 2) k)
  where
    half : (a b : ℕ) → bit_and a b / 2 ≡ bit_and (a / 2) (b / 2)
    half a b = omega (arith, bit_and_step a b)

pub test_bit-or : (a b k : ℕ) → test_bit (bit_or a b) k ≡ (test_bit a k || test_bit b k)
unfolding test_bit
test_bit-or a b zero = ground (arith, bit_or_step a b)
test_bit-or a b (suc k) = rw (half a b) (test_bit-or (a / 2) (b / 2) k)
  where
    half : (a b : ℕ) → bit_or a b / 2 ≡ bit_or (a / 2) (b / 2)
    half a b = omega (arith, bit_or_step a b)

pub test_bit-zero : (k : ℕ) → test_bit 0 k ≡ false
unfolding test_bit
test_bit-zero zero = refl
test_bit-zero (suc k) = test_bit-zero k

pub test_bit-two_pow : (j k : ℕ) → test_bit (2 ^ j) k ≡ (j == k)
unfolding test_bit
test_bit-two_pow zero zero = refl
test_bit-two_pow zero (suc k) = rw (test_bit-zero k) (ground arith)
test_bit-two_pow (suc j) zero = ground (arith, pow-suc 2 j)
test_bit-two_pow (suc j) (suc k) = rw (half j) (test_bit-two_pow j k ∙ ground arith)
  where
    half : (j : ℕ) → (2 ^ suc j) / 2 ≡ 2 ^ j
    half j = omega (arith, pow-suc 2 j)

-- Complement in `n` digits.
test_bit-complement :
    (n w k : ℕ) → w < 2 ^ n → k < n → test_bit (2 ^ n - 1 - w) k ≡ not (test_bit w k)
unfolding test_bit
test_bit-complement zero w k h p = absurd (omega arith)
test_bit-complement (suc n) w zero h p = ground (arith, pow-suc 2 n)
test_bit-complement (suc n) w (suc k) h p =
    rw (half n w h) (test_bit-complement n (w / 2) k (omega (arith, pow-suc 2 n)) (omega arith))
  where
    half : (n w : ℕ) → w < 2 ^ suc n → (2 ^ suc n - 1 - w) / 2 ≡ 2 ^ n - 1 - w / 2
    half n w h = omega (arith, pow-suc 2 n)

pub test_bit-not : (w k : ℕ) → w < 2 ^ 64 → k < 64 → test_bit (bit_not w) k ≡ not (test_bit w k)
unfolding bit_not
test_bit-not w k h p = test_bit-complement 64 w k h p

-- Both by halving, at most `k` times for a number up to `k`.
masked_by_zero : (k w : ℕ) → w ≤ k → bit_and w 0 ≡ 0
masked_by_zero k zero h = omega (arith, bit_and_step 0 0)
masked_by_zero zero (suc w) h = absurd (omega arith)
masked_by_zero (suc k) (suc w) h =
    omega (arith, bit_and_step (suc w) 0, masked_by_zero k (suc w / 2) (omega arith))

masked_by_itself : (k w : ℕ) → w ≤ k → bit_and w w ≡ w
masked_by_itself k zero h = masked_by_zero 0 0 (omega arith)
masked_by_itself zero (suc w) h = absurd (omega arith)
masked_by_itself (suc k) (suc w) h =
    omega (arith, bit_and_step (suc w) (suc w), masked_by_itself k (suc w / 2) (omega arith))

pub bit_and-zero : (w : ℕ) → bit_and w 0 ≡ 0
bit_and-zero w = masked_by_zero w w (omega arith)

pub bit_and_self : (w : ℕ) → bit_and w w ≡ w
bit_and_self w = masked_by_itself w w (omega arith)

-- A mask of one bit reads that bit.
pub bit_and-two_pow : (w k : ℕ) → bit_and w (2 ^ k) ≡ (if test_bit w k then 2 ^ k else 0)
unfolding test_bit
bit_and-two_pow w zero = ground (arith, bit_and_step w 1, bit_and-zero (w / 2))
bit_and-two_pow w (suc k) =
    ground (arith, bit_and_step w (2 ^ suc k), pow-suc 2 k, bit_and-two_pow (w / 2) k)

pub test_bit_mask : (w k : ℕ) → not (bit_and w (2 ^ k) == 0) ≡ test_bit w k
test_bit_mask w k = ground (arith, bit_and-two_pow w k, one-le-pow k 2)

-- `&`, `|` and `!` stay inside `n` digits.
pub bit_and-lt : (n a b : ℕ) → a < 2 ^ n → bit_and a b < 2 ^ n
bit_and-lt zero zero b h = omega (arith, bit_and-bitwise 0 b)
bit_and-lt zero (suc a) b h = absurd (omega arith)
bit_and-lt (suc n) a b h =
    let below : a / 2 < 2 ^ n = omega (arith, pow-suc 2 n) in
    omega (arith, bit_and_step a b, pow-suc 2 n, bit_and-lt n (a / 2) (b / 2) below)

pub bit_or-lt : (n a b : ℕ) → a < 2 ^ n → b < 2 ^ n → bit_or a b < 2 ^ n
bit_or-lt zero zero zero h k = omega arith
bit_or-lt zero zero (suc b) h k = absurd (omega arith)
bit_or-lt zero (suc a) b h k = absurd (omega arith)
bit_or-lt (suc n) a b h k =
    let a_below : a / 2 < 2 ^ n = omega (arith, pow-suc 2 n) in
    let b_below : b / 2 < 2 ^ n = omega (arith, pow-suc 2 n) in
    omega (arith, bit_or_step a b, pow-suc 2 n, bit_or-lt n (a / 2) (b / 2) a_below b_below)

-- Two words of `n` digits are equal when their digits are.
pub test_bit_ext :
    (n a b : ℕ) → a < 2 ^ n → b < 2 ^ n → ((k : ℕ) → k < n → test_bit a k ≡ test_bit b k) → a ≡ b
unfolding test_bit
test_bit_ext zero a b h k e = omega arith
test_bit_ext (suc n) a b h k e =
    let low : (a % 2 == 1) ≡ (b % 2 == 1) = e 0 (omega arith) in
    let high : a / 2 ≡ b / 2 =
      test_bit_ext n (a / 2) (b / 2) (omega (arith, pow-suc 2 n)) (omega (arith, pow-suc 2 n))
        (λ j p. e (suc j) (omega arith)) in
    ground arith

-- There are no digits from `n` on in a number below `2 ^ n`.
pub test_bit-high : (n w k : ℕ) → w < 2 ^ n → n ≤ k → test_bit w k ≡ false
unfolding test_bit
test_bit-high zero zero k h p = test_bit-zero k
test_bit-high zero (suc w) k h p = absurd (omega arith)
test_bit-high (suc n) w zero h p = absurd (omega arith)
test_bit-high (suc n) w (suc k) h p =
    test_bit-high n (w / 2) k (omega (arith, pow-suc 2 n)) (omega arith)

-- `(1 << n) - 1` is `n` ones.
pub test_bit_ones : (n k : ℕ) → test_bit (2 ^ n - 1) k ≡ ltb k n
test_bit_ones n k = elim (Bool-cases (ltb k n)) [
  | inl below ↦
      let ones : 2 ^ n - 1 ≡ 2 ^ n - 1 - 0 = omega arith in
      let pos : 0 < 2 ^ n = omega (arith, one-le-pow n 2) in
      rw (ones, test_bit-complement n 0 k pos (ltb→lt k n below), test_bit-zero k, below)
  | inr above ↦
      rw (test_bit-high n (2 ^ n - 1) k (omega (arith, one-le-pow n 2)) (ground arith), above)
]
