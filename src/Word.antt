-- ===== src/Word.antt =====
-- u64 words as Rust's standard library computes with them. A word is a plain number below
-- 2 ^ 64; every operation that can leave that range wraps it back.
pub mod Digits
pub mod Bits
pub mod Lowest
use Prim.Native.Nat.{bit_and, bit_or}
use calinix.Prelude.{ℕ, zero, suc, ◌+◌, ◌-◌, ◌*◌, ◌/◌, ◌%◌, ◌^◌, ◌==◌, Bool, if◌then◌else◌}

abbrev pub u64_mod : ℕ
u64_mod = 2 ^ 64

abbrev pub u64_max : ℕ
u64_max = 2 ^ 64 - 1

-- `!x`
unfoldable pub bit_not : ℕ → ℕ
bit_not x = u64_max - x

-- `a.wrapping_mul(b)`
unfoldable pub wrapping_mul : ℕ → ℕ → ℕ
wrapping_mul a b = (a * b) % u64_mod

-- The zeros below the lowest set bit, looked for in `n` digits.
unfoldable pub trailing_zeros_in : ℕ → ℕ → ℕ
trailing_zeros_in zero w = 0
trailing_zeros_in (suc n) w = if w % 2 == 1 then 0 else suc (trailing_zeros_in n (w / 2))

unfoldable pub trailing_zeros : ℕ → ℕ
trailing_zeros w = trailing_zeros_in 64 w

-- The digits up to the highest set bit, and `leading_zeros`, which counts the others.
unfoldable pub bit_length_in : ℕ → ℕ → ℕ
bit_length_in zero w = 0
bit_length_in (suc n) w = if w == 0 then 0 else suc (bit_length_in n (w / 2))

unfoldable pub leading_zeros : ℕ → ℕ
leading_zeros w = 64 - bit_length_in 64 w

unfoldable pub count_ones_in : ℕ → ℕ → ℕ
count_ones_in zero w = 0
count_ones_in (suc n) w = w % 2 + count_ones_in n (w / 2)

unfoldable pub count_ones : ℕ → ℕ
count_ones w = count_ones_in 64 w
