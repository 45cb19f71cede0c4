-- ===== src/Word/Digits.antt =====
-- The native bit operations are recursions on binary digits with fuel. Here the fuel is
-- dropped: one equation for the lowest digit of each.
use Prim.Native.Nat.{bit_and, bit_or, digits, bitwise, bit_and-bitwise, bit_or-bitwise}
use mathlib.Core.WellFounded
use calinix.Prelude.{ℕ, zero, suc, ◌+◌, ◌*◌, ◌/◌, ◌%◌, ◌≤◌, ◌<◌, ◌≡◌, refl, arith, min, max, lt_wf}

module _ (stop : ℕ → ℕ) (op : ℕ → ℕ → ℕ) where
  -- More fuel than the number that is halved gives the same digits.
  abbrev Settled : ℕ → Type 0
  Settled x = (fuel y : ℕ) → x ≤ fuel → digits stop op fuel x y ≡ bitwise stop op x y

  Settled-below : (x : ℕ) → ((w : ℕ) → w < x → Settled w) → Settled x
  Settled-below zero below zero y h = refl
  Settled-below zero below (suc fuel) y h = refl
  Settled-below (suc x) below zero y h = absurd (omega arith)
  Settled-below (suc x) below (suc fuel) y h =
      let half = below (suc x / 2) (omega arith) in
      omega (arith, half fuel (y / 2) (omega arith), half x (y / 2) (omega arith))

  Settled-all : (x : ℕ) → Settled x
  Settled-all x = WellFounded.induction lt_wf x Settled-below

  lowest_digit :
      (x y : ℕ)
      → bitwise stop op (suc x) y ≡ 2 * bitwise stop op (suc x / 2) (y / 2) + op (suc x % 2) (y % 2)
  lowest_digit x y = omega (arith, Settled-all (suc x / 2) x (y / 2) (omega arith))

pub bit_and_step : (x y : ℕ) → bit_and x y ≡ 2 * bit_and (x / 2) (y / 2) + min (x % 2) (y % 2)
bit_and_step zero y = simp bit_and-bitwise (omega arith)
bit_and_step (suc x) y = simp bit_and-bitwise (lowest_digit (λ _. 0) min x y)

pub bit_or_step : (x y : ℕ) → bit_or x y ≡ 2 * bit_or (x / 2) (y / 2) + max (x % 2) (y % 2)
bit_or_step zero y = simp bit_or-bitwise (omega arith)
bit_or_step (suc x) y = simp bit_or-bitwise (lowest_digit (λ rest. rest) max x y)
