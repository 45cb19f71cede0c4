-- ===== src/Bitmap/First.antt =====
-- The least member of a bitmap, and the number of members.
use native.Mathlib.Nat.{pow-suc}
use calinix.Word.{trailing_zeros, trailing_zeros_in, count_ones, count_ones_in}
use calinix.Word.Bits.{test_bit, test_bit-zero}
use calinix.Bitmap.{
  HostBitmap, word_at, contains, is_empty, count, first_set_bit, first_set_bit_from, iter_set_bits,
}
use calinix.Bitmap.Members.{IsWords, contains-test_bit, contains_at, word_at-lt}
use calinix.Bitmap.Scan.{
  range_where, range_where-append, digits_from, digits_from-range, iter_set_bits-range,
}
use calinix.Prelude.{
  ℕ, zero, suc, ◌+◌, ◌*◌, ◌/◌, ◌%◌, ◌^◌, ◌<◌, ◌≡◌, refl, ap, ◌∙◌, ◌⊎◌, inl, inr, Bool, true, false,
  none, some, arith, ◌==◌, Bool-cases, length, length-append,
}

-- `p` is the least number that passes the test.
pub record IsFirst (test : ℕ → Bool) (p : ℕ) : Type 0 where
  pub passes : test p ≡ true
  pub least : (q : ℕ) → q < p → test q ≡ false

trailing_zeros_in-lt : (n w : ℕ) → w < 2 ^ n → (w == 0) ≡ false → trailing_zeros_in n w < n
unfolding trailing_zeros_in
trailing_zeros_in-lt zero w h nz = absurd (ground arith)
trailing_zeros_in-lt (suc n) w h nz = ground (arith, pow-suc 2 n, trailing_zeros_in-lt n (w / 2))

test_bit-trailing_zeros_in :
    (n w : ℕ) → w < 2 ^ n → (w == 0) ≡ false → test_bit w (trailing_zeros_in n w) ≡ true
unfolding trailing_zeros_in test_bit
test_bit-trailing_zeros_in zero w h nz = absurd (ground arith)
test_bit-trailing_zeros_in (suc n) w h nz = elim (Bool-cases (w % 2 == 1)) [
  | inl odd ↦ rw odd odd
  | inr even ↦
      rw even (test_bit-trailing_zeros_in n (w / 2) (omega (arith, pow-suc 2 n)) (ground arith))
]

below-trailing_zeros_in : (n w k : ℕ) → k < trailing_zeros_in n w → test_bit w k ≡ false
unfolding trailing_zeros_in test_bit
below-trailing_zeros_in zero w k h = absurd (omega arith)
below-trailing_zeros_in (suc n) w zero h = ground arith
below-trailing_zeros_in (suc n) w (suc k) h = ground (arith, below-trailing_zeros_in n (w / 2) k)

-- The first word that is not 0 holds the least member.
IsFirst-in_word :
    (b : HostBitmap) (j : ℕ)
    → IsWords b
    → j < 4
    → ((i : ℕ) → i < j → word_at b i ≡ 0)
    → (word_at b j == 0) ≡ false
    → IsFirst (contains b) (j * 64 + trailing_zeros (word_at b j))
unfolding trailing_zeros
IsFirst-in_word b j v h zeros nz =
    let w = word_at b j in
    let small = trailing_zeros_in-lt 64 w (word_at-lt b j v) nz in
    record {
      passes =
          rw (contains_at b j (trailing_zeros_in 64 w) h small)
            (test_bit-trailing_zeros_in 64 w (word_at-lt b j v) nz);
      least = λ q lt. ground (
        arith,
        contains-test_bit b q,
        zeros (q / 64),
        test_bit-zero (q % 64),
        below-trailing_zeros_in 64 w (q % 64),
      );
    }

zeros_below :
    (b : HostBitmap) (j : ℕ)
    → j < 4
    → (0 < j → b.word0 ≡ 0)
    → (1 < j → b.word1 ≡ 0)
    → (2 < j → b.word2 ≡ 0)
    → (i : ℕ) → i < j
    → word_at b i ≡ 0
unfolding word_at
zeros_below b j h e0 e1 e2 zero p = e0 p
zeros_below b j h e0 e1 e2 (suc zero) p = e1 p
zeros_below b j h e0 e1 e2 (suc (suc zero)) p = e2 p
zeros_below b j h e0 e1 e2 (suc (suc (suc i))) p = absurd (omega arith)

-- In u64 words, the first set bit is the least member, or nothing where the bitmap is empty.
pub first_set_bit-IsFirst :
    (b : HostBitmap)
    → IsWords b
    → ((first_set_bit b ≡ none) × (is_empty b ≡ true))
      ⊎ ((p : ℕ) × (first_set_bit b ≡ some p) × IsFirst (contains b) p)
unfolding first_set_bit first_set_bit_from is_empty word_at
first_set_bit-IsFirst b v = elim (Bool-cases (b.word0 == 0)) [
  | inr set0 ↦
      inr (_, rw set0, IsFirst-in_word b 0 v (omega arith) (λ i p. absurd (omega arith)) set0)
  | inl clear0 ↦
      let e0 : b.word0 ≡ 0 = ground arith in
      elim (Bool-cases (b.word1 == 0)) [
        | inr set1 ↦
            let zeros =
              zeros_below b 1 (omega arith) (λ _. e0) (λ p. absurd (omega arith))
                (λ p. absurd (omega arith)) in
            inr (_, rw (clear0, set1), IsFirst-in_word b 1 v (omega arith) zeros set1)
        | inl clear1 ↦
            let e1 : b.word1 ≡ 0 = ground arith in
            elim (Bool-cases (b.word2 == 0)) [
              | inr set2 ↦
                  let zeros =
                    zeros_below b 2 (omega arith) (λ _. e0) (λ _. e1) (λ p. absurd (omega arith)) in
                  inr (_, rw (clear0, clear1, set2), IsFirst-in_word b 2 v (omega arith) zeros set2)
              | inl clear2 ↦
                  let e2 : b.word2 ≡ 0 = ground arith in
                  elim (Bool-cases (b.word3 == 0)) [
                    | inr set3 ↦
                        let zeros = zeros_below b 3 (omega arith) (λ _. e0) (λ _. e1) (λ _. e2) in
                        inr (
                          _,
                          rw (clear0, clear1, clear2, set3),
                          IsFirst-in_word b 3 v (omega arith) zeros set3,
                        )
                    | inl clear3 ↦
                        inl
                          (rw (clear0, clear1, clear2, clear3), rw (clear0, clear1, clear2, clear3))
                  ]
            ]
      ]
]

count_ones_in-digits : (n base w : ℕ) → count_ones_in n w ≡ length (digits_from n base w)
unfolding count_ones_in digits_from
count_ones_in-digits zero base w = refl
count_ones_in-digits (suc n) base w = ground (arith, count_ones_in-digits n (base + 1) (w / 2))

count_ones-range :
    (b : HostBitmap) (j : ℕ)
    → j < 4
    → count_ones (word_at b j) ≡ length (range_where (contains b) 64 (j * 64))
unfolding count_ones
count_ones-range b j h =
    count_ones_in-digits 64 (j * 64) (word_at b j)
    ∙ ap length
        (digits_from-range (contains b) 64 (j * 64) (word_at b j) (λ k p. contains_at b j k h p))

-- In u64 words, the count is the number of members.
pub count-iter_set_bits : (b : HostBitmap) → IsWords b → count b ≡ length (iter_set_bits b)
unfolding count word_at
count-iter_set_bits b v =
    rw
      (
        iter_set_bits-range b v,
        range_where-append (contains b) 64 192 0,
        range_where-append (contains b) 64 128 64,
        range_where-append (contains b) 64 64 128,
        length-append (range_where (contains b) 64 0),
        length-append (range_where (contains b) 64 64),
        length-append (range_where (contains b) 64 128),
      )
      (omega (
        arith,
        count_ones-range b 0 (omega arith),
        count_ones-range b 1 (omega arith),
        count_ones-range b 2 (omega arith),
        count_ones-range b 3 (omega arith),
      ))
