-- ===== src/Bitmap/Bounds.antt =====
-- Queries on a bitmap and the bitmaps that `full_for_count` makes.
use native.Mathlib.Nat.{pow-suc}
use calinix.Word.{u64_max, leading_zeros, bit_length_in}
use calinix.Word.Bits.{test_bit, test_bit_ones, test_bit-zero}
use calinix.Bitmap.{
  HostBitmap, word_at, set_word, empty, fill_words, full_for_count, highest_below,
  highest_set_bit_plus_one, contains, count,
}
use calinix.Bitmap.Members.{IsWords, contains-test_bit, contains_at, word_at-lt}
use calinix.Bitmap.Laws.{
  two_pow-lt, word_at-set_word, set_word-IsWords, empty-IsWords, word_at-empty,
}
use calinix.Prelude.{
  ℕ, zero, suc, ◌+◌, ◌-◌, ◌*◌, ◌/◌, ◌%◌, ◌^◌, ◌≤◌, ◌<◌, min, ◌≡◌, refl, ◌≢◌, inl, inr, true, false,
  ◌&&◌, arith, ltb, ◌==◌, if◌then◌else◌, Bool-cases,
}

fill_words-IsWords : (n : ℕ) (b : HostBitmap) → IsWords b → IsWords (fill_words n b)
unfolding fill_words
fill_words-IsWords zero b v = v
fill_words-IsWords (suc n) b v =
    set_word-IsWords (fill_words n b) n u64_max (omega arith) (fill_words-IsWords n b v)

word_at-fill_words :
    (n : ℕ) (b : HostBitmap) (j : ℕ)
    → word_at (fill_words n b) j ≡ (if ltb j n && ltb j 4 then u64_max else word_at b j)
unfolding fill_words
word_at-fill_words zero b j = ground arith
word_at-fill_words (suc n) b j =
    ground (arith, word_at-set_word (fill_words n b) n u64_max j, word_at-fill_words n b j)

-- The full bitmap for a count has exactly the pods below the count, 256 at most.
pub contains-full_for_count :
    (count i : ℕ) → contains (full_for_count count) i ≡ ltb i (min count 256)
unfolding full_for_count
contains-full_for_count count i =
    let capped = min count 256 in
    let filled = fill_words (capped / 64) empty in
    let ones = 2 ^ (capped % 64) - 1 in
    ground (
      arith,
      contains-test_bit (set_word filled (capped / 64) ones) i,
      contains-test_bit filled i,
      word_at-set_word filled (capped / 64) ones (i / 64),
      word_at-fill_words (capped / 64) empty (i / 64),
      word_at-empty (i / 64),
      test_bit_ones (capped % 64) (i % 64),
      test_bit_ones 64 (i % 64),
      test_bit-zero (i % 64),
    )

pub full_for_count-IsWords : (count : ℕ) → IsWords (full_for_count count)
unfolding full_for_count
full_for_count-IsWords count =
    let capped = min count 256 in
    let filled = fill_words (capped / 64) empty in
    let valid = fill_words-IsWords (capped / 64) empty empty-IsWords in
    elim (Bool-cases (ltb 0 (capped % 64) && ltb (capped / 64) 4)) [
      | inl partly ↦ rw partly (
          set_word-IsWords filled (capped / 64) (2 ^ (capped % 64) - 1)
            (omega (arith, two_pow-lt (capped % 64) (omega arith))) valid)
      | inr whole ↦ rw whole valid
    ]

-- The position after the highest set bit, in `n` digits.
bit_length_in-gt : (n w k : ℕ) → w < 2 ^ n → test_bit w k ≡ true → k < bit_length_in n w
unfolding bit_length_in test_bit
bit_length_in-gt zero zero k h t = cc (test_bit-zero k)
bit_length_in-gt zero (suc w) k h t = absurd (omega arith)
bit_length_in-gt (suc n) w zero h t = ground arith
bit_length_in-gt (suc n) zero (suc k) h t = cc (test_bit-zero k)
bit_length_in-gt (suc n) (suc w) (suc k) h t =
    ground (arith, bit_length_in-gt n (suc w / 2) k (omega (arith, pow-suc 2 n)) t)

bit_length_in-eq_zero : (n w : ℕ) → w < 2 ^ n → bit_length_in n w ≡ 0 → w ≡ 0
unfolding bit_length_in
bit_length_in-eq_zero zero w h e = omega arith
bit_length_in-eq_zero (suc n) zero h e = refl
bit_length_in-eq_zero (suc n) (suc w) h e = ground arith

bit_length_in-le : (n w : ℕ) → bit_length_in n w ≤ n
unfolding bit_length_in
bit_length_in-le zero w = omega arith
bit_length_in-le (suc n) w = ground (arith, bit_length_in-le n (w / 2))

test_bit-bit_length_in : (n w j : ℕ) → w < 2 ^ n → bit_length_in n w ≡ suc j → test_bit w j ≡ true
unfolding bit_length_in test_bit
test_bit-bit_length_in zero w j h e = absurd (omega arith)
test_bit-bit_length_in (suc n) zero j h e = absurd (omega arith)
test_bit-bit_length_in (suc n) (suc w) zero h e =
    ground (arith, bit_length_in-eq_zero n (suc w / 2) (omega (arith, pow-suc 2 n)) (ground arith))
test_bit-bit_length_in (suc n) (suc w) (suc j) h e =
    test_bit-bit_length_in n (suc w / 2) j (omega (arith, pow-suc 2 n)) (ground arith)

-- A word that is not 0, and its highest digit.
highest_digit :
    (w : ℕ)
    → w < 2 ^ 64
    → (w == 0) ≡ false
    → (63 - leading_zeros w < 64)
      × (test_bit w (63 - leading_zeros w) ≡ true)
      × ((k : ℕ) → test_bit w k ≡ true → k ≤ 63 - leading_zeros w)
unfolding leading_zeros
highest_digit w h nz =
    let size = bit_length_in 64 w in
    let top = bit_length_in-le 64 w in
    let some_digit : size ≢ 0 = λ e. absurd (ground (arith, bit_length_in-eq_zero 64 w h e)) in
    let at : 63 - (64 - size) ≡ size - 1 = omega arith in
    (
      omega arith,
      rw at (test_bit-bit_length_in 64 w (size - 1) h (omega arith)),
      λ k t. omega (arith, bit_length_in-gt 64 w k h t),
    )

digit_nonzero : (w k : ℕ) → test_bit w k ≡ true → (w == 0) ≡ false
digit_nonzero w k t = ground (arith, test_bit-zero k)

highest_below-gt :
    (b : HostBitmap) (n j k : ℕ)
    → IsWords b
    → n ≤ 4
    → j < n
    → k < 64
    → test_bit (word_at b j) k ≡ true
    → j * 64 + k < highest_below b n
unfolding highest_below
highest_below-gt b zero j k v le h p t = absurd (omega arith)
highest_below-gt b (suc n) j k v le h p t = elim (Bool-cases (word_at b n == 0)) [
  | inl clear ↦
      rw clear
        (ground (arith, digit_nonzero (word_at b j) k t, highest_below-gt b n j k v (omega arith)))
  | inr set ↦ rw set (ground (arith, (highest_digit (word_at b n) (word_at-lt b n v) set).2 k))
]

highest_below_attained :
    (b : HostBitmap) (n : ℕ)
    → IsWords b
    → n ≤ 4
    → (highest_below b n == 0) ≡ false
    → contains b (highest_below b n - 1) ≡ true
unfolding highest_below
highest_below_attained b zero v le h = cc
highest_below_attained b (suc n) v le h = elim (Bool-cases (word_at b n == 0)) [
  | inl clear ↦ rw clear (highest_below_attained b n v (omega arith) (rw clear at h))
  | inr set ↦
      let top = highest_digit (word_at b n) (word_at-lt b n v) set in
      let place : n * 64 + (63 - leading_zeros (word_at b n)) + 1 - 1
          ≡ n * 64 + (63 - leading_zeros (word_at b n)) =
        omega arith in
      rw (set, place, contains_at b n (63 - leading_zeros (word_at b n)) le top.0) top.1
]

-- In u64 words, the number is above every member, and is 0 or one more than a member.
pub highest_set_bit_plus_one-bound :
    (b : HostBitmap)
    → IsWords b
    → ((i : ℕ) → contains b i ≡ true → i < highest_set_bit_plus_one b)
      × ((highest_set_bit_plus_one b == 0) ≡ false
          → contains b (highest_set_bit_plus_one b - 1) ≡ true)
unfolding highest_set_bit_plus_one
highest_set_bit_plus_one-bound b v = (above, highest_below_attained b 4 v (omega arith))
  where
    above : (i : ℕ) → contains b i ≡ true → i < highest_below b 4
    above i t =
        let small : i < 256 = ground (arith, contains-test_bit b i) in
        let digit : test_bit (word_at b (i / 64)) (i % 64) ≡ true =
          ground (arith, contains-test_bit b i) in
        omega (
          arith,
          highest_below-gt b 4 (i / 64) (i % 64) v (omega arith) (omega arith) (omega arith) digit,
        )
