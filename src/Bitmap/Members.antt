-- ===== src/Bitmap/Members.antt =====
-- A bitmap as a set of pod ids: `contains` reads one digit of one word.
use calinix.Word.Bits.{test_bit, test_bit_mask, test_bit_ext}
use calinix.Bitmap.{HostBitmap, word_at, contains}
use calinix.Prelude.{
  ℕ, zero, suc, ◌+◌, ◌*◌, ◌/◌, ◌%◌, ◌^◌, ◌<◌, ◌≡◌, arith, false, leb, if◌then◌else◌,
}

-- The words are u64 values.
pub record IsWords (b : HostBitmap) : Type 0 where
  pub bound0 : b.word0 < 2 ^ 64
  pub bound1 : b.word1 < 2 ^ 64
  pub bound2 : b.word2 < 2 ^ 64
  pub bound3 : b.word3 < 2 ^ 64

pub contains-test_bit :
    (b : HostBitmap) (i : ℕ)
    → contains b i ≡ (if leb 256 i then false else test_bit (word_at b (i / 64)) (i % 64))
unfolding contains
contains-test_bit b i = ground (arith, test_bit_mask (word_at b (i / 64)) (i % 64))

pub contains_at :
    (b : HostBitmap) (j k : ℕ) → j < 4 → k < 64 → contains b (j * 64 + k) ≡ test_bit (word_at b j) k
contains_at b j k h p =
    let word : (j * 64 + k) / 64 ≡ j = omega arith in
    let bit : (j * 64 + k) % 64 ≡ k = omega arith in
    rw (contains-test_bit, word, bit) (ground arith)

pub word_at-lt : (b : HostBitmap) (j : ℕ) → IsWords b → word_at b j < 2 ^ 64
unfolding word_at
word_at-lt b zero v = v.bound0
word_at-lt b (suc zero) v = v.bound1
word_at-lt b (suc (suc zero)) v = v.bound2
word_at-lt b (suc (suc (suc zero))) v = v.bound3
word_at-lt b (suc (suc (suc (suc j)))) v = omega arith

-- Bitmaps with the same members are the same.
pub contains_ext :
    (a b : HostBitmap) → IsWords a → IsWords b → ((i : ℕ) → contains a i ≡ contains b i) → a ≡ b
unfolding word_at
contains_ext a b va vb e = λ i. record {
  word0 = same 0 (omega arith) i;
  word1 = same 1 (omega arith) i;
  word2 = same 2 (omega arith) i;
  word3 = same 3 (omega arith) i;
}
  where
    same : (j : ℕ) → j < 4 → word_at a j ≡ word_at b j
    same j h =
        test_bit_ext 64 (word_at a j) (word_at b j) (word_at-lt a j va) (word_at-lt b j vb)
          (λ k p. rw (← contains_at a j k h p, ← contains_at b j k h p) (e (j * 64 + k)))
