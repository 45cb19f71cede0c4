-- ===== src/Bitmap/Laws.antt =====
-- What each operation of `HostBitmap` does to the members, and that it keeps the words u64.
use Prim.Native.Nat.{bit_and, bit_or}
use native.Mathlib.Nat.{pow-suc, one-le-pow, pow-le-pow_right}
use calinix.Word.{bit_not}
use calinix.Word.Bits.{
  test_bit-and, test_bit-or, test_bit-not, test_bit-zero, test_bit-two_pow, bit_and-lt, bit_or-lt,
}
use calinix.Bitmap.{
  HostBitmap, word_at, set_word, empty, set, clear, contains, is_empty, and, or, minus,
}
use calinix.Bitmap.Members.{IsWords, contains-test_bit, contains_ext, word_at-lt}
use calinix.Prelude.{
  ℕ, zero, suc, ◌/◌, ◌%◌, ◌^◌, ◌<◌, ◌==◌, ◌≡◌, refl, arith, true, false, ltb, not, ◌&&◌, ◌||◌, ◌∙◌,
  sym, if◌then◌else◌,
}

pub two_pow-lt : (k : ℕ) → k < 64 → 2 ^ k < 2 ^ 64
two_pow-lt k h =
    let two_pos : 0 < 2 = omega arith in
    omega
      (arith, pow-suc 2 k, one-le-pow k 2, pow-le-pow_right {n = 2} two_pos {i = suc k} {j = 64} h)

pub word_at-set_word :
    (b : HostBitmap) (i w j : ℕ)
    → word_at (set_word b i w) j ≡ (if (i == j) && ltb i 4 then w else word_at b j)
unfolding word_at set_word
word_at-set_word b zero w zero = refl
word_at-set_word b zero w (suc j) = ground arith
word_at-set_word b (suc zero) w zero = refl
word_at-set_word b (suc zero) w (suc zero) = refl
word_at-set_word b (suc zero) w (suc (suc j)) = ground arith
word_at-set_word b (suc (suc zero)) w zero = refl
word_at-set_word b (suc (suc zero)) w (suc zero) = refl
word_at-set_word b (suc (suc zero)) w (suc (suc zero)) = refl
word_at-set_word b (suc (suc zero)) w (suc (suc (suc j))) = ground arith
word_at-set_word b (suc (suc (suc zero))) w zero = refl
word_at-set_word b (suc (suc (suc zero))) w (suc zero) = refl
word_at-set_word b (suc (suc (suc zero))) w (suc (suc zero)) = refl
word_at-set_word b (suc (suc (suc zero))) w (suc (suc (suc zero))) = refl
word_at-set_word b (suc (suc (suc zero))) w (suc (suc (suc (suc j)))) = ground arith
word_at-set_word b (suc (suc (suc (suc i)))) w j = ground arith

pub set_word-IsWords :
    (b : HostBitmap) (i w : ℕ) → w < 2 ^ 64 → IsWords b → IsWords (set_word b i w)
unfolding set_word
set_word-IsWords b zero w h v = omega arith
set_word-IsWords b (suc zero) w h v = omega arith
set_word-IsWords b (suc (suc zero)) w h v = omega arith
set_word-IsWords b (suc (suc (suc zero))) w h v = omega arith
set_word-IsWords b (suc (suc (suc (suc i)))) w h v = v

pub empty-IsWords : IsWords empty
unfolding empty
empty-IsWords = omega arith

pub set-IsWords : (b : HostBitmap) (i : ℕ) → IsWords b → IsWords (set b i)
unfolding set
set-IsWords b i v = ground (
  arith,
  set_word-IsWords b (i / 64) (bit_or (word_at b (i / 64)) (2 ^ (i % 64))),
  bit_or-lt 64 (word_at b (i / 64)) (2 ^ (i % 64)),
  word_at-lt b (i / 64) v,
  two_pow-lt (i % 64) (omega arith),
)

pub clear-IsWords : (b : HostBitmap) (i : ℕ) → IsWords b → IsWords (clear b i)
unfolding clear
clear-IsWords b i v = ground (
  arith,
  set_word-IsWords b (i / 64) (bit_and (word_at b (i / 64)) (bit_not (2 ^ (i % 64)))),
  bit_and-lt 64 (word_at b (i / 64)) (bit_not (2 ^ (i % 64))),
  word_at-lt b (i / 64) v,
)

pub and-IsWords : (a b : HostBitmap) → IsWords a → IsWords (and a b)
unfolding and
and-IsWords a b v = record {
  bound0 = bit_and-lt 64 _ _ v.bound0;
  bound1 = bit_and-lt 64 _ _ v.bound1;
  bound2 = bit_and-lt 64 _ _ v.bound2;
  bound3 = bit_and-lt 64 _ _ v.bound3;
}

pub or-IsWords : (a b : HostBitmap) → IsWords a → IsWords b → IsWords (or a b)
unfolding or
or-IsWords a b v u = record {
  bound0 = bit_or-lt 64 _ _ v.bound0 u.bound0;
  bound1 = bit_or-lt 64 _ _ v.bound1 u.bound1;
  bound2 = bit_or-lt 64 _ _ v.bound2 u.bound2;
  bound3 = bit_or-lt 64 _ _ v.bound3 u.bound3;
}

pub minus-IsWords : (a b : HostBitmap) → IsWords a → IsWords (minus a b)
unfolding minus
minus-IsWords a b v = record {
  bound0 = bit_and-lt 64 _ _ v.bound0;
  bound1 = bit_and-lt 64 _ _ v.bound1;
  bound2 = bit_and-lt 64 _ _ v.bound2;
  bound3 = bit_and-lt 64 _ _ v.bound3;
}

pub word_at-empty : (j : ℕ) → word_at empty j ≡ 0
unfolding word_at empty
word_at-empty zero = refl
word_at-empty (suc zero) = refl
word_at-empty (suc (suc zero)) = refl
word_at-empty (suc (suc (suc zero))) = refl
word_at-empty (suc (suc (suc (suc j)))) = refl

pub contains-empty : (i : ℕ) → contains empty i ≡ false
contains-empty i =
    ground (arith, contains-test_bit empty i, word_at-empty (i / 64), test_bit-zero (i % 64))

-- `set` adds its pod id, if it is below 256, and no other.
pub contains-set :
    (b : HostBitmap) (i j : ℕ)
    → contains (set b i) j ≡ (if (i == j) && ltb i 256 then true else contains b j)
unfolding set
contains-set b i j = ground (
  arith,
  contains-test_bit (set_word b (i / 64) (bit_or (word_at b (i / 64)) (2 ^ (i % 64)))) j,
  contains-test_bit b j,
  word_at-set_word b (i / 64) (bit_or (word_at b (i / 64)) (2 ^ (i % 64))) (j / 64),
  test_bit-or (word_at b (i / 64)) (2 ^ (i % 64)) (j % 64),
  test_bit-two_pow (i % 64) (j % 64),
)

-- `clear` removes its pod id and no other.
pub contains-clear :
    (b : HostBitmap) (i j : ℕ) → contains (clear b i) j ≡ (if i == j then false else contains b j)
unfolding clear
contains-clear b i j =
    let w = word_at b (i / 64) in
    let mask = bit_not (2 ^ (i % 64)) in
    ground (
      arith,
      contains-test_bit (set_word b (i / 64) (bit_and w mask)) j,
      contains-test_bit b j,
      word_at-set_word b (i / 64) (bit_and w mask) (j / 64),
      test_bit-and w mask (j % 64),
      test_bit-not (2 ^ (i % 64)) (j % 64) (two_pow-lt (i % 64) (omega arith)) (omega arith),
      test_bit-two_pow (i % 64) (j % 64),
    )

word_at-and : (a b : HostBitmap) (j : ℕ) → word_at (and a b) j ≡ bit_and (word_at a j) (word_at b j)
unfolding word_at and
word_at-and a b zero = refl
word_at-and a b (suc zero) = refl
word_at-and a b (suc (suc zero)) = refl
word_at-and a b (suc (suc (suc zero))) = refl
word_at-and a b (suc (suc (suc (suc j)))) = refl

word_at-or : (a b : HostBitmap) (j : ℕ) → word_at (or a b) j ≡ bit_or (word_at a j) (word_at b j)
unfolding word_at or
word_at-or a b zero = refl
word_at-or a b (suc zero) = refl
word_at-or a b (suc (suc zero)) = refl
word_at-or a b (suc (suc (suc zero))) = refl
word_at-or a b (suc (suc (suc (suc j)))) = refl

word_at-minus :
    (a b : HostBitmap) (j : ℕ)
    → word_at (minus a b) j ≡ bit_and (word_at a j) (bit_not (word_at b j))
unfolding word_at minus
word_at-minus a b zero = refl
word_at-minus a b (suc zero) = refl
word_at-minus a b (suc (suc zero)) = refl
word_at-minus a b (suc (suc (suc zero))) = refl
word_at-minus a b (suc (suc (suc (suc j)))) = unfold bit_not in refl

-- The four-word operations are the operations on sets.
pub contains-and :
    (a b : HostBitmap) (i : ℕ) → contains (and a b) i ≡ (contains a i && contains b i)
contains-and a b i =
    rw
      (
        contains-test_bit (and a b) i,
        contains-test_bit a i,
        contains-test_bit b i,
        word_at-and,
        test_bit-and,
      )
      (ground arith)

pub contains-or : (a b : HostBitmap) (i : ℕ) → contains (or a b) i ≡ (contains a i || contains b i)
contains-or a b i =
    rw
      (
        contains-test_bit (or a b) i,
        contains-test_bit a i,
        contains-test_bit b i,
        word_at-or,
        test_bit-or,
      )
      (ground arith)

-- The difference has the members of the first bitmap that the second, of u64 words, does not have.
pub contains-minus :
    (a b : HostBitmap) (i : ℕ)
    → IsWords b
    → contains (minus a b) i ≡ (contains a i && not (contains b i))
contains-minus a b i v = ground (
  arith,
  contains-test_bit (minus a b) i,
  contains-test_bit a i,
  contains-test_bit b i,
  word_at-minus a b (i / 64),
  test_bit-and (word_at a (i / 64)) (bit_not (word_at b (i / 64))) (i % 64),
  test_bit-not (word_at b (i / 64)) (i % 64) (word_at-lt b (i / 64) v) (omega arith),
)

word_at-is_empty : (b : HostBitmap) (j : ℕ) → is_empty b ≡ true → word_at b j ≡ 0
unfolding word_at is_empty
word_at-is_empty b zero h = ground arith
word_at-is_empty b (suc zero) h = ground arith
word_at-is_empty b (suc (suc zero)) h = ground arith
word_at-is_empty b (suc (suc (suc zero))) h = ground arith
word_at-is_empty b (suc (suc (suc (suc j)))) h = refl

pub contains-is_empty : (b : HostBitmap) (i : ℕ) → is_empty b ≡ true → contains b i ≡ false
contains-is_empty b i h =
    ground (arith, contains-test_bit b i, word_at-is_empty b (i / 64) h, test_bit-zero (i % 64))

-- A bitmap with no members has no set bit.
pub is_empty-true :
    (b : HostBitmap) → IsWords b → ((i : ℕ) → contains b i ≡ false) → is_empty b ≡ true
is_empty-true b v none =
    rw (contains_ext b empty v empty-IsWords (λ i. none i ∙ sym (contains-empty i)))
      (unfold is_empty empty in refl)
