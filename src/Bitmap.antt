-- ===== src/Bitmap.antt =====
-- src/calinix/cache_registry/host_bitmap.rs: a set of pod ids below 256 in four 64-bit words.
-- The array `words` is the four fields; an index past the array, which Rust answers by a panic,
-- reads 0 and writes nothing here, and no operation makes one.
pub mod Members
pub mod Laws
pub mod Scan
pub mod Bounds
pub mod First
use Prim.Native.Nat.{bit_and, bit_or}
use calinix.Word.{
  u64_max, bit_not, trailing_zeros, trailing_zeros_in, leading_zeros, bit_length_in, count_ones,
  count_ones_in,
}
use calinix.Prelude.{
  ℕ, zero, suc, ◌+◌, ◌-◌, ◌*◌, ◌/◌, ◌%◌, ◌^◌, min, ◌==◌, leb, ltb, Bool, true, false, not, ◌&&◌,
  if◌then◌else◌, List, [], ◌∷◌, ◌++◌, Option, none, some,
}

abbrev pub max_pods : ℕ
max_pods = 256

abbrev pub words_count : ℕ
words_count = 4

abbrev pub bits_per_word : ℕ
bits_per_word = 64

pub record HostBitmap : Type 0 where
  pub word0 : ℕ
  pub word1 : ℕ
  pub word2 : ℕ
  pub word3 : ℕ

-- `self.words[i]`
unfoldable pub word_at : HostBitmap → ℕ → ℕ
word_at b zero = b.word0
word_at b (suc zero) = b.word1
word_at b (suc (suc zero)) = b.word2
word_at b (suc (suc (suc zero))) = b.word3
word_at b (suc (suc (suc (suc i)))) = 0

-- `self.words[i] = w`
unfoldable pub set_word : HostBitmap → ℕ → ℕ → HostBitmap
set_word b zero w = record b { word0 = w }
set_word b (suc zero) w = record b { word1 = w }
set_word b (suc (suc zero)) w = record b { word2 = w }
set_word b (suc (suc (suc zero))) w = record b { word3 = w }
set_word b (suc (suc (suc (suc i)))) w = b

-- `self.words.iter()`
abbrev pub words : HostBitmap → List ℕ
words b = b.word0 ∷ b.word1 ∷ b.word2 ∷ b.word3 ∷ []

unfoldable pub empty : HostBitmap
empty = record { word0 = 0; word1 = 0; word2 = 0; word3 = 0 }

-- `for i in 0..full_words { bitmap.words[i] = u64::MAX; }`
unfoldable pub fill_words : ℕ → HostBitmap → HostBitmap
fill_words zero b = b
fill_words (suc n) b = set_word (fill_words n b) n u64_max

unfoldable pub full_for_count : ℕ → HostBitmap
full_for_count count =
    let capped = min count max_pods in
    let full_words = capped / bits_per_word in
    let bitmap = fill_words full_words empty in
    let remaining = capped % bits_per_word in
    if ltb 0 remaining && ltb full_words words_count
    then set_word bitmap full_words (2 ^ remaining - 1)
    else bitmap

-- The `while` loop from `i` downwards.
unfoldable pub highest_below : HostBitmap → ℕ → ℕ
highest_below b zero = 0
highest_below b (suc i) =
    if word_at b i == 0
    then highest_below b i
    else i * bits_per_word + (bits_per_word - 1 - leading_zeros (word_at b i)) + 1

unfoldable pub highest_set_bit_plus_one : HostBitmap → ℕ
highest_set_bit_plus_one b = highest_below b words_count

unfoldable pub set : HostBitmap → ℕ → HostBitmap
set b pod_id =
    if leb max_pods pod_id
    then b
    else set_word b (pod_id / bits_per_word)
        (bit_or (word_at b (pod_id / bits_per_word)) (2 ^ (pod_id % bits_per_word)))

unfoldable pub clear : HostBitmap → ℕ → HostBitmap
clear b pod_id =
    if leb max_pods pod_id
    then b
    else set_word b (pod_id / bits_per_word)
        (bit_and (word_at b (pod_id / bits_per_word)) (bit_not (2 ^ (pod_id % bits_per_word))))

unfoldable pub contains : HostBitmap → ℕ → Bool
contains b pod_id =
    if leb max_pods pod_id
    then false
    else not (bit_and (word_at b (pod_id / bits_per_word)) (2 ^ (pod_id % bits_per_word)) == 0)

unfoldable pub is_empty : HostBitmap → Bool
is_empty b = b.word0 == 0 && b.word1 == 0 && b.word2 == 0 && b.word3 == 0

-- `count_ones`, and `count`, which calls it.
unfoldable pub count : HostBitmap → ℕ
count b = count_ones b.word0 + count_ones b.word1 + count_ones b.word2 + count_ones b.word3

-- The `for` loop of `first_set_bit` from `word_index` on.
unfoldable pub first_set_bit_from : ℕ → List ℕ → Option ℕ
first_set_bit_from word_index [] = none
first_set_bit_from word_index (word ∷ rest) =
    if word == 0
    then first_set_bit_from (word_index + 1) rest
    else some (word_index * bits_per_word + trailing_zeros word)

unfoldable pub first_set_bit : HostBitmap → Option ℕ
first_set_bit b = first_set_bit_from 0 (words b)

unfoldable pub and : HostBitmap → HostBitmap → HostBitmap
and a b = record {
  word0 = bit_and a.word0 b.word0;
  word1 = bit_and a.word1 b.word1;
  word2 = bit_and a.word2 b.word2;
  word3 = bit_and a.word3 b.word3;
}

unfoldable pub or : HostBitmap → HostBitmap → HostBitmap
or a b = record {
  word0 = bit_or a.word0 b.word0;
  word1 = bit_or a.word1 b.word1;
  word2 = bit_or a.word2 b.word2;
  word3 = bit_or a.word3 b.word3;
}

unfoldable pub minus : HostBitmap → HostBitmap → HostBitmap
minus a b = record {
  word0 = bit_and a.word0 (bit_not b.word0);
  word1 = bit_and a.word1 (bit_not b.word1);
  word2 = bit_and a.word2 (bit_not b.word2);
  word3 = bit_and a.word3 (bit_not b.word3);
}

-- `visit` is a step on the state that the closure changes. The inner `while` loop has `fuel`
-- rounds: each clears one of the 64 bits.
module _ {ℓ} {S : Type ℓ} (visit : S → ℕ → S) where
  unfoldable pub visit_word : ℕ → ℕ → ℕ → S → S
  visit_word zero base remaining s = s
  visit_word (suc fuel) base remaining s =
      let rest =
        visit_word fuel base (bit_and remaining (remaining - 1))
          (visit s (base + trailing_zeros remaining)) in
      if remaining == 0 then s else rest

  unfoldable pub visit_words : ℕ → List ℕ → S → S
  visit_words word_index [] s = s
  visit_words word_index (word ∷ rest) s =
      visit_words (word_index + 1) rest
        (visit_word bits_per_word (word_index * bits_per_word) word s)

  unfoldable pub for_each_set_bit : HostBitmap → S → S
  for_each_set_bit b s = visit_words 0 (words b) s

unfoldable pub iter_set_bits : HostBitmap → List ℕ
iter_set_bits b = for_each_set_bit (λ bits pod_id. bits ++ pod_id ∷ []) b []

-- For tests: all of the above, open.
unfoldable pub bitmap_code : Unit {0}
unfolding bit_not trailing_zeros trailing_zeros_in leading_zeros bit_length_in count_ones
    count_ones_in word_at set_word empty fill_words full_for_count highest_below
    highest_set_bit_plus_one set clear contains is_empty count first_set_bit_from first_set_bit and
    or minus visit_word visit_words for_each_set_bit iter_set_bits
bitmap_code = tt
