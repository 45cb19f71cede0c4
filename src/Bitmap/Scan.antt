-- ===== src/Bitmap/Scan.antt =====
-- `for_each_set_bit` visits exactly the members, in ascending order, within 64 rounds a word.
use native.Mathlib.Nat.{pow-suc, add-zero, zero-add}
use calinix.Word.{trailing_zeros}
use calinix.Word.Bits.{test_bit}
use calinix.Word.Lowest.{mul-two_pow-suc, trailing_zeros_in_odd, odd_pos, bit_and-pred}
use calinix.Bitmap.{
  HostBitmap, word_at, contains, visit_word, visit_words, for_each_set_bit, iter_set_bits,
}
use calinix.Bitmap.Members.{IsWords, contains_at, word_at-lt}
use calinix.Prelude.{
  ℕ, zero, suc, ◌+◌, ◌*◌, ◌/◌, ◌%◌, ◌^◌, ◌≤◌, ◌<◌, ◌==◌, ◌≡◌, refl, arith, Bool, true, false,
  if◌then◌else◌, List, [], ◌∷◌, ◌++◌, Bool-cases, inl, inr, ◌∙◌, ap, sym, append-nil, append_assoc,
}

-- The numbers from `base` on, `n` of them, that pass the test, in ascending order.
unfoldable pub range_where : (ℕ → Bool) → ℕ → ℕ → List ℕ
range_where p zero base = []
range_where p (suc n) base =
    let rest = range_where p n (base + 1) in if p base then base ∷ rest else rest

module _ {ℓ} {S : Type ℓ} (visit : S → ℕ → S) where
  -- A loop over a list.
  unfoldable pub visit_all : List ℕ → S → S
  visit_all [] s = s
  visit_all (x ∷ xs) s = visit_all xs (visit s x)

  pub visit_all-append :
      (xs ys : List ℕ) (s : S) → visit_all (xs ++ ys) s ≡ visit_all ys (visit_all xs s)
  unfolding visit_all
  visit_all-append [] ys s = refl
  visit_all-append (x ∷ xs) ys s = visit_all-append xs ys (visit s x)

  visit_word-zero : (fuel base : ℕ) (s : S) → visit_word visit fuel base 0 s ≡ s
  unfolding visit_word
  visit_word-zero zero base s = refl
  visit_word-zero (suc fuel) base s = refl

  visit_word-odd :
      (fuel base m j : ℕ) (s : S)
      → j < 64
      → visit_word visit (suc fuel) base ((2 * m + 1) * 2 ^ j) s
        ≡ visit_word visit fuel base (m * 2 ^ suc j) (visit s (base + j))
  unfolding visit_word trailing_zeros
  visit_word-odd fuel base m j s h =
      let nonzero : ((2 * m + 1) * 2 ^ j == 0) ≡ false = ground (arith, odd_pos m j) in
      rw (nonzero, bit_and-pred m j, trailing_zeros_in_odd 64 m j h)

-- The digits of `m`, which stand at `base` and above.
unfoldable pub digits_from : ℕ → ℕ → ℕ → List ℕ
digits_from zero base m = []
digits_from (suc n) base m =
    let rest = digits_from n (base + 1) (m / 2) in if m % 2 == 1 then base ∷ rest else rest

module _ {ℓ} {S : Type ℓ} (visit : S → ℕ → S) where
  visit_word-digits :
      (n fuel base j m : ℕ) (s : S)
      → n ≤ fuel
      → m < 2 ^ n
      → j + n ≤ 64
      → visit_word visit fuel base (m * 2 ^ j) s ≡ visit_all visit (digits_from n (base + j) m) s
  unfolding digits_from visit_all
  visit_word-digits zero fuel base j m s f h p =
      let none : m * 2 ^ j ≡ 0 = rw (zero_of m h) (omega arith) in
      rw (none) (visit_word-zero visit fuel base s)
    where
      zero_of : (m : ℕ) → m < 1 → m ≡ 0
      zero_of m h = omega arith
  visit_word-digits (suc n) zero base j m s f h p = absurd (omega arith)
  visit_word-digits (suc n) (suc fuel) base j m s f h p =
      let below : m / 2 < 2 ^ n = omega (arith, pow-suc 2 n) in
      let place : base + suc j ≡ base + j + 1 = omega arith in
      elim (Bool-cases (m % 2 == 1)) [
        | inl odd ↦
            let word : m * 2 ^ j ≡ (2 * (m / 2) + 1) * 2 ^ j =
              ap (λ (t : ℕ). t * 2 ^ j) (ground arith) in
            let ih =
              visit_word-digits n fuel base (suc j) (m / 2) (visit s (base + j)) (omega arith) below
                (omega arith) in
            rw (odd, word, visit_word-odd visit fuel base (m / 2) j s (omega arith), ← place) ih
        | inr even ↦
            let word : m * 2 ^ j ≡ (m / 2) * 2 ^ suc j = shift m j even in
            let ih =
              visit_word-digits n (suc fuel) base (suc j) (m / 2) s (omega arith) below
                (omega arith) in
            rw (even, word, ← place) ih
      ]
    where
      shift : (m j : ℕ) → (m % 2 == 1) ≡ false → m * 2 ^ j ≡ (m / 2) * 2 ^ suc j
      shift m j even =
          let twice : m ≡ 2 * (m / 2) = ground arith in
          ap (λ (t : ℕ). t * 2 ^ j) twice ∙ omega (arith, mul-two_pow-suc (m / 2) j)

-- The digits of a word are the positions that pass a test which agrees with them.
pub digits_from-range :
    (p : ℕ → Bool) (n base m : ℕ)
    → ((k : ℕ) → k < n → p (base + k) ≡ test_bit m k)
    → digits_from n base m ≡ range_where p n base
unfolding digits_from range_where test_bit
digits_from-range p zero base m agree = refl
digits_from-range p (suc n) base m agree =
    let first : p base ≡ (m % 2 == 1) = rw (← add-zero base) (agree 0 (omega arith)) in
    let rest =
      digits_from-range p n (base + 1) (m / 2) (λ k h. rw (next k) (agree (suc k) (omega arith))) in
    rw (first, rest)
  where
    next : (k : ℕ) → base + 1 + k ≡ base + suc k
    next k = omega arith

pub range_where-append :
    (p : ℕ → Bool) (n m base : ℕ)
    → range_where p (n + m) base ≡ range_where p n base ++ range_where p m (base + n)
unfolding range_where
range_where-append p zero m base = rw (zero-add, add-zero)
range_where-append p (suc n) m base =
    rw (shifted, range_where-append p n m (base + 1), place) (pull (p base) _ _)
  where
    shifted : suc n + m ≡ suc (n + m)
    shifted = omega arith

    place : base + 1 + n ≡ base + suc n
    place = omega arith

    pull :
        (t : Bool) (xs ys : List ℕ)
        → (if t then base ∷ xs ++ ys else xs ++ ys) ≡ (if t then base ∷ xs else xs) ++ ys
    pull true xs ys = refl
    pull false xs ys = refl

module _ {ℓ} {S : Type ℓ} (visit : S → ℕ → S) where
  visit_word-range :
      (b : HostBitmap) (j : ℕ) (s : S)
      → j < 4
      → IsWords b
      → visit_word visit 64 (j * 64) (word_at b j) s
        ≡ visit_all visit (range_where (contains b) 64 (j * 64)) s
  visit_word-range b j s h v =
      let below = word_at-lt b j v in
      rw (unshifted) (
        visit_word-digits visit 64 64 (j * 64) 0 (word_at b j) s (omega arith) below (omega arith)
        ∙ rw (
          add-zero (j * 64),
          digits_from-range (contains b) 64 (j * 64) (word_at b j) (λ k p. contains_at b j k h p),
        ))
    where
      unshifted : word_at b j ≡ word_at b j * 2 ^ 0
      unshifted = omega arith

  visit_all-range :
      (b : HostBitmap) (s : S)
      → visit_all visit (range_where (contains b) 256 0) s
        ≡ visit_all visit (range_where (contains b) 64 192) (
            visit_all visit (range_where (contains b) 64 128) (
              visit_all visit
                (range_where (contains b) 64 64)
                (visit_all visit (range_where (contains b) 64 0) s)))
  visit_all-range b s = rw (
    range_where-append (contains b) 64 192 0,
    range_where-append (contains b) 64 128 64,
    range_where-append (contains b) 64 64 128,
    visit_all-append visit (range_where (contains b) 64 0),
    visit_all-append visit (range_where (contains b) 64 64),
    visit_all-append visit (range_where (contains b) 64 128),
  )

  -- In u64 words, the callback is applied to the members, each once, in ascending order.
  pub for_each_set_bit-range :
      (b : HostBitmap) (s : S)
      → IsWords b
      → for_each_set_bit visit b s ≡ visit_all visit (range_where (contains b) 256 0) s
  unfolding for_each_set_bit visit_words word_at
  for_each_set_bit-range b s v =
      let s0 = visit_all visit (range_where (contains b) 64 0) s in
      let s1 = visit_all visit (range_where (contains b) 64 64) s0 in
      let s2 = visit_all visit (range_where (contains b) 64 128) s1 in
      let p0 = visit_word-range b 0 s (omega arith) v in
      let p1 = visit_word-range b 1 s0 (omega arith) v in
      let p2 = visit_word-range b 2 s1 (omega arith) v in
      let p3 = visit_word-range b 3 s2 (omega arith) v in
      ap (visit_word visit 64 192 b.word3)
        (ap (visit_word visit 64 128 b.word2) (ap (visit_word visit 64 64 b.word1) p0 ∙ p1) ∙ p2)
      ∙ p3
      ∙ sym (visit_all-range b s)

collect : (bits xs : List ℕ) → visit_all (λ ys pod_id. ys ++ pod_id ∷ []) xs bits ≡ bits ++ xs
unfolding visit_all
collect bits [] = sym (append-nil bits)
collect bits (x ∷ xs) = collect (bits ++ x ∷ []) xs ∙ append_assoc bits (x ∷ []) xs

-- In u64 words, the listed bits are the members, each once, in ascending order.
pub iter_set_bits-range :
    (b : HostBitmap) → IsWords b → iter_set_bits b ≡ range_where (contains b) 256 0
unfolding iter_set_bits
iter_set_bits-range b v =
    for_each_set_bit-range (λ bits pod_id. bits ++ pod_id ∷ []) b [] v ∙ collect [] _
