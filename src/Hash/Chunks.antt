-- ===== src/Hash/Chunks.antt =====
-- Splitting a list into chunks: a full chunk stands first, and fuel beyond the length is unused.
use calinix.Hash.{chunks, chunks_in, drop}
use calinix.Prelude.{
  ℕ, zero, suc, ◌-◌, ◌≤◌, ◌<◌, ◌≡◌, refl, ap, List, [], ◌∷◌, ◌++◌, arith, length, take,
  length-append,
}

module _ {ℓ} {A : Type ℓ} where
  length-drop : (n : ℕ) (xs : List A) → length (drop n xs) ≡ length xs - n
  length-drop zero xs = omega arith
  length-drop (suc n) [] = omega arith
  length-drop (suc n) (x ∷ xs) = omega (arith, length-drop n xs)

  take-append_exact : (xs ys : List A) → take (length xs) (xs ++ ys) ≡ xs
  take-append_exact [] ys = refl
  take-append_exact (x ∷ xs) ys = ap (◌∷◌ x) (take-append_exact xs ys)

  drop-append_exact : (xs ys : List A) → drop (length xs) (xs ++ ys) ≡ ys
  drop-append_exact [] ys = refl
  drop-append_exact (x ∷ xs) ys = drop-append_exact xs ys

  take-all : (n : ℕ) (xs : List A) → length xs ≤ n → take n xs ≡ xs
  take-all zero [] h = refl
  take-all zero (x ∷ xs) h = absurd (omega arith)
  take-all (suc n) [] h = refl
  take-all (suc n) (x ∷ xs) h = ap (◌∷◌ x) (take-all n xs (omega arith))

  drop-all : (n : ℕ) (xs : List A) → length xs ≤ n → drop n xs ≡ []
  drop-all zero [] h = refl
  drop-all zero (x ∷ xs) h = absurd (omega arith)
  drop-all (suc n) [] h = refl
  drop-all (suc n) (x ∷ xs) h = drop-all n xs (omega arith)

  chunks_in_fuel :
      (f g n : ℕ) (xs : List A)
      → 0 < n
      → length xs ≤ f
      → length xs ≤ g
      → chunks_in f n xs ≡ chunks_in g n xs
  unfolding chunks_in
  chunks_in_fuel f g n [] pos p q = refl
  chunks_in_fuel zero g n (x ∷ xs) pos p q = absurd (omega arith)
  chunks_in_fuel (suc f) zero n (x ∷ xs) pos p q = absurd (omega arith)
  chunks_in_fuel (suc f) (suc g) n (x ∷ xs) pos p q =
      let rest = drop n (x ∷ xs) in
      let shorter : length rest ≤ length xs = omega (arith, length-drop n (x ∷ xs)) in
      ap (◌∷◌ (take n (x ∷ xs))) (chunks_in_fuel f g n rest pos (omega arith) (omega arith))

  pub chunks-nil : (n : ℕ) → chunks {A = A} n [] ≡ []
  unfolding chunks chunks_in
  chunks-nil n = refl

  -- A full chunk in front.
  pub chunks-append :
      (n : ℕ) (xs ys : List A) → 0 < n → length xs ≡ n → chunks n (xs ++ ys) ≡ xs ∷ chunks n ys
  unfolding chunks chunks_in
  chunks-append n [] ys pos e = absurd (omega arith)
  chunks-append n (x ∷ xs) ys pos e =
      let full = x ∷ xs in
      let more : length ys ≤ length (xs ++ ys) = omega (arith, length-append xs ys) in
      rw (← e, take-append_exact full ys, drop-append_exact full ys)
        (ap (◌∷◌ full) (
          chunks_in_fuel (length (xs ++ ys)) (length ys) (length full) ys (omega arith) more
            (omega arith)))

  -- What is left at the end is one shorter chunk, or none.
  pub chunks_last :
      (n : ℕ) (x : A) (xs : List A) → length (x ∷ xs) ≤ n → chunks n (x ∷ xs) ≡ (x ∷ xs) ∷ []
  unfolding chunks chunks_in
  chunks_last n x xs h = rw (take-all n (x ∷ xs) h, drop-all n (x ∷ xs) h)
