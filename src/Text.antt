-- ===== src/Text.antt =====
-- The methods of Rust's `str` that the source calls, on lists of code points.
pub mod Splitting
pub mod Literals
use calinix.Hash.{Text, is_whitespace}
use calinix.Prelude.{
  ℕ, ◌+◌, ◌-◌, ◌*◌, ◌≡◌, refl, ap₂, Bool, true, false, ◌&&◌, Option, none, some, [], ◌∷◌, arith,
  leb, ◌==◌, if◌then◌else◌,
}

unfoldable pub same_text : Text → Text → Bool
same_text [] [] = true
same_text [] (y ∷ ys) = false
same_text (x ∷ xs) [] = false
same_text (x ∷ xs) (y ∷ ys) = x == y && same_text xs ys

-- `text.trim().is_empty()`
unfoldable pub is_blank : Text → Bool
is_blank [] = true
is_blank (c ∷ cs) = is_whitespace c && is_blank cs

unfoldable pub strip_prefix : Text → Text → Option Text
strip_prefix [] text = some text
strip_prefix (p ∷ ps) [] = none
strip_prefix (p ∷ ps) (c ∷ cs) = if p == c then strip_prefix ps cs else none

-- `text.split_once(separator)`
unfoldable pub split_once : ℕ → Text → Option (Text × Text)
split_once separator [] = none
split_once separator (c ∷ cs) =
    let rest = split_once separator cs in
    if c == separator
    then some ([], cs)
    else elim rest [ none ↦ none | some (before, after) ↦ some (c ∷ before, after) ]

unfoldable pub starts_with : ℕ → Text → Bool
starts_with first [] = false
starts_with first (c ∷ cs) = c == first

-- `text.trim_end_matches(last)`
unfoldable pub trim_end_matches : ℕ → Text → Text
trim_end_matches last [] = []
trim_end_matches last (c ∷ cs) = elim (trim_end_matches last cs) [
  | [] ↦ if c == last then [] else c ∷ []
  | x ∷ xs ↦ c ∷ x ∷ xs
]

-- The digits of `parse::<u16>`, with the value so far: a character that is no digit, or a value
-- above 65535, is an error.
unfoldable pub parse_digits : ℕ → Text → Option ℕ
parse_digits value [] = some value
parse_digits value (c ∷ cs) =
    let rest = parse_digits (value * 10 + (c - 48)) cs in
    if leb 48 c && (leb c 57 && leb (value * 10 + (c - 48)) 65_535) then rest else none

-- `parse::<u16>`: at least one digit, after one optional `+`.
unfoldable pub parse_u16 : Text → Option ℕ
parse_u16 [] = none
parse_u16 (c ∷ []) = parse_digits 0 (c ∷ [])
parse_u16 (c ∷ d ∷ cs) = if c == 43 then parse_digits 0 (d ∷ cs) else parse_digits 0 (c ∷ d ∷ cs)

pub same_text-true : (xs ys : Text) → same_text xs ys ≡ true → xs ≡ ys
unfolding same_text
same_text-true [] [] h = refl
same_text-true [] (y ∷ ys) h = absurd (ground arith)
same_text-true (x ∷ xs) [] h = absurd (ground arith)
same_text-true (x ∷ xs) (y ∷ ys) h =
    ap₂ (λ a b. a ∷ b) (ground arith) (same_text-true xs ys (ground arith))

pub same_text_refl : (xs : Text) → same_text xs xs ≡ true
unfolding same_text
same_text_refl [] = refl
same_text_refl (x ∷ xs) = ground (arith, same_text_refl xs)
