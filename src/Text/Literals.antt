-- ===== src/Text/Literals.antt =====
-- Literals of texts, and the decimal numerals that `to_string` prints.
use Prim.Native.Char.{code}
use Prim.Native.String.{String}
use calinix.Hash.{Text}
use calinix.Text.Splitting.{Lacks, Lacks-append}
use calinix.Text.{parse_digits, parse_u16}
use calinix.Prelude.{
  ℕ, zero, suc, ◌+◌, ◌-◌, ◌*◌, ◌/◌, ◌%◌, ◌≤◌, ◌<◌, ◌≡◌, refl, sym, ap, ◌∙◌, inl, inr, Bool, true,
  false, some, [], ◌∷◌, ◌++◌, arith, ltb, if◌then◌else◌, ltb→lt, Bool-cases,
}

-- The characters of a literal.
abbrev pub chars : String → Text
chars String.[] = []
chars (String.◌∷◌ c s) = code c ∷ chars s

-- Only visible ASCII characters.
abbrev pub IsVisible : Text → Type 0
IsVisible [] = Unit {0}
IsVisible (c ∷ cs) = (32 ≤ c) × (c ≤ 126) × IsVisible cs

-- `rounds` bounds the number of digits.
unfoldable pub digits : ℕ → ℕ → Text
digits zero n = []
digits (suc rounds) n =
    let front = digits rounds (n / 10) in
    if ltb n 10 then (48 + n) ∷ [] else front ++ (48 + n % 10) ∷ []

-- `to_string` of an unsigned integer: a number has no more digits than its successor.
unfoldable pub to_string : ℕ → Text
unfolding digits
to_string n = digits (suc n) n

numerals : (to_string 0 ≡ chars "0") × (to_string 65535 ≡ chars "65535")
unfolding to_string
numerals = (refl, refl)

IsVisible-append : (s t : Text) → IsVisible s → IsVisible t → IsVisible (s ++ t)
IsVisible-append [] t v w = w
IsVisible-append (c ∷ s) t (low, high, v) w = (low, high, IsVisible-append s t v w)

digits-IsVisible : (rounds n : ℕ) → IsVisible (digits rounds n)
unfolding digits
digits-IsVisible zero n = tt
digits-IsVisible (suc rounds) n = elim (Bool-cases (ltb n 10)) [
  | inl small ↦ rw small (omega (arith, ltb→lt n 10 small))
  | inr large ↦ rw large (IsVisible-append _ _ (digits-IsVisible rounds (n / 10)) (omega arith))
]

-- A numeral may stand in a header.
pub to_string-IsVisible : (n : ℕ) → IsVisible (to_string n)
unfolding to_string
to_string-IsVisible n = digits-IsVisible (suc n) n

parse_digits-append :
    (value : ℕ) (s t : Text) (n : ℕ)
    → parse_digits value s ≡ some n
    → parse_digits value (s ++ t) ≡ parse_digits n t
unfolding parse_digits
parse_digits-append value [] t n h = ground arith
parse_digits-append value (c ∷ s) t n h =
    ground (arith, parse_digits-append (value * 10 + (c - 48)) s t n)

parse_digits-digits :
    (rounds n : ℕ) → n < rounds → n ≤ 65_535 → parse_digits 0 (digits rounds n) ≡ some n
unfolding digits parse_digits
parse_digits-digits zero n h k = absurd (omega arith)
parse_digits-digits (suc rounds) n h k = elim (Bool-cases (ltb n 10)) [
  | inl small ↦ rw small (ground (arith, ltb→lt n 10 small))
  | inr large ↦
      rw
        (
          large,
          parse_digits-append 0 (digits rounds (n / 10)) ((48 + n % 10) ∷ []) (n / 10)
              (parse_digits-digits rounds (n / 10) (ground arith) (omega arith)),
        )
        (ground arith)
]

-- `text.is_empty()`
unfoldable pub is_empty : Text → Bool
is_empty [] = true
is_empty (c ∷ cs) = false

is_empty-append : (s : Text) (c : ℕ) → is_empty (s ++ c ∷ []) ≡ false
unfolding is_empty
is_empty-append [] c = refl
is_empty-append (x ∷ s) c = refl

pub is_empty-to_string : (n : ℕ) → is_empty (to_string n) ≡ false
unfolding to_string digits is_empty
is_empty-to_string n = elim (Bool-cases (ltb n 10)) [
  | inl small ↦ rw small refl
  | inr large ↦ rw large (is_empty-append _ _)
]

parse_u16-parse_digits :
    (t : Text) (n : ℕ) → is_empty t ≡ false → parse_digits 0 t ≡ some n → parse_u16 t ≡ some n
unfolding is_empty parse_u16 parse_digits
parse_u16-parse_digits [] n e h = absurd (ground arith)
parse_u16-parse_digits (c ∷ []) n e h = ground arith
parse_u16-parse_digits (c ∷ d ∷ cs) n e h = ground arith

-- What `to_string` prints for a number below 65536, `parse::<u16>` reads back.
pub parse_u16-to_string : (n : ℕ) → n ≤ 65_535 → parse_u16 (to_string n) ≡ some n
unfolding to_string
parse_u16-to_string n h =
    parse_u16-parse_digits (digits (suc n) n) n (is_empty-to_string n)
      (parse_digits-digits (suc n) n (omega arith) h)

-- The digit of a lower-case hexadecimal numeral.
unfoldable pub hex_digit : ℕ → ℕ
hex_digit d = if ltb d 10 then 48 + d else 87 + d

unfoldable pub hex_digits : ℕ → ℕ → Text
unfolding hex_digit
hex_digits zero n = []
hex_digits (suc rounds) n =
    let front = hex_digits rounds (n / 16) in
    if ltb n 16 then hex_digit n ∷ [] else front ++ hex_digit (n % 16) ∷ []

-- `format!("{n:x}")`
unfoldable pub to_hex : ℕ → Text
unfolding hex_digits
to_hex n = hex_digits (suc n) n

-- The number that a hexadecimal numeral stands for.
abbrev of_hex : ℕ → Text → ℕ
of_hex value [] = value
of_hex value (c ∷ cs) = of_hex (value * 16 + (if ltb c 58 then c - 48 else c - 87)) cs

of_hex-append : (value : ℕ) (s t : Text) → of_hex value (s ++ t) ≡ of_hex (of_hex value s) t
of_hex-append value [] t = refl
of_hex-append value (c ∷ s) t =
    of_hex-append (value * 16 + (if ltb c 58 then c - 48 else c - 87)) s t

of_hex-hex_digits : (rounds n : ℕ) → n < rounds → of_hex 0 (hex_digits rounds n) ≡ n
unfolding hex_digits hex_digit
of_hex-hex_digits zero n h = absurd (omega arith)
of_hex-hex_digits (suc rounds) n h = elim (Bool-cases (ltb n 16)) [
  | inl small ↦ rw small (ground (arith, ltb→lt n 16 small))
  | inr large ↦
      rw
        (
          large,
          of_hex-append 0 (hex_digits rounds (n / 16)) (hex_digit (n % 16) ∷ []),
          of_hex-hex_digits rounds (n / 16) (ground arith),
        )
        (ground arith)
]

-- Different numbers have different hexadecimal numerals.
pub to_hex-injective : (m n : ℕ) → to_hex m ≡ to_hex n → m ≡ n
unfolding to_hex
to_hex-injective m n h =
    sym (of_hex-hex_digits (suc m) m (omega arith))
    ∙ (ap (of_hex 0) h ∙ of_hex-hex_digits (suc n) n (omega arith))

hex_digits_ne : (c : ℕ) (rounds n : ℕ) → c < 48 → Lacks c (hex_digits rounds n)
unfolding hex_digits hex_digit
hex_digits_ne c zero n h = tt
hex_digits_ne c (suc rounds) n h = elim (Bool-cases (ltb n 16)) [
  | inl small ↦ rw small (ground arith, tt)
  | inr large ↦ rw large (Lacks-append c _ _ (hex_digits_ne c rounds (n / 16) h) (ground arith, tt))
]

-- No digit is a hyphen.
pub to_hex-Lacks : (n : ℕ) → Lacks 45 (to_hex n)
unfolding to_hex
to_hex-Lacks n = hex_digits_ne 45 (suc n) n (omega arith)
