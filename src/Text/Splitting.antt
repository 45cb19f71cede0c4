-- ===== src/Text/Splitting.antt =====
-- Splitting a text that was put together.
use calinix.Hash.{Text}
use calinix.Text.{strip_prefix, split_once, starts_with, trim_end_matches}
use calinix.Prelude.{
  ℕ, ◌≡◌, refl, sym, ap, ap₂, ◌∙◌, ◌⊎◌, inl, inr, true, false, Option, none, some, [], ◌∷◌, ◌++◌,
  arith, ◌==◌, if◌then◌else◌, ==_iff, Bool-cases,
}

abbrev pub Lacks : ℕ → Text → Type 0
Lacks c [] = Unit {0}
Lacks c (x ∷ xs) = ((x == c) ≡ false) × Lacks c xs

pub strip_prefix-append : (ps cs : Text) → strip_prefix ps (ps ++ cs) ≡ some cs
unfolding strip_prefix
strip_prefix-append [] cs = refl
strip_prefix-append (p ∷ ps) cs = ground (arith, strip_prefix-append ps cs)

-- The first separator ends the text before it.
pub split_once-append :
    (c : ℕ) (before after : Text)
    → Lacks c before
    → split_once c (before ++ c ∷ after) ≡ some (before, after)
unfolding split_once
split_once-append c [] after v = ground arith
split_once-append c (x ∷ xs) after (other, v) = rw (other, split_once-append c xs after v)

pub split_once-Lacks : (c : ℕ) (text : Text) → Lacks c text → split_once c text ≡ none
unfolding split_once
split_once-Lacks c [] v = refl
split_once-Lacks c (x ∷ xs) (other, v) = rw (other, split_once-Lacks c xs v)

pub Lacks-append :
    (c : ℕ) (before after : Text) → Lacks c before → Lacks c after → Lacks c (before ++ after)
Lacks-append c [] after v w = w
Lacks-append c (x ∷ xs) after (other, v) w = (other, Lacks-append c xs after v w)

-- A text that is trimmed keeps its first character, or loses all of them.
pub starts_with-trim_end_matches :
    (first last : ℕ) (before after : Text)
    → starts_with first before ≡ true
    → starts_with first after ≡ true
    → starts_with first (trim_end_matches last before ++ after) ≡ true
unfolding starts_with trim_end_matches
starts_with-trim_end_matches first last [] after h k = absurd (ground arith)
starts_with-trim_end_matches first last (x ∷ xs) after h k =
    trimmed (trim_end_matches last xs) (Bool-cases (x == last))
  where
    trimmed :
        (rest : Text)
        → ((x == last) ≡ true) ⊎ ((x == last) ≡ false)
        → starts_with first
            (elim rest [ [] ↦ if x == last then [] else x ∷ [] | y ∷ ys ↦ x ∷ y ∷ ys ] ++ after)
          ≡ true
    trimmed [] (inl same) = rw same k
    trimmed [] (inr other) = rw other h
    trimmed (y ∷ ys) c = h

-- What is left is what follows the prefix.
pub strip_prefix-some : (ps text rest : Text) → strip_prefix ps text ≡ some rest → text ≡ ps ++ rest
unfolding strip_prefix
strip_prefix-some [] text rest h = ap (λ o. elim o [ none ↦ text | some r ↦ r ]) h
strip_prefix-some (p ∷ ps) [] rest h = absurd (ground arith)
strip_prefix-some (p ∷ ps) (c ∷ cs) rest h = elim (Bool-cases (p == c)) [
  | inr other ↦ absurd (ground arith)
  | inl same ↦
      ap₂ (λ x xs. x ∷ xs) (sym ((==_iff p c).0 same))
        (strip_prefix-some ps cs rest
          (sym (ap (λ t. if t then strip_prefix ps cs else none) same) ∙ h))
]

-- What a split says: the text before the first separator and the text after it, or that there is no
-- separator.
abbrev pub IsSplit : ℕ → Text → Option (Text × Text) → Type 0
IsSplit c text none = Lacks c text
IsSplit c text (some parts) = (text ≡ parts.0 ++ c ∷ parts.1) × Lacks c parts.0

pub split_once-IsSplit : (c : ℕ) (text : Text) → IsSplit c text (split_once c text)
unfolding split_once
split_once-IsSplit c [] = tt
split_once-IsSplit c (x ∷ xs) = elim (Bool-cases (x == c)) [
  | inl same ↦ rw same (ap (λ z. z ∷ xs) ((==_iff x c).0 same), tt)
  | inr other ↦ rw other (longer (split_once c xs) other (split_once-IsSplit c xs))
]
  where
    longer :
        (o : Option (Text × Text))
        → (x == c) ≡ false
        → IsSplit c xs o
        → IsSplit c
            (x ∷ xs)
            (elim o [ none ↦ none | some (before, after) ↦ some (x ∷ before, after) ])
    longer none other v = (other, v)
    longer (some parts) other (split, lacks) = (ap (λ ys. x ∷ ys) split, (other, lacks))
