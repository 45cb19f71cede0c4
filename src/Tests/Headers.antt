-- ===== src/Tests/Headers.antt =====
-- Header maps as lists of entries, which obey the laws, and the headers of a small plan.
use calinix.Hash.{Text}
use calinix.Http.{HeaderMaps, IsHeaderMap, values_of, first_of}
use calinix.Text.{same_text, same_text-true, same_text_refl}
use calinix.Text.Literals.{IsVisible}
use calinix.Prelude.{
  ◌≡◌, refl, sym, ap, ◌∙◌, inl, inr, Bool, true, false, ◌&&◌, Option, none, some, List, [], ◌∷◌,
  ◌++◌, arith, leb, if◌then◌else◌, Bool-cases,
}

abbrev pub Entries : Type 0
Entries = List (Text × Text)

unfoldable pub without : Text → Entries → Entries
without name [] = []
without name ((n, v) ∷ es) = if same_text n name then without name es else (n, v) ∷ without name es

unfoldable pub is_visible : Text → Bool
is_visible [] = true
is_visible (c ∷ cs) = leb 32 c && (leb c 126 && is_visible cs)

unfoldable pub visible_text : Text → Option Text
unfolding is_visible
visible_text t = if is_visible t then some t else none

abbrev pub entry_lists : HeaderMaps Entries Text
entry_lists = record {
  empty = [];
  get = λ h m. first_of (values_of m h);
  get_all = λ h m. values_of m h;
  insert = λ h n v. (n, v) ∷ without n h;
  append = λ h n v. h ++ (n, v) ∷ [];
  remove = λ h n. without n h;
  entries = λ h. h;
  from_str = visible_text;
  from_static = λ t. t;
  to_str = visible_text;
}

values_of-without :
    (h : Entries) (n m : Text)
    → values_of m (without n h) ≡ (if same_text n m then [] else values_of m h)
unfolding without
values_of-without [] n m = ground arith
values_of-without ((k, v) ∷ h) n m = elim (Bool-cases (same_text k n)) [
  | inl same ↦ elim (Bool-cases (same_text n m)) [
    | inl removed ↦ rw same (values_of-without h n m ∙ rw removed refl)
    | inr kept ↦
        rw (same, ap (λ a. same_text a m) (same_text-true k n same) ∙ kept)
          (values_of-without h n m)
  ]
  | inr other ↦ elim (Bool-cases (same_text k m)) [
    | inl here ↦
        rw (other, here, values_of-without h n m)
          (rw (ap (λ a. same_text n a) (sym (same_text-true k m here)) ∙ sym_false n k other) refl)
    | inr there ↦ rw (other, there) (values_of-without h n m)
  ]
]
  where
    sym_false : (n k : Text) → same_text k n ≡ false → same_text n k ≡ false
    sym_false n k other = elim (Bool-cases (same_text n k)) [
      | inl same ↦ absurd (
          ground
            (arith, other, ap (λ a. same_text a n) (same_text-true n k same), same_text_refl n))
      | inr differ ↦ differ
    ]

values_of-append :
    (h : Entries) (n v m : Text)
    → values_of m (h ++ (n, v) ∷ [])
      ≡ (if same_text n m then values_of m h ++ v ∷ [] else values_of m h)
values_of-append [] n v m = elim (Bool-cases (same_text n m)) [
  | inl same ↦ rw same refl
  | inr other ↦ rw other refl
]
values_of-append ((k, w) ∷ h) n v m =
    rw (values_of-append h n v m) (elim (Bool-cases (same_text n m)) [
      | inl same ↦ elim (Bool-cases (same_text k m)) [
        | inl here ↦ rw (same, here) refl
        | inr there ↦ rw (same, there) refl
      ]
      | inr other ↦ rw other refl
    ])

is_visible-IsVisible : (t : Text) → IsVisible t → is_visible t ≡ true
unfolding is_visible
is_visible-IsVisible [] v = refl
is_visible-IsVisible (c ∷ t) (low, high, v) = ground (arith, is_visible-IsVisible t v)

visible_text-some : (t u : Text) → visible_text t ≡ some u → t ≡ u
unfolding visible_text
visible_text-some t u h = elim (Bool-cases (is_visible t)) [
  | inl visible ↦
      ap (λ o. elim o [ none ↦ [] | some a ↦ a ])
        (sym (ap (λ b. if b then some t else none) visible) ∙ h)
  | inr hidden ↦ absurd (ground arith)
]

turned : (t u : Text) → visible_text t ≡ some u → visible_text u ≡ some t
turned t u h =
    let same = visible_text-some t u h in ap visible_text (sym same) ∙ (h ∙ ap some (sym same))

pub entry_lists-IsHeaderMap : IsHeaderMap entry_lists
unfolding visible_text
entry_lists-IsHeaderMap = record {
  get_all-empty = λ m. refl;
  get_all-insert = λ h n v m. inserted h n v m;
  get_all-append = values_of-append;
  get_all-remove = values_of-without;
  get_all-entries = λ h m. refl;
  get-get_all = λ h m. refl;
  from_str-visible = λ t v. (t, rw (is_visible-IsVisible t v) refl);
  from_str-to_str = λ v t h. turned v t h;
  to_str-from_str = λ v t visible h. turned t v h;
  from_static-from_str = λ v t h. visible_text-some t v h;
}
  where
    inserted :
        (h : Entries) (n v m : Text)
        → values_of m ((n, v) ∷ without n h) ≡ (if same_text n m then v ∷ [] else values_of m h)
    inserted h n v m = elim (Bool-cases (same_text n m)) [
      | inl same ↦ rw (same, values_of-without h n m) (rw same refl)
      | inr other ↦ rw (other, values_of-without h n m) (rw other refl)
    ]
