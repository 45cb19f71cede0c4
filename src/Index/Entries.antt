-- ===== src/Index/Entries.antt =====
-- One shard of the index: the hash map from prefix hashes to owners, its operations, and that
-- they keep one entry a key, u64 words, and no entry without owners.
use calinix.Bitmap
use calinix.Bitmap.{HostBitmap}
use calinix.Bitmap.Members.{IsWords}
use calinix.Hash.{BlockHash}
use calinix.Prelude.{
  ◌≤◌, ◌≡◌, refl, ap, ◌∙◌, inl, inr, false, not, Option, none, some, List, [], ◌∷◌, arith, ◌==◌,
  if◌then◌else◌, Bool-cases, length,
}

abbrev pub Shard : Type 0
Shard = List (BlockHash × HostBitmap)

unfoldable pub get : BlockHash → Shard → Option HostBitmap
get h [] = none
get h ((k, owners) ∷ shard) = if k == h then some owners else get h shard

-- `insert`, or the write through `get_mut` and `or_insert_with`.
unfoldable pub insert : BlockHash → HostBitmap → Shard → Shard
insert h v [] = (h, v) ∷ []
insert h v ((k, owners) ∷ shard) = if k == h then (k, v) ∷ shard else (k, owners) ∷ insert h v shard

-- `entry(h).or_insert_with(...)`
unfoldable pub or_insert : BlockHash → HostBitmap → Shard → Shard
or_insert h v shard = elim (get h shard) [ none ↦ insert h v shard | some _ ↦ shard ]

unfoldable pub remove : BlockHash → Shard → Shard
remove h [] = []
remove h ((k, owners) ∷ shard) = if k == h then shard else (k, owners) ∷ remove h shard

-- `retain` with a closure that first writes `keep owners` and then asks for owners that are left.
unfoldable pub retain : (HostBitmap → HostBitmap) → Shard → Shard
retain keep [] = []
retain keep ((k, owners) ∷ shard) =
    let rest = retain keep shard in
    if not (Bitmap.is_empty (keep owners)) then (k, keep owners) ∷ rest else rest

-- One entry a key, u64 words, no entry without owners.
abbrev pub IsShard : Shard → Type 0
IsShard [] = Unit {0}
IsShard ((k, owners) ∷ shard) =
    (get k shard ≡ none) × IsWords owners × (Bitmap.is_empty owners ≡ false) × IsShard shard

pub get-insert :
    (h h' : BlockHash) (v : HostBitmap) (shard : Shard)
    → get h' (insert h v shard) ≡ (if h == h' then some v else get h' shard)
unfolding get insert
get-insert h h' v [] = refl
get-insert h h' v ((k, owners) ∷ shard) = ground (arith, get-insert h h' v shard)

pub insert-IsShard :
    (h : BlockHash) (v : HostBitmap) (shard : Shard)
    → IsWords v
    → Bitmap.is_empty v ≡ false
    → IsShard shard
    → IsShard (insert h v shard)
unfolding insert get
insert-IsShard h v [] w e s = (refl, w, e, tt)
insert-IsShard h v ((k, owners) ∷ shard) w e s = elim (Bool-cases (k == h)) [
  | inl same ↦ rw same (s.0, w, e, s.3)
  | inr other ↦
      rw other (ground (arith, get-insert h k v shard), s.1, s.2, insert-IsShard h v shard w e s.3)
]

pub get-remove :
    (h h' : BlockHash) (shard : Shard)
    → IsShard shard
    → get h' (remove h shard) ≡ (if h == h' then none else get h' shard)
unfolding get remove
get-remove h h' [] s = ground arith
get-remove h h' ((k, owners) ∷ shard) s = ground (arith, get-remove h h' shard s.3, s.0)

pub remove-IsShard : (h : BlockHash) (shard : Shard) → IsShard shard → IsShard (remove h shard)
unfolding remove get
remove-IsShard h [] s = tt
remove-IsShard h ((k, owners) ∷ shard) s = elim (Bool-cases (k == h)) [
  | inl same ↦ rw same s.3
  | inr other ↦
      rw other (ground (arith, get-remove h k shard s.3, s.0), s.1, s.2, remove-IsShard h shard s.3)
]

-- The owners that `retain` leaves at a key.
abbrev pub kept : (HostBitmap → HostBitmap) → Option HostBitmap → Option HostBitmap
kept keep none = none
kept keep (some owners) = if not (Bitmap.is_empty (keep owners)) then some (keep owners) else none

pub get-retain :
    (keep : HostBitmap → HostBitmap) (h : BlockHash) (shard : Shard)
    → IsShard shard
    → get h (retain keep shard) ≡ kept keep (get h shard)
unfolding get retain
get-retain keep h [] s = refl
get-retain keep h ((k, owners) ∷ shard) s = ground (arith, get-retain keep h shard s.3, s.0)

pub retain-IsShard :
    (keep : HostBitmap → HostBitmap) (shard : Shard)
    → ((b : HostBitmap) → IsWords b → IsWords (keep b))
    → IsShard shard
    → IsShard (retain keep shard)
unfolding retain
retain-IsShard keep [] w s = tt
retain-IsShard keep ((k, owners) ∷ shard) w s =
    let rest = retain-IsShard keep shard w s.3 in
    elim (Bool-cases (Bitmap.is_empty (keep owners))) [
      | inl gone ↦ rw gone rest
      | inr left ↦
          rw left (get-retain keep k shard s.3 ∙ ap (kept keep) s.0, w owners s.1, left, rest)
    ]

-- Fewer entries, never more.
pub length-retain :
    (keep : HostBitmap → HostBitmap) (shard : Shard) → length (retain keep shard) ≤ length shard
unfolding retain
length-retain keep [] = omega arith
length-retain keep ((k, owners) ∷ shard) = ground (arith, length-retain keep shard)
