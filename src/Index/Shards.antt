-- ===== src/Index/Shards.antt =====
-- The array of shards: what writing one shard does to the others, and what the two loops over all
-- of them do to each.
use calinix.Bitmap.{HostBitmap}
use calinix.Index.{retain_all, clear_all}
use calinix.Index.Entries.{Shard, retain}
use calinix.Prelude.{ℕ, zero, suc, ◌≡◌, refl, ap, List, [], ◌∷◌, length, get_or}

pub length-retain_all :
    (keep : HostBitmap → HostBitmap) (shards : List Shard)
    → length (retain_all keep shards) ≡ length shards
unfolding retain_all
length-retain_all keep [] = refl
length-retain_all keep (s ∷ shards) = ap suc (length-retain_all keep shards)

pub get_or-retain_all :
    (keep : HostBitmap → HostBitmap) (shards : List Shard) (i : ℕ)
    → get_or (retain_all keep shards) i [] ≡ retain keep (get_or shards i [])
unfolding retain_all
get_or-retain_all keep [] i = unfold retain in refl
get_or-retain_all keep (s ∷ shards) zero = refl
get_or-retain_all keep (s ∷ shards) (suc i) = get_or-retain_all keep shards i

pub length-clear_all : (shards : List Shard) → length (clear_all shards) ≡ length shards
unfolding clear_all
length-clear_all [] = refl
length-clear_all (s ∷ shards) = ap suc (length-clear_all shards)

pub get_or-clear_all : (shards : List Shard) (i : ℕ) → get_or (clear_all shards) i [] ≡ []
unfolding clear_all
get_or-clear_all [] i = refl
get_or-clear_all (s ∷ shards) zero = refl
get_or-clear_all (s ∷ shards) (suc i) = get_or-clear_all shards i
