-- ===== src/Tests/Bitmaps.antt =====
-- src/calinix/cache_registry/host_bitmap.rs on concrete bitmaps.
use calinix.Bitmap
use calinix.Bitmap.{HostBitmap, bitmap_code}
use calinix.Bitmap.Members.{IsWords}
use calinix.Prelude.{◌-◌, ◌^◌, ◌≡◌, refl, [], ◌∷◌, arith}

abbrev pub two_pods : HostBitmap
two_pods = record { word0 = 8; word1 = 0; word2 = 4; word3 = 0 }

pub two_pods-IsWords : IsWords two_pods
two_pods-IsWords = record {
  bound0 = ground arith;
  bound1 = ground arith;
  bound2 = ground arith;
  bound3 = ground arith;
}

set_twice : Bitmap.set (Bitmap.set Bitmap.empty 3) 130 ≡ two_pods
unfolding bitmap_code
set_twice = refl

members_listed : Bitmap.iter_set_bits two_pods ≡ 3 ∷ 130 ∷ []
unfolding bitmap_code
members_listed = refl

full_for_130 :
    Bitmap.full_for_count 130
    ≡ record { word0 = 2 ^ 64 - 1; word1 = 2 ^ 64 - 1; word2 = 3; word3 = 0 }
unfolding bitmap_code
full_for_130 = refl
