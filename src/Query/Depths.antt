-- ===== src/Query/Depths.antt =====
-- Writing the depth of a finished frame: the entries of its pods change, and no others.
use calinix.Bitmap
use calinix.Bitmap.{HostBitmap}
use calinix.Bitmap.Members.{IsWords, contains-test_bit}
use calinix.Bitmap.Scan.{range_where, visit_all, for_each_set_bit-range}
use calinix.Query.{write_depth}
use calinix.Prelude.{
  ℕ, zero, suc, ◌+◌, ◌<◌, ◌≡◌, refl, ◌∙◌, inl, inr, Bool, ◌&&◌, List, [], ◌∷◌, arith, ltb, leb,
  ◌==◌, if◌then◌else◌, Bool-cases, length, get_or, length-set, get_or-set,
}

pub length-write_depth :
    (depth : ℕ) (lengths : List ℕ) (p : ℕ) → length (write_depth depth lengths p) ≡ length lengths
unfolding write_depth
length-write_depth depth lengths p = ground (arith, length-set lengths p depth)

get_or-write_depth :
    (depth : ℕ) (lengths : List ℕ) (p q : ℕ)
    → q < length lengths
    → get_or (write_depth depth lengths p) q 0 ≡ (if p == q then depth else get_or lengths q 0)
unfolding write_depth
get_or-write_depth depth lengths p q h = ground (arith, get_or-set lengths p q depth 0)

length-visit_all :
    (depth : ℕ) (ps lengths : List ℕ)
    → length (visit_all (write_depth depth) ps lengths) ≡ length lengths
unfolding visit_all
length-visit_all depth [] lengths = refl
length-visit_all depth (p ∷ ps) lengths =
    length-visit_all depth ps (write_depth depth lengths p) ∙ length-write_depth depth lengths p

get_or-visit_all :
    (t : ℕ → Bool) (n base depth : ℕ) (lengths : List ℕ) (q : ℕ)
    → q < length lengths
    → get_or (visit_all (write_depth depth) (range_where t n base) lengths) q 0
      ≡ (if t q && leb base q && ltb q (base + n) then depth else get_or lengths q 0)
unfolding visit_all range_where
get_or-visit_all t zero base depth lengths q h = ground arith
get_or-visit_all t (suc n) base depth lengths q h = elim (Bool-cases (t base)) [
  | inl hit ↦ rw hit (
      ground (
        arith,
        get_or-visit_all t n (base + 1) depth (write_depth depth lengths base) q,
        length-write_depth depth lengths base,
        get_or-write_depth depth lengths base q h,
      ))
  | inr miss ↦ rw miss (ground (arith, get_or-visit_all t n (base + 1) depth lengths q h))
]

-- The depths after a frame with `pods` has ended at `depth`.
pub write_depths :
    (depth : ℕ) (pods : HostBitmap) (lengths : List ℕ)
    → IsWords pods
    → (length (Bitmap.for_each_set_bit (write_depth depth) pods lengths) ≡ length lengths)
      × ((q : ℕ)
          → q < length lengths
          → get_or (Bitmap.for_each_set_bit (write_depth depth) pods lengths) q 0
            ≡ (if Bitmap.contains pods q then depth else get_or lengths q 0))
write_depths depth pods lengths w = rw (for_each_set_bit-range (write_depth depth) pods lengths w) (
  length-visit_all depth (range_where (Bitmap.contains pods) 256 0) lengths,
  λ q h. ground (
    arith,
    get_or-visit_all (Bitmap.contains pods) 256 0 depth lengths q h,
    contains-test_bit pods q,
  ),
)
