-- ===== src/Hash/Sharding.antt =====
-- Every hash has a shard, whatever the number of shards, and the two programs agree on it.
use calinix.Word.{wrapping_mul}
use calinix.Hash.{
  shard_for_fibonacci_with_count, shard_for_fibonacci, shard_for_with_count,
  base_shard_for_fibonacci, fibonacci,
}
use calinix.Prelude.{ℕ, ◌*◌, ◌/◌, ◌%◌, ◌^◌, ◌<◌, max, ◌≡◌, arith}

-- The shard of a hash is an index below the number of shards, which counts as 1 if it is 0.
pub shard_for_with_count-lt :
    (hash shard_count : ℕ) → shard_for_with_count hash shard_count < max shard_count 1
unfolding shard_for_with_count shard_for_fibonacci_with_count wrapping_mul
shard_for_with_count-lt hash shard_count =
    scaled (hash * fibonacci % 2 ^ 64) (max shard_count 1) (omega arith) (omega arith)
  where
    scaled : (m n : ℕ) → m < 2 ^ 64 → 0 < n → m * n / 2 ^ 64 < n
    scaled m n h p = let bound : m * n < 2 ^ 64 * n = grind arith in omega arith

-- With 256 shards, the multiply-and-shift of the library is the shift of the prototype.
pub shard_for_fibonacci-base : (hash : ℕ) → shard_for_fibonacci hash ≡ base_shard_for_fibonacci hash
unfolding shard_for_fibonacci shard_for_fibonacci_with_count base_shard_for_fibonacci wrapping_mul
shard_for_fibonacci-base hash = omega arith
