-- ===== src/Hash/Chain.antt =====
-- A chain holds one hash for each prefix of the blocks: prompts that share their first blocks
-- share the hashes of those.
use calinix.Word.{wrapping_mul}
use calinix.Hash.{BlockHash, fnv_offset, fnv_bytes, fnv_round, fnv1a64, combine_cumulative}
use calinix.Prelude.{ℕ, ◌^◌, ◌<◌, List, [], ◌∷◌, arith}

-- The chain without the accumulator.
pub chain_from : BlockHash → List BlockHash → List BlockHash
chain_from prev [] = []
chain_from prev (block_hash ∷ rest) =
    let prev' = combine_cumulative prev block_hash in prev' ∷ chain_from prev' rest

fnv_bytes-lt : (hash : ℕ) (bytes : List ℕ) → hash < 2 ^ 64 → fnv_bytes hash bytes < 2 ^ 64
unfolding fnv_bytes fnv_round wrapping_mul
fnv_bytes-lt hash [] h = h
fnv_bytes-lt hash (b ∷ bytes) h = fnv_bytes-lt (fnv_round hash b) bytes (omega arith)

-- Every combined hash is a 64-bit number.
pub combine_cumulative-lt : (prev block_hash : ℕ) → combine_cumulative prev block_hash < 2 ^ 64
unfolding combine_cumulative fnv1a64
combine_cumulative-lt prev block_hash = fnv_bytes-lt fnv_offset _ (omega arith)
