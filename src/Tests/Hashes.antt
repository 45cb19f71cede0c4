-- ===== src/Tests/Hashes.antt =====
-- src/calinix/cache_registry/block_hash.rs, cumulative_hash.rs and fibonacci.rs on concrete prompts.
use calinix.Hash.{
  BlockHash, cumulative_hashes_from_blocks, prompt_to_block_hashes_with_size,
  prompt_to_cumulative_hashes_streaming,
}
use calinix.Hash.Streaming.{prompt_to_cumulative_hashes_streaming-blocks}
use calinix.Prelude.{ℕ, ◌≡◌, List, [], ◌∷◌}

-- "a b c"
abbrev prompt : List ℕ
prompt = 97 ∷ 32 ∷ 98 ∷ 32 ∷ 99 ∷ []

prompt_to_cumulative_hashes_streaming-blocks_example :
    prompt_to_cumulative_hashes_streaming prompt 2
    ≡ cumulative_hashes_from_blocks (prompt_to_block_hashes_with_size prompt 2)
prompt_to_cumulative_hashes_streaming-blocks_example =
    prompt_to_cumulative_hashes_streaming-blocks prompt 2

abbrev one_block : List BlockHash
one_block = 7 ∷ []

abbrev next_block : List BlockHash
next_block = 9 ∷ []
