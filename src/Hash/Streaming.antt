-- ===== src/Hash/Streaming.antt =====
-- The one-pass hashing of a prompt gives the hashes of the two-pass description.
use calinix.Hash.{
  Text, BlockHash, Stream, fnv_offset, hash_token, hash_tokens, hash_block, chunks,
  combine_cumulative, cumulative_from, cumulative_hashes_from_blocks, flush, stream_token,
  stream_tokens, stream_end, tokenize, split_whitespace, prompt_to_block_hashes_with_size,
  prompt_to_cumulative_hashes_streaming, prompt_to_cumulative_hashes,
  base_prompt_to_cumulative_hashes,
}
use calinix.Hash.Chunks.{chunks-nil, chunks-append, chunks_last}
use calinix.Prelude.{
  ℕ, ◌+◌, ◌<◌, max, ◌≡◌, refl, sym, ap, ◌∙◌, inl, inr, true, false, List, [], ◌∷◌, ◌++◌, map,
  append_assoc, append-nil, arith, ◌==◌, Bool-cases, length, length-append,
}

hash_tokens-append :
    (hash : ℕ) (xs : List Text) (t : Text)
    → hash_tokens hash (xs ++ t ∷ []) ≡ hash_token (hash_tokens hash xs) t
unfolding hash_tokens
hash_tokens-append hash [] t = refl
hash_tokens-append hash (x ∷ xs) t = hash_tokens-append (hash_token hash x) xs t

-- The state inside a block whose first tokens are `block`.
reading : BlockHash → List BlockHash → List Text → Stream
reading prev cumulative block = record {
  cumulative = cumulative;
  prev_cumulative = prev;
  block_hash = hash_block block;
  tokens_in_block = length block;
}

module _ (n : ℕ) (prev : BlockHash) (cumulative : List BlockHash) (block : List Text)
    (t : Text) where
  abbrev longer : List Text
  longer = block ++ t ∷ []

  abbrev combined : BlockHash
  combined = combine_cumulative prev (hash_block longer)

  hashed : hash_token (hash_block block) t ≡ hash_block longer
  unfolding hash_block
  hashed = sym (hash_tokens-append fnv_offset block t)

  size : length longer ≡ length block + 1
  size = omega (arith, length-append block (t ∷ []))

  stream_token_full :
      (length block + 1 == n) ≡ true
      → stream_token n (reading prev cumulative block) t
        ≡ reading combined (cumulative ++ combined ∷ []) []
  unfolding reading stream_token flush
  stream_token_full full = rw (full, stream_token, hashed) start
    where
      start :
          flush (record {
            cumulative = cumulative;
            prev_cumulative = prev;
            block_hash = hash_block longer;
            tokens_in_block = length block + 1;
          })
          ≡ reading combined (cumulative ++ combined ∷ []) []
      start = unfold hash_block hash_tokens in refl

  stream_token_more :
      (length block + 1 == n) ≡ false
      → stream_token n (reading prev cumulative block) t ≡ reading prev cumulative longer
  unfolding reading stream_token
  stream_token_more more = rw (more, hashed, size)

-- `block` is the block that is being read, `todo` the tokens ahead.
stream_tokens-chunks :
    (n : ℕ) (prev : BlockHash) (cumulative : List BlockHash) (block todo : List Text)
    → length block < n
    → stream_end (stream_tokens n (reading prev cumulative block) todo)
      ≡ cumulative_from prev cumulative (map hash_block (chunks n (block ++ todo)))
unfolding stream_tokens stream_end cumulative_from reading
stream_tokens-chunks n prev cumulative [] [] h = rw (chunks-nil {A = Text} n)
stream_tokens-chunks n prev cumulative (b ∷ block) [] h =
    rw (append-nil (b ∷ block), chunks_last n b block (omega arith)) (ground arith)
stream_tokens-chunks n prev cumulative block (t ∷ todo) h =
    let whole = longer n prev cumulative block t in
    let next = combined n prev cumulative block t in
    let regroup : block ++ t ∷ todo ≡ whole ++ todo = sym (append_assoc block (t ∷ []) todo) in
    let run = λ (s : Stream). stream_end (stream_tokens n s todo) in
    let measured = size n prev cumulative block t in
    elim (Bool-cases (length block + 1 == n)) [
      | inl full ↦
          let split = chunks-append n whole todo (omega arith) (ground arith) in
          ap run (stream_token_full n prev cumulative block t full)
          ∙ stream_tokens-chunks n next (cumulative ++ next ∷ []) [] todo (omega arith)
          ∙ sym (
              ap (λ bs. cumulative_from prev cumulative (map hash_block bs))
                (ap (chunks n) regroup ∙ split))
      | inr more ↦
          ap run (stream_token_more n prev cumulative block t more)
          ∙ stream_tokens-chunks n prev cumulative whole todo (ground arith)
          ∙ ap (λ ts. cumulative_from prev cumulative (map hash_block (chunks n ts))) (sym regroup)
    ]

-- Hashing a prompt token by token gives the chain over the hashes of its blocks, for every block
-- size, 0 included, which counts as 1.
pub prompt_to_cumulative_hashes_streaming-blocks :
    (prompt : Text) (block_size : ℕ)
    → prompt_to_cumulative_hashes_streaming prompt block_size
      ≡ cumulative_hashes_from_blocks (prompt_to_block_hashes_with_size prompt block_size)
unfolding prompt_to_cumulative_hashes_streaming cumulative_hashes_from_blocks
    prompt_to_block_hashes_with_size tokenize hash_block hash_tokens reading
prompt_to_cumulative_hashes_streaming-blocks prompt block_size =
    stream_tokens-chunks (max block_size 1) 0 [] [] (split_whitespace prompt) (omega arith)

-- The library's default chain and the prototype's are the same function.
pub prompt_to_cumulative_hashes-base :
    (prompt : Text) → prompt_to_cumulative_hashes prompt ≡ base_prompt_to_cumulative_hashes prompt
unfolding prompt_to_cumulative_hashes base_prompt_to_cumulative_hashes
    prompt_to_block_hashes_with_size
prompt_to_cumulative_hashes-base prompt = prompt_to_cumulative_hashes_streaming-blocks prompt 4
