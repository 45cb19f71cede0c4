-- ===== src/Hash.antt =====
-- src/calinix/cache_registry/block_hash.rs, cumulative_hash.rs and fibonacci.rs, and their first
-- versions in src/base/hash.rs and src/base/indexer.rs: a prompt becomes a chain of 64-bit hashes,
-- one for each prefix of whole blocks, and a hash is given to a shard.
-- A text is the list of its characters' code points; `as_bytes` is UTF-8, and `split_whitespace`
-- splits at the characters that Unicode calls White_Space.
pub mod Chunks
pub mod Streaming
pub mod Chain
pub mod Sharding
use Prim.Native.Nat.{bit_xor}
use calinix.Word.{wrapping_mul, u64_mod}
use calinix.Prelude.{
  ℕ, zero, suc, ◌+◌, ◌-◌, ◌*◌, ◌/◌, ◌%◌, ◌^◌, ◌≤◌, ◌<◌, min, max, ◌≡◌, refl, sym, ap, ap₂, ◌∙◌,
  subst, fun_ext, ◌≢◌, ◌↔◌, ◌⊎◌, inl, inr, Bool, true, false, not, ◌&&◌, ◌||◌, Option, none, some,
  List, [], ◌∷◌, ◌++◌, map, append_assoc, append-nil, arith, ltb, leb, ◌==◌, if◌then◌else◌, ltb→lt,
  lt→ltb, leb→le, ==_iff, tests, Bool-cases, Option-cases, length, get_elem?, get_or,
  set as set_elem, take, replicate, length-append, length-set, length-replicate, get_or-replicate,
  get_or-set, lt_wf,
}

abbrev pub Text : Type 0
Text = List ℕ

abbrev pub BlockHash : Type 0
BlockHash = ℕ

abbrev pub default_block_size : ℕ
default_block_size = 4

abbrev pub fnv_offset : ℕ
fnv_offset = 14_695_981_039_346_656_037

abbrev pub fnv_prime : ℕ
fnv_prime = 1_099_511_628_211

-- Rust's `char::is_whitespace`.
unfoldable pub is_whitespace : ℕ → Bool
is_whitespace c =
    (leb 9 c && leb c 13)
    || c == 0x20
    || c == 0x85
    || c == 0xa0
    || c == 0x1680
    || (leb 0x2000 c && leb c 0x200a)
    || c == 0x2028
    || c == 0x2029
    || c == 0x202f
    || c == 0x205f
    || c == 0x3000

-- The UTF-8 bytes of one character.
unfoldable pub encode_utf8 : ℕ → List ℕ
encode_utf8 c =
    if ltb c 0x80
    then c ∷ []
    else if ltb c 0x800
    then (0xc0 + c / 64) ∷ (0x80 + c % 64) ∷ []
    else if ltb c 0x1_0000
    then (0xe0 + c / 4096) ∷ (0x80 + c / 64 % 64) ∷ (0x80 + c % 64) ∷ []
    else (0xf0 + c / 262_144) ∷ (0x80 + c / 4096 % 64) ∷ (0x80 + c / 64 % 64) ∷ (0x80 + c % 64) ∷ []

unfoldable pub as_bytes : Text → List ℕ
as_bytes [] = []
as_bytes (c ∷ cs) = encode_utf8 c ++ as_bytes cs

-- `word` holds the characters of the token that is being read.
unfoldable pub split_from : Text → Text → List Text
split_from [] [] = []
split_from (w ∷ word) [] = (w ∷ word) ∷ []
split_from [] (c ∷ cs) = split_from (if is_whitespace c then [] else c ∷ []) cs
split_from (w ∷ word) (c ∷ cs) =
    let ended = (w ∷ word) ∷ split_from [] cs in
    let longer = split_from (w ∷ word ++ c ∷ []) cs in if is_whitespace c then ended else longer

unfoldable pub split_whitespace : Text → List Text
split_whitespace text = split_from [] text

-- One round of FNV-1a.
unfoldable pub fnv_round : ℕ → ℕ → ℕ
fnv_round hash byte = wrapping_mul (bit_xor hash byte) fnv_prime

unfoldable pub fnv_bytes : ℕ → List ℕ → ℕ
fnv_bytes hash [] = hash
fnv_bytes hash (byte ∷ bytes) = fnv_bytes (fnv_round hash byte) bytes

unfoldable pub fnv1a64 : List ℕ → ℕ
fnv1a64 bytes = fnv_bytes fnv_offset bytes

unfoldable pub tokenize : Text → List Text
tokenize prompt = split_whitespace prompt

-- The body of the loop over the tokens: the bytes, then the separator.
unfoldable pub hash_token : ℕ → Text → ℕ
hash_token hash token = fnv_round (fnv_bytes hash (as_bytes token)) 0xff

unfoldable pub hash_tokens : ℕ → List Text → ℕ
hash_tokens hash [] = hash
hash_tokens hash (token ∷ tokens) = hash_tokens (hash_token hash token) tokens

unfoldable pub hash_block : List Text → BlockHash
hash_block tokens = hash_tokens fnv_offset tokens

module _ {ℓ} {A : Type ℓ} where
  abbrev pub drop : ℕ → List A → List A
  drop zero xs = xs
  drop (suc n) [] = []
  drop (suc n) (x ∷ xs) = drop n xs

  -- `xs.chunks(n)`, with a round for each chunk. Rust panics at `n == 0`, which no caller gives.
  unfoldable pub chunks_in : ℕ → ℕ → List A → List (List A)
  chunks_in fuel n [] = []
  chunks_in zero n (x ∷ xs) = []
  chunks_in (suc fuel) n (x ∷ xs) = take n (x ∷ xs) ∷ chunks_in fuel n (drop n (x ∷ xs))

  unfoldable pub chunks : ℕ → List A → List (List A)
  chunks n xs = chunks_in (length xs) n xs

unfoldable pub prompt_to_block_hashes_with_size : Text → ℕ → List BlockHash
prompt_to_block_hashes_with_size prompt block_size =
    map hash_block (chunks (max block_size 1) (tokenize prompt))

unfoldable pub prompt_to_block_hashes : Text → Option ℕ → List BlockHash
prompt_to_block_hashes prompt none = prompt_to_block_hashes_with_size prompt default_block_size
prompt_to_block_hashes prompt (some size) = prompt_to_block_hashes_with_size prompt size

-- `join(" ")`
unfoldable pub join_spaces : List Text → Text
join_spaces [] = []
join_spaces (token ∷ []) = token
join_spaces (token ∷ next ∷ tokens) = token ++ 0x20 ∷ join_spaces (next ∷ tokens)

unfoldable pub prompt_to_token_blocks_with_size : Text → ℕ → List Text
prompt_to_token_blocks_with_size prompt block_size =
    map join_spaces (chunks (max block_size 1) (tokenize prompt))

-- `x.to_le_bytes()`, the lowest `n` bytes.
unfoldable pub le_bytes : ℕ → ℕ → List ℕ
le_bytes zero x = []
le_bytes (suc n) x = x % 256 ∷ le_bytes n (x / 256)

unfoldable pub combine_cumulative : BlockHash → BlockHash → BlockHash
combine_cumulative prev block_hash = fnv1a64 (le_bytes 8 prev ++ le_bytes 8 block_hash)

-- The loop, with `prev` and what it has pushed.
unfoldable pub cumulative_from : BlockHash → List BlockHash → List BlockHash → List BlockHash
cumulative_from prev cumulative [] = cumulative
cumulative_from prev cumulative (block_hash ∷ rest) =
    let prev' = combine_cumulative prev block_hash in
    cumulative_from prev' (cumulative ++ prev' ∷ []) rest

unfoldable pub cumulative_hashes_from_blocks : List BlockHash → List BlockHash
cumulative_hashes_from_blocks block_hashes = cumulative_from 0 [] block_hashes

-- The local variables of `prompt_to_cumulative_hashes_streaming`.
pub record Stream : Type 0 where
  pub cumulative : List BlockHash
  pub prev_cumulative : BlockHash
  pub block_hash : BlockHash
  pub tokens_in_block : ℕ

-- A block is complete.
unfoldable pub flush : Stream → Stream
flush s =
    let combined = combine_cumulative s.prev_cumulative s.block_hash in
    record {
      cumulative = s.cumulative ++ combined ∷ [];
      prev_cumulative = combined;
      block_hash = fnv_offset;
      tokens_in_block = 0;
    }

unfoldable pub stream_token : ℕ → Stream → Text → Stream
stream_token block_size s token =
    let s' = record s {
      block_hash = hash_token s.block_hash token;
      tokens_in_block = s.tokens_in_block + 1;
    } in
    if s'.tokens_in_block == block_size then flush s' else s'

unfoldable pub stream_tokens : ℕ → Stream → List Text → Stream
stream_tokens block_size s [] = s
stream_tokens block_size s (token ∷ tokens) =
    stream_tokens block_size (stream_token block_size s token) tokens

-- After the loop, `if tokens_in_block > 0`: the hash of the last block is combined and pushed.
unfoldable pub stream_end : Stream → List BlockHash
stream_end s =
    if ltb 0 s.tokens_in_block
    then s.cumulative ++ combine_cumulative s.prev_cumulative s.block_hash ∷ []
    else s.cumulative

abbrev pub stream_start : Stream
stream_start = record {
  cumulative = [];
  prev_cumulative = 0;
  block_hash = fnv_offset;
  tokens_in_block = 0;
}

unfoldable pub prompt_to_cumulative_hashes_streaming : Text → ℕ → List BlockHash
prompt_to_cumulative_hashes_streaming prompt block_size =
    stream_end (stream_tokens (max block_size 1) stream_start (split_whitespace prompt))

unfoldable pub prompt_to_cumulative_hashes : Text → List BlockHash
prompt_to_cumulative_hashes prompt = prompt_to_cumulative_hashes_streaming prompt default_block_size

unfoldable pub prompt_to_cumulative_hashes_with_block_size : Text → ℕ → List BlockHash
prompt_to_cumulative_hashes_with_block_size prompt block_size =
    prompt_to_cumulative_hashes_streaming prompt block_size

abbrev pub default_shard_count : ℕ
default_shard_count = 256

abbrev pub fibonacci : ℕ
fibonacci = 0x9e37_79b9_7f4a_7c15

unfoldable pub shard_for_fibonacci_with_count : BlockHash → ℕ → ℕ
shard_for_fibonacci_with_count hash shard_count =
    (wrapping_mul hash fibonacci * max shard_count 1) / u64_mod

unfoldable pub shard_for_fibonacci : BlockHash → ℕ
shard_for_fibonacci hash = shard_for_fibonacci_with_count hash default_shard_count

unfoldable pub shard_for_low_bits_with_count : BlockHash → ℕ → ℕ
shard_for_low_bits_with_count hash shard_count = hash % max shard_count 1

unfoldable pub shard_for_low_bits : BlockHash → ℕ
shard_for_low_bits hash = shard_for_low_bits_with_count hash default_shard_count

unfoldable pub shard_for_with_count : BlockHash → ℕ → ℕ
shard_for_with_count hash shard_count = shard_for_fibonacci_with_count hash shard_count

-- src/base/indexer.rs: the same with 256 shards fixed, by shifts and masks.
abbrev pub shard_bits : ℕ
shard_bits = 8

unfoldable pub base_shard_for_fibonacci : BlockHash → ℕ
base_shard_for_fibonacci hash = wrapping_mul hash fibonacci / 2 ^ (64 - shard_bits)

-- src/base/hash.rs: block hashes of blocks of four tokens, then the chain over them.
unfoldable pub base_prompt_to_cumulative_hashes : Text → List BlockHash
base_prompt_to_cumulative_hashes prompt =
    cumulative_hashes_from_blocks (map hash_block (chunks 4 (tokenize prompt)))
