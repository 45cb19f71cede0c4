-- ===== src/Query.antt =====
-- src/calinix/cache_registry/prefix_query.rs: how long a prefix of the request each pod caches. One
-- binary search runs for all candidate pods together: a frame holds the pods whose answer lies in
-- one range of depths, a probe splits it in two, and the frames wait on a stack that lives in a
-- fixed array until it holds 32 of them and on the heap from then on.
-- `none` stands for undefined behaviour (a read of an array slot that was never written), a panic
-- (an index out of range) or the end of the fuel; the theorems show that none of them happens.
pub mod Stack
pub mod Bisect
pub mod Depths
pub mod Frames
pub mod Rounds
pub mod Lengths
pub mod Longest
pub mod Best
pub mod Debug
use calinix.Bitmap
use calinix.Bitmap.{HostBitmap}
use calinix.Hash.{BlockHash}
use calinix.Index.{ShardedBlockIndexer, owners}
use calinix.Prelude.{
  ℕ, zero, suc, ◌+◌, ◌-◌, ◌*◌, ◌/◌, ◌%◌, ◌^◌, ◌≤◌, ◌<◌, min, max, ◌≡◌, refl, sym, ap, ap₂, ◌∙◌,
  subst, fun_ext, ◌≢◌, ◌↔◌, ◌⊎◌, inl, inr, Bool, true, false, not, ◌&&◌, ◌||◌, Option, none, some,
  List, [], ◌∷◌, ◌++◌, map, append_assoc, append-nil, arith, ltb, leb, ◌==◌, if◌then◌else◌, ltb→lt,
  lt→ltb, leb→le, ==_iff, ==_refl, tests, Bool-cases, Option-cases, length, get_elem?, get_or,
  set as set_elem, take, replicate, length-append, length-set, length-replicate, get_or-replicate,
  get_or-set, lt_wf,
}

abbrev pub inline_search_frames : ℕ
inline_search_frames = 32

pub record SearchFrame : Type 0 where
  pub min_prefix_depth : ℕ
  pub max_prefix_depth : ℕ
  pub candidate_pods : HostBitmap

pub record PrefixMatch : Type 0 where
  pub pod_id : ℕ
  pub prefix_depth : ℕ

-- A slot of `frames` is `none` until it is written. The last element of `heap` is its top.
pub record SearchStack : Type 0 where
  pub frames : ℕ → Option SearchFrame
  pub len : ℕ
  pub heap : Option (List SearchFrame)

infixl 5 ◌>>=◌
abbrev pub ◌>>=◌ {ℓ κ} : {A : Type ℓ} {B : Type κ} → Option A → (A → Option B) → Option B
none >>= f = none
some a >>= f = f a

unfoldable pub new : SearchStack
new = record { frames = λ _. none; len = 0; heap = none }

-- The loop of `spill_to_heap` over the first `n` slots.
unfoldable pub read_frames : (ℕ → Option SearchFrame) → ℕ → Option (List SearchFrame)
read_frames frames zero = some []
read_frames frames (suc n) = do
  below ← read_frames frames n
  frame ← frames n
  some (below ++ frame ∷ [])

unfoldable pub spill_to_heap : SearchStack → SearchFrame → Option SearchStack
spill_to_heap s frame = do
  heap ← read_frames s.frames s.len
  some (record s { len = 0; heap = some (heap ++ frame ∷ []) })

unfoldable pub write_frame : (ℕ → Option SearchFrame) → ℕ → SearchFrame → ℕ → Option SearchFrame
write_frame frames i frame j = if i == j then some frame else frames j

unfoldable pub push : SearchStack → SearchFrame → Option SearchStack
push s frame = elim s.heap [
  | some heap ↦ some (record s { heap = some (heap ++ frame ∷ []) })
  | none ↦
      if ltb s.len inline_search_frames
      then some (record s { frames = write_frame s.frames s.len frame; len = s.len + 1 })
      else spill_to_heap s frame
]

-- `Vec::pop`
unfoldable pub pop_last : List SearchFrame → Option (SearchFrame × List SearchFrame)
pop_last [] = none
pop_last (x ∷ xs) = elim (pop_last xs) [
  | none ↦ some (x, [])
  | some (last, rest) ↦ some (last, x ∷ rest)
]

unfoldable pub pop_heap : SearchStack → List SearchFrame → Option (SearchFrame × SearchStack)
pop_heap s heap = elim (pop_last heap) [
  | none ↦ none
  | some (frame, rest) ↦ some (frame, record s { heap = some rest })
]

-- The inner option is the one that the source returns.
unfoldable pub pop : SearchStack → Option (Option (SearchFrame × SearchStack))
pop s = elim s.heap [
  | some heap ↦ some (pop_heap s heap)
  | none ↦
      if ltb 0 s.len
      then (do frame ← s.frames (s.len - 1); some (some (frame, record s { len = s.len - 1 })))
      else some none
]

-- `(min + max).div_ceil(2)`
abbrev pub probe_between : ℕ → ℕ → ℕ
probe_between lo hi = (lo + hi + 1) / 2

-- The closure that writes the depth of each pod of a finished frame.
unfoldable pub write_depth : ℕ → List ℕ → ℕ → List ℕ
write_depth depth lengths pod_id =
    if ltb pod_id (length lengths) then set_elem lengths pod_id depth else lengths

unfoldable pub push_unless_empty : SearchStack → SearchFrame → Option SearchStack
push_unless_empty stack frame =
    if not (Bitmap.is_empty frame.candidate_pods) then push stack frame else some stack

module _ (idx : ShardedBlockIndexer) (cumulative_hashes : List BlockHash) (alive : HostBitmap) where
  -- The body of the `while` loop of `longest_prefix_lengths_into` for the frame that it popped.
  unfoldable pub lengths_step : SearchFrame → SearchStack → List ℕ → Option (SearchStack × List ℕ)
  lengths_step frame stack lengths =
      if frame.min_prefix_depth == frame.max_prefix_depth
      then some (
        stack,
        Bitmap.for_each_set_bit (write_depth frame.min_prefix_depth) frame.candidate_pods lengths,
      )
      else (do
        let probe_prefix_depth = probe_between frame.min_prefix_depth frame.max_prefix_depth
        hash ← get_elem? cumulative_hashes (probe_prefix_depth - 1)
        let pods_with_probe_prefix = Bitmap.and (owners idx hash) alive
        let pods_at_or_above_probe = Bitmap.and frame.candidate_pods pods_with_probe_prefix
        let pods_below_probe = Bitmap.minus frame.candidate_pods pods_at_or_above_probe
        stack₁ ← push_unless_empty stack (record {
          min_prefix_depth = probe_prefix_depth;
          max_prefix_depth = frame.max_prefix_depth;
          candidate_pods = pods_at_or_above_probe;
        })
        stack₂ ← push_unless_empty stack₁ (record {
          min_prefix_depth = frame.min_prefix_depth;
          max_prefix_depth = probe_prefix_depth - 1;
          candidate_pods = pods_below_probe;
        })
        some (stack₂, lengths))

  unfoldable pub lengths_loop : ℕ → SearchStack → List ℕ → Option (List ℕ)
  lengths_loop zero stack lengths = none
  lengths_loop (suc fuel) stack lengths = do
    popped ← pop stack
    elim popped [
      | none ↦ some lengths
      | some (frame, rest) ↦ do
        (stack', lengths') ← lengths_step frame rest lengths
        lengths_loop fuel stack' lengths'
    ]

-- Each round ends a frame or splits its range of depths, so twice the depth bounds the rounds.
abbrev pub search_fuel : List BlockHash → ℕ
search_fuel cumulative_hashes = 2 * length cumulative_hashes + 2

unfoldable pub longest_prefix_lengths_into :
    ShardedBlockIndexer → List BlockHash → HostBitmap → List ℕ → Option (List ℕ)
longest_prefix_lengths_into idx cumulative_hashes candidate_pods lengths =
    let cleared : List ℕ = replicate (length lengths) 0 in
    let alive_candidates = Bitmap.and candidate_pods idx.alive in
    let searched =
      push new (record {
        min_prefix_depth = 0;
        max_prefix_depth = length cumulative_hashes;
        candidate_pods = alive_candidates;
      })
      >>= λ stack.
          lengths_loop idx cumulative_hashes idx.alive (search_fuel cumulative_hashes) stack
            cleared in
    if length cumulative_hashes == 0 || Bitmap.is_empty alive_candidates
    then some cleared
    else searched

unfoldable pub longest_prefix_lengths_for_candidates :
    ShardedBlockIndexer → List BlockHash → HostBitmap → Option (List ℕ)
longest_prefix_lengths_for_candidates idx cumulative_hashes candidate_pods =
    let result_size = max idx.pod_count (Bitmap.highest_set_bit_plus_one candidate_pods) in
    longest_prefix_lengths_into idx cumulative_hashes candidate_pods (replicate result_size 0)
