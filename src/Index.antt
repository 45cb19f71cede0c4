-- ===== src/Index.antt =====
-- src/calinix/cache_registry/sharded_index.rs: which pods cache which prefix hash. Each shard is a
-- hash map, here an association list with one entry a key; a lock is held for one operation on one
-- shard, so an operation is a step on the whole state. Logging has no effect on the state.
pub mod Entries
pub mod Shards
pub mod Invariant
pub mod Owners
use Entries.{Shard, get, or_insert, insert, remove, retain}
use mathlib.Core.Option
use calinix.Bitmap
use calinix.Bitmap.{HostBitmap}
use calinix.Hash.{BlockHash, default_shard_count, shard_for_with_count}
use calinix.Prelude.{
  ℕ, zero, suc, ◌+◌, ◌-◌, ◌*◌, ◌/◌, ◌%◌, ◌^◌, ◌≤◌, ◌<◌, min, max, ◌≡◌, refl, sym, ap, ap₂, ◌∙◌,
  subst, fun_ext, ◌≢◌, ◌↔◌, ◌⊎◌, inl, inr, Bool, true, false, not, ◌&&◌, ◌||◌, Option, none, some,
  List, [], ◌∷◌, ◌++◌, map, append_assoc, append-nil, arith, ltb, leb, ◌==◌, if◌then◌else◌, ltb→lt,
  lt→ltb, leb→le, ==_iff, tests, Bool-cases, Option-cases, length, get_elem?, get_or,
  set as set_elem, take, replicate, length-append, length-set, length-replicate, get_or-replicate,
  get_or-set, lt_wf,
}

pub record ShardedBlockIndexer : Type 0 where
  pub shards : List Shard
  pub alive : HostBitmap
  pub pod_count : ℕ

unfoldable pub with_shards_and_alive : ℕ → ℕ → HostBitmap → ShardedBlockIndexer
with_shards_and_alive pod_count shard_count alive = record {
  shards = replicate (max shard_count 1) [];
  alive = alive;
  pod_count = pod_count;
}

unfoldable pub with_shards : ℕ → ℕ → ShardedBlockIndexer
with_shards pod_count shard_count =
    with_shards_and_alive pod_count shard_count (Bitmap.full_for_count pod_count)

unfoldable pub new : ℕ → ShardedBlockIndexer
new pod_count = with_shards pod_count default_shard_count

unfoldable pub with_shards_empty_alive : ℕ → ℕ → ShardedBlockIndexer
with_shards_empty_alive pod_count shard_count =
    with_shards_and_alive pod_count shard_count Bitmap.empty

unfoldable pub shard_count : ShardedBlockIndexer → ℕ
shard_count idx = length idx.shards

unfoldable pub shard_for : ShardedBlockIndexer → BlockHash → ℕ
shard_for idx cumulative_hash = shard_for_with_count cumulative_hash (length idx.shards)

-- The compare-and-swap loop on `pod_count`. `failures` are the values that its failed attempts
-- read: those of other threads, or the same one again where the exchange fails spuriously. The
-- result is the counter after the loop.
unfoldable pub observe_loop : ℕ → ℕ → List ℕ → ℕ
observe_loop needed current [] = if ltb current needed then needed else current
observe_loop needed current (next ∷ failures) =
    let again = observe_loop needed next failures in if ltb current needed then again else current

unfoldable pub observe_pod : ShardedBlockIndexer → ℕ → ShardedBlockIndexer
observe_pod idx pod_id = record idx { pod_count = observe_loop (pod_id + 1) idx.pod_count [] }

-- `self.shards[i]` behind its lock; the index is in range (`shard_for_with_count-lt`).
unfoldable pub shard_at : ShardedBlockIndexer → ℕ → Shard
shard_at idx i = get_or idx.shards i []

unfoldable pub set_shard : ShardedBlockIndexer → ℕ → Shard → ShardedBlockIndexer
set_shard idx i shard = record idx { shards = set_elem idx.shards i shard }

-- The part of `register` under the shard's lock.
unfoldable pub register_in : Shard → ℕ → BlockHash → Shard × Bool
register_in shard pod_id cumulative_hash =
    let guard = or_insert cumulative_hash Bitmap.empty shard in
    let owners = Option.get_or (get cumulative_hash guard) Bitmap.empty in
    if Bitmap.contains owners pod_id
    then (guard, false)
    else (insert cumulative_hash (Bitmap.set owners pod_id) guard, true)

unfoldable pub register : ShardedBlockIndexer → ℕ → BlockHash → ShardedBlockIndexer × Bool
register idx pod_id cumulative_hash =
    let idx' = observe_pod idx pod_id in
    let shard = shard_for idx' cumulative_hash in
    let (guard, registered) = register_in (shard_at idx' shard) pod_id cumulative_hash in
    (set_shard idx' shard guard, registered)

unfoldable pub register_chain : ShardedBlockIndexer → ℕ → List BlockHash → ShardedBlockIndexer × ℕ
register_chain idx pod_id [] = (idx, 0)
register_chain idx pod_id (hash ∷ hashes) =
    let (idx', registered) = register idx pod_id hash in
    let (last, count) = register_chain idx' pod_id hashes in
    (last, if registered then count + 1 else count)

-- The part of `evict` under the shard's lock.
unfoldable pub evict_in : Shard → ℕ → BlockHash → Shard
evict_in shard pod_id cumulative_hash = elim (get cumulative_hash shard) [
  | none ↦ shard
  | some owners ↦
      let cleared = Bitmap.clear owners pod_id in
      if Bitmap.is_empty cleared
      then remove cumulative_hash shard
      else insert cumulative_hash cleared shard
]

unfoldable pub evict : ShardedBlockIndexer → ℕ → BlockHash → ShardedBlockIndexer
evict idx pod_id cumulative_hash =
    let shard = shard_for idx cumulative_hash in
    set_shard idx shard (evict_in (shard_at idx shard) pod_id cumulative_hash)

unfoldable pub evict_chain : ShardedBlockIndexer → ℕ → List BlockHash → ShardedBlockIndexer
evict_chain idx pod_id [] = idx
evict_chain idx pod_id (hash ∷ hashes) = evict_chain (evict idx pod_id hash) pod_id hashes

unfoldable pub mark_alive : ShardedBlockIndexer → ℕ → ShardedBlockIndexer
mark_alive idx pod_id =
    let idx' = observe_pod idx pod_id in record idx' { alive = Bitmap.set idx'.alive pod_id }

unfoldable pub shutdown : ShardedBlockIndexer → ℕ → ShardedBlockIndexer
shutdown idx pod_id = record idx { alive = Bitmap.clear idx.alive pod_id }

unfoldable pub owners : ShardedBlockIndexer → BlockHash → HostBitmap
owners idx cumulative_hash =
    Option.get_or (get cumulative_hash (shard_at idx (shard_for idx cumulative_hash))) Bitmap.empty

unfoldable pub owners_alive : ShardedBlockIndexer → BlockHash → HostBitmap
owners_alive idx cumulative_hash = Bitmap.and (owners idx cumulative_hash) idx.alive

-- The loop over the shards of both clean-ups.
unfoldable pub retain_all : (HostBitmap → HostBitmap) → List Shard → List Shard
retain_all keep [] = []
retain_all keep (shard ∷ shards) = retain keep shard ∷ retain_all keep shards

unfoldable pub cleanup_dead_pod : ShardedBlockIndexer → ℕ → ShardedBlockIndexer
cleanup_dead_pod idx pod_id = record idx {
  shards = retain_all (λ owners. Bitmap.clear owners pod_id) idx.shards;
}

unfoldable pub cleanup_not_alive : ShardedBlockIndexer → ShardedBlockIndexer
cleanup_not_alive idx = record idx {
  shards = retain_all (λ owners. Bitmap.and owners idx.alive) idx.shards;
}

unfoldable pub shard_entry_counts : ShardedBlockIndexer → List ℕ
shard_entry_counts idx = map length idx.shards

unfoldable pub sum : List ℕ → ℕ
sum [] = 0
sum (n ∷ ns) = n + sum ns

unfoldable pub total_entries : ShardedBlockIndexer → ℕ
total_entries idx = sum (shard_entry_counts idx)

-- `sort_by_key`, which is stable: an entry goes in front of the later ones with the same key.
unfoldable pub insert_sorted : BlockHash × HostBitmap → Shard → Shard
insert_sorted entry [] = entry ∷ []
insert_sorted entry (first ∷ rest) =
    if leb entry.0 first.0 then entry ∷ first ∷ rest else first ∷ insert_sorted entry rest

unfoldable pub sort_by_key : Shard → Shard
sort_by_key [] = []
sort_by_key (entry ∷ rest) = insert_sorted entry (sort_by_key rest)

unfoldable pub concat : List Shard → Shard
concat [] = []
concat (shard ∷ shards) = shard ++ concat shards

unfoldable pub block_owners : ShardedBlockIndexer → List (BlockHash × HostBitmap)
block_owners idx = sort_by_key (concat idx.shards)

unfoldable pub clear_all : List Shard → List Shard
clear_all [] = []
clear_all (shard ∷ shards) = [] ∷ clear_all shards

unfoldable pub clear : ShardedBlockIndexer → ShardedBlockIndexer
clear idx = record idx { shards = clear_all idx.shards }
