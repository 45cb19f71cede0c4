-- ===== src/Index/Invariant.antt =====
-- The index keeps well formed: it has a shard, every shard is a map with one entry a key, and no
-- entry is without owners.
use mathlib.Core.Option
use calinix.Bitmap
use calinix.Bitmap.{HostBitmap}
use calinix.Bitmap.Members.{IsWords}
use calinix.Bitmap.Laws.{
  empty-IsWords, set-IsWords, clear-IsWords, and-IsWords, contains-is_empty, contains-set,
  contains-empty,
}
use calinix.Bitmap.Bounds.{full_for_count-IsWords}
use calinix.Hash.{BlockHash}
use calinix.Hash.Sharding.{shard_for_with_count-lt}
use calinix.Index.{
  ShardedBlockIndexer, with_shards_and_alive, with_shards, new, with_shards_empty_alive, shard_for,
  observe_pod, shard_at, set_shard, register_in, register, evict_in, evict, mark_alive, shutdown,
  owners, retain_all, cleanup_dead_pod, cleanup_not_alive, clear,
}
use calinix.Index.Entries.{
  Shard, get, insert, or_insert, IsShard, get-insert, insert-IsShard, remove-IsShard,
  retain-IsShard,
}
use calinix.Index.Shards.{length-retain_all, get_or-retain_all, length-clear_all, get_or-clear_all}
use calinix.Prelude.{
  ℕ, ◌<◌, max, ◌≡◌, ap, ◌∙◌, inl, inr, Bool, true, false, none, some, [], ◌∷◌, arith, ◌==◌,
  if◌then◌else◌, ==_refl, Bool-cases, Option-cases, length, get_or, length-set, length-replicate,
  get_or-replicate, get_or-set,
}

pub record IsIndex (idx : ShardedBlockIndexer) : Type 0 where
  pub some_shard : 0 < length idx.shards
  pub each_shard : (i : ℕ) → IsShard (get_or idx.shards i [])
  pub alive_words : IsWords idx.alive

pub shard_for-lt :
    {idx : ShardedBlockIndexer} (h : BlockHash) → IsIndex idx → shard_for idx h < length idx.shards
unfolding shard_for
shard_for-lt {idx} h v = omega (arith, shard_for_with_count-lt h (length idx.shards), v.some_shard)

pub owners_of-IsWords :
    (h : BlockHash) (shard : Shard)
    → IsShard shard
    → IsWords (Option.get_or (get h shard) Bitmap.empty)
unfolding get
owners_of-IsWords h [] s = empty-IsWords
owners_of-IsWords h ((k, o) ∷ shard) s = elim (Bool-cases (k == h)) [
  | inl same ↦ rw same s.1
  | inr other ↦ rw other (owners_of-IsWords h shard s.3)
]

-- Every set of owners that a lookup gives has u64 words.
pub owners-IsWords :
    {idx : ShardedBlockIndexer} (h : BlockHash) → IsIndex idx → IsWords (owners idx h)
unfolding owners shard_at
owners-IsWords {idx} h v = owners_of-IsWords h _ (v.each_shard (shard_for idx h))

pub set_shard-IsIndex :
    (idx : ShardedBlockIndexer) (i : ℕ) (shard : Shard)
    → i < length idx.shards
    → IsShard shard
    → IsIndex idx
    → IsIndex (set_shard idx i shard)
unfolding set_shard
set_shard-IsIndex idx i shard h s v = record {
  some_shard = rw (length-set idx.shards i shard) v.some_shard;
  each_shard =
      λ j. rw (get_or-set idx.shards i j shard [] h) (pick (i == j) _ _ s (v.each_shard j));
  alive_words = v.alive_words;
}
  where
    pick : (t : Bool) (x y : Shard) → IsShard x → IsShard y → IsShard (if t then x else y)
    pick true x y p q = p
    pick false x y p q = q

pub observe_pod-IsIndex :
    (idx : ShardedBlockIndexer) (pod_id : ℕ) → IsIndex idx → IsIndex (observe_pod idx pod_id)
unfolding observe_pod
observe_pod-IsIndex idx pod_id v = record {
  some_shard = v.some_shard;
  each_shard = v.each_shard;
  alive_words = v.alive_words;
}

pub set-is_empty :
    (b : HostBitmap) (pod_id : ℕ) → pod_id < 256 → Bitmap.is_empty (Bitmap.set b pod_id) ≡ false
set-is_empty b pod_id h =
    ground (arith, contains-is_empty (Bitmap.set b pod_id) pod_id, contains-set b pod_id pod_id)

insert-insert :
    (h : BlockHash) (v w : HostBitmap) (shard : Shard)
    → get h shard ≡ none
    → insert h v (insert h w shard) ≡ insert h v shard
unfolding insert get
insert-insert h v w [] e = ground arith
insert-insert h v w ((k, o) ∷ shard) e = ground (arith, insert-insert h v w shard)

-- `register` under the lock, without the intermediate empty entry.
pub register_in_lem :
    (shard : Shard) (pod_id : ℕ) (h : BlockHash)
    → register_in shard pod_id h ≡ (
        if Bitmap.contains (Option.get_or (get h shard) Bitmap.empty) pod_id
        then (shard, false)
        else (insert h (Bitmap.set (Option.get_or (get h shard) Bitmap.empty) pod_id) shard, true))
unfolding register_in or_insert
register_in_lem shard pod_id h = elim (Option-cases (get h shard)) [
  | inr (o, found) ↦ rw (found, or_insert, found)
  | inl absent ↦
      let fresh : get h (insert h Bitmap.empty shard) ≡ some Bitmap.empty =
        get-insert h h Bitmap.empty shard ∙ rw (==_refl h) in
      rw (absent, or_insert, fresh, contains-empty pod_id)
        (ap (λ (s : Shard). (s, true))
          (insert-insert h (Bitmap.set Bitmap.empty pod_id) Bitmap.empty shard absent))
]

register_in-IsShard :
    (shard : Shard) (pod_id : ℕ) (h : BlockHash)
    → pod_id < 256
    → IsShard shard
    → IsShard (register_in shard pod_id h).0
register_in-IsShard shard pod_id h p s =
    let o = Option.get_or (get h shard) Bitmap.empty in
    rw (register_in_lem shard pod_id h) (pick (Bitmap.contains o pod_id))
  where
    pick :
        (t : Bool)
        → IsShard
            (if◌then◌else◌ {A = Shard × Bool} t
              (shard, false)
              (
                insert h (Bitmap.set (Option.get_or (get h shard) Bitmap.empty) pod_id) shard,
                true,
              )).0
    pick true = s
    pick false =
        insert-IsShard h _ shard (set-IsWords _ pod_id (owners_of-IsWords h shard s))
          (set-is_empty _ pod_id p) s

evict_in-IsShard :
    (shard : Shard) (pod_id : ℕ) (h : BlockHash) → IsShard shard → IsShard (evict_in shard pod_id h)
unfolding evict_in
evict_in-IsShard shard pod_id h s = elim (Option-cases (get h shard)) [
  | inl absent ↦ rw (absent, evict_in) s
  | inr (o, found) ↦
      let words : IsWords (Bitmap.clear o pod_id) =
        clear-IsWords o pod_id (rw found at (owners_of-IsWords h shard s)) in
      elim (Bool-cases (Bitmap.is_empty (Bitmap.clear o pod_id))) [
        | inl gone ↦ rw (found, evict_in, gone) (remove-IsShard h shard s)
        | inr left ↦ rw (found, evict_in, left) (insert-IsShard h _ shard words left s)
      ]
]

-- Every operation keeps the index well formed; `register` for a pod id that the bitmaps can hold.
pub with_shards_and_alive-IsIndex :
    (pod_count shard_count : ℕ) (alive : HostBitmap)
    → IsWords alive
    → IsIndex (with_shards_and_alive pod_count shard_count alive)
unfolding with_shards_and_alive
with_shards_and_alive-IsIndex pod_count shard_count alive w = record {
  some_shard = rw (length-replicate {A = Shard} (max shard_count 1) []) (omega arith);
  each_shard = λ i. rw (get_or-replicate {A = Shard} (max shard_count 1) i []) tt;
  alive_words = w;
}

pub new-IsIndex : (pod_count : ℕ) → IsIndex (new pod_count)
unfolding new with_shards
new-IsIndex pod_count =
    with_shards_and_alive-IsIndex pod_count 256 _ (full_for_count-IsWords pod_count)

pub with_shards_empty_alive-IsIndex :
    (pod_count shard_count : ℕ) → IsIndex (with_shards_empty_alive pod_count shard_count)
unfolding with_shards_empty_alive
with_shards_empty_alive-IsIndex pod_count shard_count =
    with_shards_and_alive-IsIndex pod_count shard_count _ empty-IsWords

-- A registration keeps the index well-formed, for a pod id below 256: a shard for each hash, one
-- entry a hash in a shard, no entry without owners, and u64 words.
pub register-IsIndex :
    (idx : ShardedBlockIndexer) (pod_id : ℕ) (h : BlockHash)
    → pod_id < 256
    → IsIndex idx
    → IsIndex (register idx pod_id h).0
unfolding register shard_at
register-IsIndex idx pod_id h p v =
    let observed = observe_pod-IsIndex idx pod_id v in
    let i = shard_for (observe_pod idx pod_id) h in
    set_shard-IsIndex (observe_pod idx pod_id) i _ (shard_for-lt h observed)
      (register_in-IsShard _ pod_id h p (observed.each_shard i)) observed

-- An eviction keeps the index well-formed, whatever the pod id and the hash.
pub evict-IsIndex :
    (idx : ShardedBlockIndexer) (pod_id : ℕ) (h : BlockHash)
    → IsIndex idx
    → IsIndex (evict idx pod_id h)
unfolding evict shard_at
evict-IsIndex idx pod_id h v =
    let i = shard_for idx h in
    set_shard-IsIndex idx i _ (shard_for-lt h v) (evict_in-IsShard _ pod_id h (v.each_shard i)) v

pub mark_alive-IsIndex :
    (idx : ShardedBlockIndexer) (pod_id : ℕ) → IsIndex idx → IsIndex (mark_alive idx pod_id)
unfolding mark_alive observe_pod
mark_alive-IsIndex idx pod_id v = record {
  some_shard = v.some_shard;
  each_shard = v.each_shard;
  alive_words = set-IsWords _ pod_id v.alive_words;
}

pub shutdown-IsIndex :
    (idx : ShardedBlockIndexer) (pod_id : ℕ) → IsIndex idx → IsIndex (shutdown idx pod_id)
unfolding shutdown
shutdown-IsIndex idx pod_id v = record {
  some_shard = v.some_shard;
  each_shard = v.each_shard;
  alive_words = clear-IsWords _ pod_id v.alive_words;
}

pub retain_all-IsIndex :
    (idx : ShardedBlockIndexer) (keep : HostBitmap → HostBitmap)
    → ((b : HostBitmap) → IsWords b → IsWords (keep b))
    → IsIndex idx
    → IsIndex (record idx { shards = retain_all keep idx.shards })
retain_all-IsIndex idx keep w v = record {
  some_shard = rw (length-retain_all keep idx.shards) v.some_shard;
  each_shard =
      λ i. rw (get_or-retain_all keep idx.shards i) (retain-IsShard keep _ w (v.each_shard i));
  alive_words = v.alive_words;
}

-- The clean-up of one pod keeps the index well-formed.
pub cleanup_dead_pod-IsIndex :
    (idx : ShardedBlockIndexer) (pod_id : ℕ) → IsIndex idx → IsIndex (cleanup_dead_pod idx pod_id)
unfolding cleanup_dead_pod
cleanup_dead_pod-IsIndex idx pod_id v = retain_all-IsIndex idx _ (λ b w. clear-IsWords b pod_id w) v

-- The clean-up of the pods that are not alive keeps the index well-formed.
pub cleanup_not_alive-IsIndex :
    (idx : ShardedBlockIndexer) → IsIndex idx → IsIndex (cleanup_not_alive idx)
unfolding cleanup_not_alive
cleanup_not_alive-IsIndex idx v = retain_all-IsIndex idx _ (λ b w. and-IsWords b idx.alive w) v

pub clear-IsIndex : (idx : ShardedBlockIndexer) → IsIndex idx → IsIndex (clear idx)
unfolding clear
clear-IsIndex idx v = record {
  some_shard = rw (length-clear_all idx.shards) v.some_shard;
  each_shard = λ i. rw (get_or-clear_all idx.shards i) tt;
  alive_words = v.alive_words;
}
