-- ===== src/Index/Owners.antt =====
-- What the index says after an operation: the set of owners at each hash.
use mathlib.Core.Option
use calinix.Bitmap
use calinix.Bitmap.{HostBitmap}
use calinix.Bitmap.Laws.{
  contains-empty, contains-set, contains-clear, contains-and, contains-is_empty,
}
use calinix.Hash.{BlockHash}
use calinix.Index.{
  ShardedBlockIndexer, shard_for, observe_pod, shard_at, set_shard, register_in, register, evict_in,
  evict, mark_alive, shutdown, owners, owners_alive, retain_all, cleanup_dead_pod,
  cleanup_not_alive, clear,
}
use calinix.Index.Entries.{Shard, get, IsShard, kept, get-insert, get-remove, get-retain}
use calinix.Index.Shards.{length-retain_all, get_or-retain_all, get_or-clear_all}
use calinix.Index.Invariant.{IsIndex, shard_for-lt, observe_pod-IsIndex, register_in_lem}
use calinix.Prelude.{
  ℕ, ◌≡◌, refl, sym, ap, ◌∙◌, inl, inr, Bool, true, false, not, ◌&&◌, ◌||◌, Option, none, some, [],
  arith, ltb, ◌==◌, if◌then◌else◌, Bool-cases, Option-cases, length-set, get_or-set,
}

-- The pod ids that own a hash, as a test; this is what a client can see of the index.
abbrev pub owns : ShardedBlockIndexer → BlockHash → ℕ → Bool
owns idx h pod_id = Bitmap.contains (owners idx h) pod_id

abbrev owns_in : Shard → BlockHash → ℕ → Bool
owns_in shard h pod_id = Bitmap.contains (Option.get_or (get h shard) Bitmap.empty) pod_id

module _ (idx : ShardedBlockIndexer) (v : IsIndex idx) (h : BlockHash) (shard : Shard) where
  -- A write of the shard of `h` changes the hashes of that shard.
  owners-set_shard :
      (h' : BlockHash)
      → owners (set_shard idx (shard_for idx h) shard) h'
        ≡ Option.get_or
            (get h' (
              if shard_for idx h == shard_for idx h'
              then shard
              else shard_at idx (shard_for idx h')))
            Bitmap.empty
  unfolding owners set_shard shard_at shard_for
  owners-set_shard h' = rw (
    length-set idx.shards (shard_for idx h) shard,
    get_or-set idx.shards (shard_for idx h) (shard_for idx h') shard [] (shard_for-lt h v),
  )

  -- If the new shard agrees with the old one but at `h`, so do the owners.
  owns-set_shard :
      (change : ℕ → Bool → Bool)
      → ((h' : BlockHash) (q : ℕ)
          → owns_in shard h' q ≡ (
              if h == h'
              then change q (owns_in (shard_at idx (shard_for idx h)) h' q)
              else owns_in (shard_at idx (shard_for idx h)) h' q))
      → (h' : BlockHash) (q : ℕ)
      → owns (set_shard idx (shard_for idx h) shard) h' q
        ≡ (if h == h' then change q (owns idx h' q) else owns idx h' q)
  unfolding owners
  owns-set_shard change local h' q =
      ap (λ (o : HostBitmap). Bitmap.contains o q) (owners-set_shard h')
      ∙ elim (Bool-cases (shard_for idx h == shard_for idx h')) [
        | inl same ↦
            let there : shard_for idx h' ≡ shard_for idx h = ground arith in
            rw (same, there) (local h' q)
        | inr apart ↦ rw apart (ground (arith, ap {A = BlockHash} (shard_for idx)))
      ]

-- Changes of one shard.
owns_in-register :
    (shard : Shard) (pod_id : ℕ) (h h' : BlockHash) (q : ℕ)
    → owns_in (register_in shard pod_id h).0 h' q ≡ (
        if h == h'
        then (pod_id == q && ltb pod_id 256) || owns_in shard h' q
        else owns_in shard h' q)
owns_in-register shard pod_id h h' q =
    let o = Option.get_or (get h shard) Bitmap.empty in
    ground (
      arith,
      register_in_lem shard pod_id h,
      get-insert h h' (Bitmap.set o pod_id) shard,
      contains-set o pod_id q,
      ap {A = BlockHash} (λ k. get k shard),
    )

owns_in-evict :
    (shard : Shard) (pod_id : ℕ) (h h' : BlockHash) (q : ℕ)
    → IsShard shard
    → owns_in (evict_in shard pod_id h) h' q
      ≡ (if h == h' then not (pod_id == q) && owns_in shard h' q else owns_in shard h' q)
unfolding evict_in
owns_in-evict shard pod_id h h' q s = elim (Option-cases (get h shard)) [
  | inl absent ↦
      rw (absent, evict_in)
        (ground (arith, ap {A = BlockHash} (λ k. get k shard), contains-empty q))
  | inr (o, found) ↦
      let c = Bitmap.clear o pod_id in
      rw (found, evict_in)
        (ground (
          arith,
          get-remove h h' shard s,
          get-insert h h' c shard,
          contains-clear o pod_id q,
          contains-is_empty c q,
          contains-empty q,
          ap {A = BlockHash} (λ k. get k shard),
        ))
]

-- After a registration in a well-formed index, the pod owns the hash, if its id is below 256; no
-- other pair of a hash and a pod changes. The result says whether the pod did not own the hash
-- before.
pub register-owns :
    (idx : ShardedBlockIndexer) (pod_id : ℕ) (h h' : BlockHash) (q : ℕ)
    → IsIndex idx
    → (owns (register idx pod_id h).0 h' q
        ≡ (if h == h' then (pod_id == q && ltb pod_id 256) || owns idx h' q else owns idx h' q))
      × ((register idx pod_id h).1 ≡ not (owns idx h pod_id))
unfolding register shard_for shard_at
register-owns idx pod_id h h' q v = (
  owns-set_shard (observe_pod idx pod_id) (observe_pod-IsIndex idx pod_id v) h _
        (λ p old. (pod_id == p && ltb pod_id 256) || old) (λ k p. owns_in-register _ pod_id h k p)
        h' q
      ∙ unfold owners observe_pod shard_for shard_at in refl,
  unfold owners observe_pod in
      (ap (λ (r : Shard × Bool). r.1) (register_in_lem _ pod_id h)
        ∙ second (owns idx h pod_id) _ _),
)
  where
    second :
        (t : Bool) (x y : Shard)
        → (if◌then◌else◌ {A = Shard × Bool} t (x, false) (y, true)).1 ≡ not t
    second true x y = refl
    second false x y = refl

-- After an eviction from a well-formed index, the pod does not own the hash, and no other pair
-- changes.
pub evict-owns :
    (idx : ShardedBlockIndexer) (pod_id : ℕ) (h h' : BlockHash) (q : ℕ)
    → IsIndex idx
    → owns (evict idx pod_id h) h' q
      ≡ (if h == h' then not (pod_id == q) && owns idx h' q else owns idx h' q)
unfolding evict
evict-owns idx pod_id h h' q v =
    owns-set_shard idx v h _ (λ p old. not (pod_id == p) && old)
      (λ k p. owns_in-evict _ pod_id h k p (unfold shard_at in v.each_shard _)) h' q

-- Marking a pod alive and shutting it down leave the owners of every hash alone.
pub liveness-owners :
    (idx : ShardedBlockIndexer) (pod_id : ℕ) (h : BlockHash)
    → (owners (mark_alive idx pod_id) h ≡ owners idx h)
      × (owners (shutdown idx pod_id) h ≡ owners idx h)
unfolding owners mark_alive shutdown observe_pod shard_for shard_at
liveness-owners idx pod_id h = (refl, refl)

owners-retain_all :
    (idx : ShardedBlockIndexer) (keep : HostBitmap → HostBitmap) (h : BlockHash)
    → IsIndex idx
    → owners (record idx { shards = retain_all keep idx.shards }) h
      ≡ Option.get_or (kept keep (get h (shard_at idx (shard_for idx h)))) Bitmap.empty
unfolding owners shard_for shard_at
owners-retain_all idx keep h v =
    let i = shard_for idx h in
    rw (
      length-retain_all keep idx.shards,
      get_or-retain_all keep idx.shards,
      get-retain keep h _ (v.each_shard i),
    )

owns-kept :
    (keep : HostBitmap → HostBitmap) (o : Option HostBitmap) (q : ℕ)
    → (Bitmap.contains (keep Bitmap.empty) q ≡ false)
    → Bitmap.contains (Option.get_or (kept keep o) Bitmap.empty) q
      ≡ Bitmap.contains (keep (Option.get_or o Bitmap.empty)) q
owns-kept keep none q e = contains-empty q ∙ sym e
owns-kept keep (some b) q e = ground (arith, contains-is_empty (keep b) q, contains-empty q)

-- The clean-up of a pod takes it away from every hash of a well-formed index, and changes no other
-- pod.
pub cleanup_dead_pod-owns :
    (idx : ShardedBlockIndexer) (pod_id : ℕ) (h : BlockHash) (q : ℕ)
    → IsIndex idx
    → owns (cleanup_dead_pod idx pod_id) h q ≡ (not (pod_id == q) && owns idx h q)
unfolding cleanup_dead_pod owners
cleanup_dead_pod-owns idx pod_id h q v =
    let keep = λ (o : HostBitmap). Bitmap.clear o pod_id in
    let before = get h (shard_at idx (shard_for idx h)) in
    let none_left : Bitmap.contains (Bitmap.clear Bitmap.empty pod_id) q ≡ false =
      ground (arith, contains-clear Bitmap.empty pod_id q, contains-empty q) in
    ap (λ (o : HostBitmap). Bitmap.contains o q) (owners-retain_all idx keep h v)
    ∙ owns-kept keep before q none_left
    ∙ ground (arith, contains-clear (Option.get_or before Bitmap.empty) pod_id q)

-- The clean-up of dead pods leaves, at every hash of a well-formed index, the owners that are
-- alive.
pub cleanup_not_alive-owns :
    (idx : ShardedBlockIndexer) (h : BlockHash) (q : ℕ)
    → IsIndex idx
    → owns (cleanup_not_alive idx) h q ≡ Bitmap.contains (owners_alive idx h) q
unfolding cleanup_not_alive owners_alive owners
cleanup_not_alive-owns idx h q v =
    let keep = λ (o : HostBitmap). Bitmap.and o idx.alive in
    let before = get h (shard_at idx (shard_for idx h)) in
    let none_left : Bitmap.contains (Bitmap.and Bitmap.empty idx.alive) q ≡ false =
      ground (arith, contains-and Bitmap.empty idx.alive q, contains-empty q) in
    ap (λ (o : HostBitmap). Bitmap.contains o q) (owners-retain_all idx keep h v)
    ∙ owns-kept keep before q none_left

-- A cleared index has no owners.
pub clear-owns : (idx : ShardedBlockIndexer) (h : BlockHash) (q : ℕ) → owns (clear idx) h q ≡ false
unfolding clear owners shard_at
clear-owns idx h q = rw (get_or-clear_all idx.shards) (unfold get in contains-empty q)
