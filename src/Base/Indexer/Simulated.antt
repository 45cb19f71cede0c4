-- ===== src/Base/Indexer/Simulated.antt =====
-- The operations of the prototype's index do to the shards and the live pods what those of the
-- present index do.
use mathlib.Core.Option
use calinix.Base.Indexer
use calinix.Base.Indexer.{BaseIndexer, set_below, shard_of, write_shard}
use calinix.Bitmap
use calinix.Bitmap.{HostBitmap}
use calinix.Bitmap.Bounds.{contains-full_for_count, full_for_count-IsWords}
use calinix.Bitmap.Laws.{contains-set, contains-empty, set-IsWords, empty-IsWords}
use calinix.Bitmap.Members.{IsWords, contains_ext}
use calinix.Hash.{BlockHash, base_shard_for_fibonacci, shard_for_with_count, shard_for_fibonacci}
use calinix.Hash.Sharding.{shard_for_fibonacci-base}
use calinix.Index
use calinix.Index.{
  ShardedBlockIndexer, shard_for, shard_at, set_shard, observe_pod, register_in, evict_in,
  retain_all,
}
use calinix.Index.Shards.{length-retain_all}
use calinix.Index.Entries.{Shard, get, insert, or_insert, IsShard, get-insert}
use calinix.Index.Invariant.{
  IsIndex, owners_of-IsWords, register-IsIndex, evict-IsIndex, shutdown-IsIndex,
  cleanup_dead_pod-IsIndex, new-IsIndex,
}
use calinix.Prelude.{
  ℕ, zero, suc, ◌<◌, min, ◌≡◌, refl, sym, ap, ◌∙◌, inl, inr, true, ◌&&◌, none, some, List, [], ◌∷◌,
  arith, ltb, ◌==◌, if◌then◌else◌, ==_refl, Bool-cases, Option-cases, length, length-set,
  length-replicate, set-get_or,
}

-- The two indexes have the same 256 shards and the same live pods.
pub record IsSame (b : BaseIndexer) (idx : ShardedBlockIndexer) : Type 0 where
  pub full : length idx.shards ≡ 256
  pub shards : b.shards ≡ idx.shards
  pub alive : b.alive ≡ idx.alive
  pub index : IsIndex idx

shard_for-base :
    (idx : ShardedBlockIndexer) (h : BlockHash)
    → length idx.shards ≡ 256
    → shard_for idx h ≡ base_shard_for_fibonacci h
unfolding shard_for shard_for_with_count shard_for_fibonacci
shard_for-base idx h full = rw full (shard_for_fibonacci-base h)

insert_same :
    (h : BlockHash) (o : HostBitmap) (shard : Shard)
    → get h shard ≡ some o
    → insert h o shard ≡ shard
unfolding get insert
insert_same h o [] e = absurd (ground arith)
insert_same h o ((k, v) ∷ shard) e = elim (Bool-cases (k == h)) [
  | inl same ↦
      let found : some v ≡ some o = sym (ap (λ t. if t then some v else get h shard) same) ∙ e in
      let equal : v ≡ o = ap (λ q. elim q [ none ↦ v | some a ↦ a ]) found in rw (same, equal)
  | inr other ↦ rw other (
      ap (λ rest. (k, v) ∷ rest)
        (insert_same h o shard (sym (ap (λ t. if t then some v else get h shard) other) ∙ e)))
]

-- Setting a member changes nothing.
set-contains :
    (o : HostBitmap) (p : ℕ) → IsWords o → Bitmap.contains o p ≡ true → Bitmap.set o p ≡ o
set-contains o p w h =
    contains_ext (Bitmap.set o p) o (set-IsWords o p w) w
      (λ q. ground (arith, contains-set o p q, ap (Bitmap.contains o)))

-- The write without a look is the write after one.
register_in-write :
    (shard : Shard) (p : ℕ) (h : BlockHash)
    → IsShard shard
    → let guard = or_insert h Bitmap.empty shard in
      insert h (Bitmap.set (Option.get_or (get h guard) Bitmap.empty) p) guard
      ≡ (register_in shard p h).0
unfolding register_in or_insert insert
register_in-write shard p h s = elim (Option-cases (get h shard)) [
  | inl absent ↦
      let guard : or_insert h Bitmap.empty shard ≡ insert h Bitmap.empty shard =
        rw (absent, or_insert) refl in
      let fresh : get h (insert h Bitmap.empty shard) ≡ some Bitmap.empty =
        get-insert h h Bitmap.empty shard ∙ rw (==_refl h) in
      rw (guard, fresh, contains-empty p) refl
  | inr (o, found) ↦
      let guard : or_insert h Bitmap.empty shard ≡ shard = rw (found, or_insert) refl in
      let words : IsWords o = rw found at (owners_of-IsWords h shard s) in
      rw (guard, found)
        (elim (Bool-cases (Bitmap.contains o p)) [
          | inl member ↦ rw member (
              ap (λ q. insert h q shard) (set-contains o p words member)
              ∙ insert_same h o shard found)
          | inr new ↦ rw new refl
        ])
]

module _ (b : BaseIndexer) (idx : ShardedBlockIndexer) (v : IsSame b idx) where
  shard_of-shard_at : (h : BlockHash) → shard_of b h ≡ shard_at idx (shard_for idx h)
  unfolding shard_of shard_at
  shard_of-shard_at h = rw (v.shards, shard_for-base idx h v.full)

  -- Both write the same shard.
  write_shard-set_shard :
      (h : BlockHash) (shard : Shard)
      → (write_shard b h shard).shards ≡ (set_shard idx (shard_for idx h) shard).shards
  unfolding write_shard set_shard
  write_shard-set_shard h shard = rw (v.shards, shard_for-base idx h v.full)

  register-IsSame :
      (p : ℕ) (h : BlockHash) → p < 256 → IsSame (Indexer.register b p h) (Index.register idx p h).0
  unfolding Indexer.register Index.register observe_pod shard_for set_shard shard_at write_shard
  register-IsSame p h fits = record {
    full = unfold set_shard in length-set idx.shards (shard_for idx h) _ ∙ v.full;
    shards =
        write_shard-set_shard h _
        ∙ ap (λ (s : Shard). (set_shard idx (shard_for idx h) s).shards)
            (rw (shard_of-shard_at h) (
              register_in-write (shard_at idx (shard_for idx h)) p h
                (unfold shard_at in (v.index.each_shard (shard_for idx h)))));
    alive = v.alive;
    index = register-IsIndex idx p h fits v.index;
  }

  evict_same :
      (p : ℕ) (h : BlockHash)
      → ((Indexer.evict b p h).shards ≡ (Index.evict idx p h).shards)
        × ((Indexer.evict b p h).alive ≡ b.alive)
  unfolding Indexer.evict Index.evict evict_in
  evict_same p h = elim (Option-cases (get h (shard_of b h))) [
    | inl absent ↦
        let there : get h (shard_at idx (shard_for idx h)) ≡ none =
          rw (← shard_of-shard_at h) absent in
        rw (absent, Indexer.evict, there, evict_in)
          (
            unfold set_shard shard_at in
                (v.shards ∙ sym (set-get_or idx.shards (shard_for idx h) [])),
            refl,
          )
    | inr (o, found) ↦
        let there : get h (shard_at idx (shard_for idx h)) ≡ some o =
          rw (← shard_of-shard_at h) found in
        rw (found, Indexer.evict, there, evict_in)
          (write_shard-set_shard h _ ∙ rw (shard_of-shard_at h) refl, unfold write_shard in refl)
  ]

  evict-IsSame : (p : ℕ) (h : BlockHash) → IsSame (Indexer.evict b p h) (Index.evict idx p h)
  unfolding Index.evict set_shard
  evict-IsSame p h =
      let (shards, alive) = evict_same p h in
      record {
        full = length-set idx.shards (shard_for idx h) _ ∙ v.full;
        shards = shards;
        alive = alive ∙ v.alive;
        index = evict-IsIndex idx p h v.index;
      }

  shutdown-IsSame : (p : ℕ) → IsSame (Indexer.shutdown b p) (Index.shutdown idx p)
  unfolding Indexer.shutdown Index.shutdown
  shutdown-IsSame p = record {
    full = v.full;
    shards = v.shards;
    alive = ap (λ (a : HostBitmap). Bitmap.clear a p) v.alive;
    index = shutdown-IsIndex idx p v.index;
  }

  cleanup_dead_pod-IsSame :
      (p : ℕ) → IsSame (Indexer.cleanup_dead_pod b p) (Index.cleanup_dead_pod idx p)
  unfolding Indexer.cleanup_dead_pod Index.cleanup_dead_pod
  cleanup_dead_pod-IsSame p = record {
    full = length-retain_all (λ owners. Bitmap.clear owners p) idx.shards ∙ v.full;
    shards = ap (retain_all (λ owners. Bitmap.clear owners p)) v.shards;
    alive = v.alive;
    index = cleanup_dead_pod-IsIndex idx p v.index;
  }

-- The loop that sets one pod after the other gives the full bitmap.
set_below-contains :
    (n : ℕ)
    → IsWords (set_below n) × ((i : ℕ) → Bitmap.contains (set_below n) i ≡ (ltb i n && ltb i 256))
unfolding set_below
set_below-contains zero = (empty-IsWords, λ i. ground (arith, contains-empty i))
set_below-contains (suc n) =
    let (words, members) = set_below-contains n in
    (
      set-IsWords (set_below n) n words,
      λ i. ground (arith, contains-set (set_below n) n i, members i),
    )

full_for_count-same : (count : ℕ) → Indexer.full_for_count count ≡ Bitmap.full_for_count count
unfolding Indexer.full_for_count
full_for_count-same count =
    let (words, members) = set_below-contains (min count 256) in
    contains_ext _ _ words (full_for_count-IsWords count)
      (λ i. ground (arith, members i, contains-full_for_count count i))

new-IsSame : (pod_count : ℕ) → IsSame (Indexer.new pod_count) (Index.new pod_count)
unfolding Indexer.new Index.new Index.with_shards Index.with_shards_and_alive
new-IsSame pod_count = record {
  full = length-replicate {A = Shard} 256 [];
  shards = refl;
  alive = full_for_count-same pod_count;
  index = new-IsIndex pod_count;
}

-- An operation of the index, for a pod and a hash.
pub data Operation : Type 0 where
  registering : ℕ → BlockHash → Operation
  evicting : ℕ → BlockHash → Operation
  shutting_down : ℕ → Operation
  cleaning_up : ℕ → Operation

abbrev pub Fits : Operation → Type 0
Fits (registering p h) = p < 256
Fits (evicting p h) = Unit {0}
Fits (shutting_down p) = Unit {0}
Fits (cleaning_up p) = Unit {0}

abbrev pub AllFit : List Operation → Type 0
AllFit [] = Unit {0}
AllFit (o ∷ os) = Fits o × AllFit os

abbrev pub run_base : BaseIndexer → List Operation → BaseIndexer
run_base b [] = b
run_base b (registering p h ∷ os) = run_base (Indexer.register b p h) os
run_base b (evicting p h ∷ os) = run_base (Indexer.evict b p h) os
run_base b (shutting_down p ∷ os) = run_base (Indexer.shutdown b p) os
run_base b (cleaning_up p ∷ os) = run_base (Indexer.cleanup_dead_pod b p) os

abbrev pub run_present : ShardedBlockIndexer → List Operation → ShardedBlockIndexer
run_present idx [] = idx
run_present idx (registering p h ∷ os) = run_present (Index.register idx p h).0 os
run_present idx (evicting p h ∷ os) = run_present (Index.evict idx p h) os
run_present idx (shutting_down p ∷ os) = run_present (Index.shutdown idx p) os
run_present idx (cleaning_up p ∷ os) = run_present (Index.cleanup_dead_pod idx p) os

run-IsSame :
    (os : List Operation) (b : BaseIndexer) (idx : ShardedBlockIndexer)
    → AllFit os
    → IsSame b idx
    → IsSame (run_base b os) (run_present idx os)
run-IsSame [] b idx fits v = v
run-IsSame (registering p h ∷ os) b idx fits v =
    run-IsSame os _ _ fits.1 (register-IsSame b idx v p h fits.0)
run-IsSame (evicting p h ∷ os) b idx fits v = run-IsSame os _ _ fits.1 (evict-IsSame b idx v p h)
run-IsSame (shutting_down p ∷ os) b idx fits v =
    run-IsSame os _ _ fits.1 (shutdown-IsSame b idx v p)
run-IsSame (cleaning_up p ∷ os) b idx fits v =
    run-IsSame os _ _ fits.1 (cleanup_dead_pod-IsSame b idx v p)

-- After any sequence of registrations with pod ids below 256, evictions, shutdowns and clean-ups
-- from new indexes for the same number of pods: the index of the prototype, which writes without
-- looking, has its 256 shards, and they and the live pods are those of the present index, which is
-- well-formed.
pub run_base-IsSame :
    (pod_count : ℕ) (os : List Operation)
    → AllFit os
    → IsSame (run_base (Indexer.new pod_count) os) (run_present (Index.new pod_count) os)
run_base-IsSame pod_count os fits = run-IsSame os _ _ fits (new-IsSame pod_count)
