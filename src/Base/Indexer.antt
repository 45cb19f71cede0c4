-- ===== src/Base/Indexer.antt =====
-- src/base/indexer.rs and bitmap.rs: the index of the prototype. Its shards are the hash maps of the
-- present index; there are always 256 of them, and a registration writes without looking first. The
-- bitmap has the same words and operations as the present one, and a loop of its own for the first
-- pods.
pub mod Simulated
use mathlib.Core.Option
use calinix.Bitmap
use calinix.Bitmap.{HostBitmap, max_pods}
use calinix.Hash.{BlockHash, base_shard_for_fibonacci}
use calinix.Index.{retain_all}
use calinix.Index.Entries.{Shard, get, or_insert, insert, remove}
use calinix.Prelude.{
  ℕ, zero, suc, ◌+◌, ◌-◌, ◌*◌, ◌/◌, ◌%◌, ◌^◌, ◌≤◌, ◌<◌, min, max, ◌≡◌, refl, sym, ap, ap₂, ◌∙◌,
  subst, fun_ext, ◌≢◌, ◌↔◌, ◌⊎◌, inl, inr, Bool, true, false, not, ◌&&◌, ◌||◌, Option, none, some,
  List, [], ◌∷◌, ◌++◌, map, append_assoc, append-nil, arith, ltb, leb, ◌==◌, if◌then◌else◌, ltb→lt,
  lt→ltb, leb→le, ==_iff, ==_refl, tests, Bool-cases, Option-cases, length, get_elem?, get_or,
  set as set_elem, take, replicate, length-append, length-set, length-replicate, get_or-replicate,
  get_or-set, get_elem?-get_or, get_elem?-beyond, get_elem?-cases, get_elem?-left, get_elem?-last,
  get_or-beyond, lt_wf,
}

abbrev pub shards_count : ℕ
shards_count = 256

pub record BaseIndexer : Type 0 where
  pub shards : List Shard
  pub alive : HostBitmap

-- `for pod_id in 0..n { bitmap.set(pod_id); }`
unfoldable pub set_below : ℕ → HostBitmap
set_below zero = Bitmap.empty
set_below (suc n) = Bitmap.set (set_below n) n

unfoldable pub full_for_count : ℕ → HostBitmap
full_for_count count = set_below (min count max_pods)

unfoldable pub new : ℕ → BaseIndexer
new pod_count = record { shards = replicate shards_count []; alive = full_for_count pod_count }

-- `self.shards[shard]`; the shard of a hash is in range (`shard_for-lt`).
unfoldable pub shard_of : BaseIndexer → BlockHash → Shard
shard_of indexer cumulative_hash =
    get_or indexer.shards (base_shard_for_fibonacci cumulative_hash) []

unfoldable pub write_shard : BaseIndexer → BlockHash → Shard → BaseIndexer
write_shard indexer cumulative_hash shard = record indexer {
  shards = set_elem indexer.shards (base_shard_for_fibonacci cumulative_hash) shard;
}

unfoldable pub register : BaseIndexer → ℕ → BlockHash → BaseIndexer
register indexer pod_id cumulative_hash =
    let guard = or_insert cumulative_hash Bitmap.empty (shard_of indexer cumulative_hash) in
    let owners = Option.get_or (get cumulative_hash guard) Bitmap.empty in
    write_shard indexer cumulative_hash (insert cumulative_hash (Bitmap.set owners pod_id) guard)

unfoldable pub evict : BaseIndexer → ℕ → BlockHash → BaseIndexer
evict indexer pod_id cumulative_hash =
    let guard = shard_of indexer cumulative_hash in
    elim (get cumulative_hash guard) [
      | none ↦ indexer
      | some owners ↦
          let cleared = Bitmap.clear owners pod_id in
          write_shard indexer cumulative_hash (
            if Bitmap.is_empty cleared
            then remove cumulative_hash guard
            else insert cumulative_hash cleared guard)
    ]

unfoldable pub shutdown : BaseIndexer → ℕ → BaseIndexer
shutdown indexer pod_id = record indexer { alive = Bitmap.clear indexer.alive pod_id }

unfoldable pub owners : BaseIndexer → BlockHash → HostBitmap
owners indexer cumulative_hash =
    Option.get_or (get cumulative_hash (shard_of indexer cumulative_hash)) Bitmap.empty

unfoldable pub owners_alive : BaseIndexer → BlockHash → HostBitmap
owners_alive indexer cumulative_hash = Bitmap.and (owners indexer cumulative_hash) indexer.alive

unfoldable pub cleanup_dead_pod : BaseIndexer → ℕ → BaseIndexer
cleanup_dead_pod indexer pod_id = record indexer {
  shards = retain_all (λ owners. Bitmap.clear owners pod_id) indexer.shards;
}

unfoldable pub shard_entry_counts : BaseIndexer → List ℕ
shard_entry_counts indexer = map length indexer.shards
