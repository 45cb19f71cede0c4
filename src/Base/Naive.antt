-- ===== src/Base/Naive.antt =====
-- src/base/bench_part2.rs, `query_prefix_depths_naive`: the linear scan that the prototype compares
-- its query with. `none` stands for a panic (a pod id out of the range of the depths).
pub mod Tested
pub mod Scanned
use calinix.Base.Indexer.{BaseIndexer, owners_alive}
use calinix.Bitmap
use calinix.Bitmap.{HostBitmap, max_pods}
use calinix.Hash.{BlockHash}
use calinix.Prelude.{
  ℕ, zero, suc, ◌+◌, ◌-◌, ◌*◌, ◌/◌, ◌%◌, ◌^◌, ◌≤◌, ◌<◌, min, max, ◌≡◌, refl, sym, ap, ap₂, ◌∙◌,
  subst, fun_ext, ◌≢◌, ◌↔◌, ◌⊎◌, inl, inr, Bool, true, false, not, ◌&&◌, ◌||◌, Option, none, some,
  List, [], ◌∷◌, ◌++◌, map, append_assoc, append-nil, arith, ltb, leb, ◌==◌, if◌then◌else◌, ltb→lt,
  lt→ltb, leb→le, ==_iff, ==_refl, tests, Bool-cases, Option-cases, length, get_elem?, get_or,
  set as set_elem, take, replicate, length-append, length-set, length-replicate, get_or-replicate,
  get_or-set, get_elem?-get_or, get_elem?-beyond, get_elem?-cases, get_elem?-left, get_elem?-last,
  get_or-beyond, get_or_ext, set-get_or, lt_wf,
}

pub record NaiveQueryResult : Type 0 where
  pub depths : List ℕ
  pub shard_lookups : ℕ
  pub pod_bit_tests : ℕ

-- What the loops change.
pub record NaiveState : Type 0 where
  pub result : NaiveQueryResult
  pub still_matching_pods : HostBitmap

unfoldable pub write_depth : NaiveQueryResult → ℕ → ℕ → NaiveQueryResult
write_depth result pod depth = record result {
  depths = set_elem result.depths pod depth;
  pod_bit_tests = result.pod_bit_tests + 1;
}

-- The closure for a pod, once the pods that own the block are known.
unfoldable pub test_pod : HostBitmap → ℕ → NaiveState → ℕ → Option NaiveState
test_pod pods_owning_block depth s pod =
    if Bitmap.contains s.still_matching_pods pod
    then (if Bitmap.contains pods_owning_block pod
        then (if ltb pod (length s.result.depths)
            then some (record s { result = write_depth s.result pod depth })
            else none)
        else some (record {
          result = record s.result { pod_bit_tests = s.result.pod_bit_tests + 1 };
          still_matching_pods = Bitmap.clear s.still_matching_pods pod;
        }))
    else some s

unfoldable pub visit_pod : HostBitmap → ℕ → Option NaiveState → ℕ → Option NaiveState
visit_pod pods_owning_block depth none pod = none
visit_pod pods_owning_block depth (some s) pod = test_pod pods_owning_block depth s pod

unfoldable pub count_lookup : NaiveState → NaiveState
count_lookup s = record s {
  result = record s.result { shard_lookups = s.result.shard_lookups + 1 };
}

-- The loop over the blocks from `block_index` on.
unfoldable pub scan_blocks :
    BaseIndexer → HostBitmap → ℕ → List BlockHash → Option NaiveState → Option NaiveState
scan_blocks indexer alive_candidate_pods block_index [] s = s
scan_blocks indexer alive_candidate_pods block_index (hash ∷ query_chain) none = none
scan_blocks indexer alive_candidate_pods block_index (hash ∷ query_chain) (some s) =
    scan_blocks indexer alive_candidate_pods (block_index + 1) query_chain (
      Bitmap.for_each_set_bit (visit_pod (owners_alive indexer hash) (block_index + 1))
        alive_candidate_pods (some (count_lookup s)))

unfoldable pub query_prefix_depths_naive :
    BaseIndexer → List BlockHash → HostBitmap → Option NaiveQueryResult
query_prefix_depths_naive indexer query_chain candidate_pods =
    let alive_candidate_pods = Bitmap.and candidate_pods indexer.alive in
    let start : NaiveState = record {
      result = record { depths = replicate max_pods 0; shard_lookups = 0; pod_bit_tests = 0 };
      still_matching_pods = alive_candidate_pods;
    } in
    elim (scan_blocks indexer alive_candidate_pods 0 query_chain (some start)) [
      | none ↦ none
      | some s ↦ some s.result
    ]
