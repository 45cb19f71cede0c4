-- ===== src/Base/Router.antt =====
-- src/base/main.rs and types.rs: the router of the prototype. A request goes through prepare, filter,
-- score and pick; the mock execution, the measurements and the output are left out.
-- An outer `none` stands for a panic (an index out of range) or the end of the query's fuel.
pub mod Candidates
pub mod Best
pub mod Routed
use calinix.Base.Indexer
use calinix.Base.Indexer.{BaseIndexer}
use calinix.Base.Search.{longest_prefix_lengths_for_candidates}
use calinix.Bitmap
use calinix.Bitmap.{HostBitmap}
use calinix.Hash.{Text, BlockHash, base_prompt_to_cumulative_hashes}
use calinix.Query.{◌>>=◌}
use calinix.Text.{same_text}
use calinix.Prelude.{
  ℕ, zero, suc, ◌+◌, ◌-◌, ◌*◌, ◌/◌, ◌%◌, ◌^◌, ◌≤◌, ◌<◌, min, max, ◌≡◌, refl, sym, ap, ap₂, ◌∙◌,
  subst, fun_ext, ◌≢◌, ◌↔◌, ◌⊎◌, inl, inr, Bool, true, false, not, ◌&&◌, ◌||◌, Option, none, some,
  List, [], ◌∷◌, ◌++◌, map, append_assoc, append-nil, arith, ltb, leb, ◌==◌, if◌then◌else◌, ltb→lt,
  lt→ltb, leb→le, ==_iff, ==_refl, tests, Bool-cases, Option-cases, length, get_elem?, get_or,
  set as set_elem, take, replicate, length-append, length-set, length-replicate, get_or-replicate,
  get_or-set, get_elem?-get_or, get_elem?-beyond, get_elem?-cases, get_elem?-left, get_elem?-last,
  get_or-beyond, get_or_ext, set-get_or, lt_wf,
}

pub data Mode : Type 0 where
  single : Mode
  disaggregated : Mode

pub data BasePodRole : Type 0 where
  prefill : BasePodRole
  decode : BasePodRole
  both : BasePodRole

pub record Pod : Type 0 where
  pub id : ℕ
  pub role : BasePodRole
  pub node : Text

pub record PreparedRequest : Type 0 where
  pub prompt : Text
  pub cumulative_hashes : List BlockHash

pub record FilteredCandidates : Type 0 where
  pub role : BasePodRole
  pub candidate_pods : HostBitmap

pub record ScoredCandidate : Type 0 where
  pub pod_id : ℕ
  pub prefix_len : ℕ
  pub score : ℕ

pub record PickedPod : Type 0 where
  pub pod_id : ℕ

pub data ExecutionPlan : Type 0 where
  single_plan : ℕ → ExecutionPlan
  disaggregated_plan : ℕ → ℕ → ExecutionPlan

-- The derived `==` of the roles.
unfoldable pub is_role : BasePodRole → BasePodRole → Bool
is_role prefill prefill = true
is_role decode decode = true
is_role both both = true
is_role prefill decode = false
is_role prefill both = false
is_role decode prefill = false
is_role decode both = false
is_role both prefill = false
is_role both decode = false

unfoldable pub prepare : Text → PreparedRequest
prepare prompt = record {
  prompt = prompt;
  cumulative_hashes = base_prompt_to_cumulative_hashes prompt;
}

-- The match on the wanted role.
unfoldable pub matches : BasePodRole → BasePodRole → Bool
matches both role = is_role role both
matches prefill role = is_role role prefill || is_role role both
matches decode role = is_role role decode || is_role role both

-- The loop over the pods.
unfoldable pub add_matching : List Pod → BasePodRole → HostBitmap → HostBitmap
add_matching [] wanted bitmap = bitmap
add_matching (pod ∷ pods) wanted bitmap =
    add_matching pods wanted (if matches wanted pod.role then Bitmap.set bitmap pod.id else bitmap)

unfoldable pub role_candidates : List Pod → BasePodRole → HostBitmap
role_candidates pods wanted = add_matching pods wanted Bitmap.empty

unfoldable pub filtered : List Pod → BaseIndexer → BasePodRole → FilteredCandidates
filtered pods indexer role = record {
  role = role;
  candidate_pods = Bitmap.and (role_candidates pods role) indexer.alive;
}

unfoldable pub filter : List Pod → BaseIndexer → Mode → List FilteredCandidates
filter pods indexer single = filtered pods indexer both ∷ []
filter pods indexer disaggregated =
    filtered pods indexer prefill ∷ filtered pods indexer decode ∷ []

unfoldable pub any_pod : (Pod → Bool) → List Pod → Bool
any_pod test [] = false
any_pod test (pod ∷ pods) = test pod || any_pod test pods

unfoldable pub find_pod : (Pod → Bool) → List Pod → Option Pod
find_pod test [] = none
find_pod test (pod ∷ pods) = if test pod then some pod else find_pod test pods

unfoldable pub is_disaggregated : Mode → Bool
is_disaggregated single = false
is_disaggregated disaggregated = true

unfoldable pub locality_bonus : List Pod → ℕ → BasePodRole → Mode → ℕ
locality_bonus pods pod_id role mode =
    let has_node_peer =
      any_pod (λ pod. not (is_role pod.role decode) && not (pod.id == pod_id)) pods in
    if is_disaggregated mode && is_role role decode then (if has_node_peer then 1 else 0) else 0

unfoldable pub scored_at : List Pod → BasePodRole → Mode → ℕ → ℕ → ScoredCandidate
scored_at pods role mode pod_id prefix_len = record {
  pod_id = pod_id;
  prefix_len = prefix_len;
  score = prefix_len * 100 + locality_bonus pods pod_id role mode;
}

-- The map over the set bits; `prefix_lengths[pod_id]` panics out of range.
unfoldable pub score_bits :
    List Pod → BasePodRole → Mode → List ℕ → List ℕ → Option (List ScoredCandidate)
score_bits pods role mode prefix_lengths [] = some []
score_bits pods role mode prefix_lengths (pod_id ∷ bits) = do
  prefix_len ← get_elem? prefix_lengths pod_id
  rest ← score_bits pods role mode prefix_lengths bits
  some (scored_at pods role mode pod_id prefix_len ∷ rest)

unfoldable pub score_one :
    BaseIndexer
    → PreparedRequest
    → List Pod
    → Mode
    → FilteredCandidates
    → Option (List ScoredCandidate)
score_one indexer prepared pods mode candidates = do
  prefix_lengths ←
      longest_prefix_lengths_for_candidates indexer prepared.cumulative_hashes
        candidates.candidate_pods
  score_bits pods candidates.role mode prefix_lengths
      (Bitmap.iter_set_bits candidates.candidate_pods)

unfoldable pub score :
    BaseIndexer
    → PreparedRequest
    → List Pod
    → List FilteredCandidates
    → Mode
    → Option (List (List ScoredCandidate))
score indexer prepared pods [] mode = some []
score indexer prepared pods (candidates ∷ filtered) mode = do
  first ← score_one indexer prepared pods mode candidates
  rest ← score indexer prepared pods filtered mode
  some (first ∷ rest)

-- `max_by_key`, by the order of the keys: of several greatest elements the last.
module _ (at_most : ScoredCandidate → ScoredCandidate → Bool) where
  unfoldable pub max_from : ScoredCandidate → List ScoredCandidate → ScoredCandidate
  max_from best [] = best
  max_from best (s ∷ scores) = max_from (if at_most best s then s else best) scores

  unfoldable pub max_by_key : List ScoredCandidate → Option PickedPod
  max_by_key [] = none
  max_by_key (s ∷ scores) = some (record { pod_id = (max_from s scores).pod_id })

-- The order of `(score, Reverse(pod_id))`.
unfoldable pub score_at_most : ScoredCandidate → ScoredCandidate → Bool
score_at_most a b = ltb a.score b.score || ((a.score == b.score) && leb b.pod_id a.pod_id)

unfoldable pub pick_best : List ScoredCandidate → Option PickedPod
pick_best scores = max_by_key score_at_most scores

unfoldable pub same_node : List Pod → Text → ScoredCandidate → Bool
same_node pods prefill_node candidate = elim (find_pod (λ pod. pod.id == candidate.pod_id) pods) [
  | none ↦ false
  | some pod ↦ same_text pod.node prefill_node
]

-- The order of `(same_node, score, Reverse(pod_id))`.
unfoldable pub decode_at_most : (ScoredCandidate → Bool) → ScoredCandidate → ScoredCandidate → Bool
decode_at_most near a b =
    (not (near a) && near b) || (not (near a && not (near b)) && score_at_most a b)

unfoldable pub pick_decode : List Pod → List ScoredCandidate → ℕ → Option PickedPod
pick_decode pods scores prefill_pod = do
  pod ← find_pod (λ pod. pod.id == prefill_pod) pods
  max_by_key (decode_at_most (same_node pods pod.node)) scores

-- The outer option of these is the panic of `scored[i]`, the inner one what the source returns. The
-- plan for two pods, once the one for prefill is picked.
unfoldable pub pick_after_prefill :
    List Pod → List (List ScoredCandidate) → Option PickedPod → Option (Option ExecutionPlan)
pick_after_prefill pods scored none = some none
pick_after_prefill pods scored (some prefill_pod) = do
  scores ← get_elem? scored 1
  some (do
    decode_pod ← pick_decode pods scores prefill_pod.pod_id
    some (disaggregated_plan prefill_pod.pod_id decode_pod.pod_id))

unfoldable pub pick : List Pod → List (List ScoredCandidate) → Mode → Option (Option ExecutionPlan)
pick pods scored single = do
  scores ← get_elem? scored 0
  some (do best ← pick_best scores; some (single_plan best.pod_id))
pick pods scored disaggregated = do
  scores ← get_elem? scored 0
  pick_after_prefill pods scored (pick_best scores)

-- The four stages of a request, as the loop of `run_bench` composes them.
unfoldable pub route : List Pod → BaseIndexer → Text → Mode → Option (Option ExecutionPlan)
route pods indexer prompt mode = do
  scored ← score indexer (prepare prompt) pods (filter pods indexer mode) mode
  pick pods scored mode

-- The registrations that warm the index: the first pod caches the prompt, the second its first block.
unfoldable pub register_all : BaseIndexer → ℕ → List BlockHash → BaseIndexer
register_all indexer pod_id [] = indexer
register_all indexer pod_id (hash ∷ hashes) =
    register_all (Indexer.register indexer pod_id hash) pod_id hashes

unfoldable pub warm_indexer : Text → List Pod → BaseIndexer
warm_indexer prompt pods =
    let hashes = base_prompt_to_cumulative_hashes prompt in
    let warmed = register_all (Indexer.new (length pods)) 0 hashes in
    elim hashes [ [] ↦ warmed | first ∷ _ ↦ Indexer.register warmed 1 first ]
