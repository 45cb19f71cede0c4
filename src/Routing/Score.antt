-- ===== src/Routing/Score.antt =====
-- src/calinix/routing/score.rs and context.rs: the score of each candidate and the best one. The
-- f64 operations are an interface; of `total_cmp` the code uses that it is an order.
pub mod Picked
use calinix.Bitmap
use calinix.Bitmap.{HostBitmap}
use calinix.Hash.{Text, BlockHash}
use calinix.Prelude.Results.{Result, err, ok}
use calinix.Routing.{RequiredRole, needs_single, needs_prefill, needs_decode}
use calinix.Protocol.{CalinixMode}
use calinix.Protocol.OpenAi.{OpenAiRoutingView, OpenAiParseError}
use calinix.Session.{StickyStore, previous_pod}
use calinix.Upstream.{PodEndpoint, UpstreamCatalog, pod_at, pod_id_from}
use calinix.Upstream.Load.{LoadState, inflight}
use calinix.Prelude.{
  ℕ, zero, suc, ◌+◌, ◌-◌, ◌*◌, ◌/◌, ◌%◌, ◌^◌, ◌≤◌, ◌<◌, min, max, ◌≡◌, refl, sym, ap, ap₂, ◌∙◌,
  subst, fun_ext, ◌≢◌, ◌↔◌, ◌⊎◌, inl, inr, Bool, true, false, not, ◌&&◌, ◌||◌, Option, none, some,
  List, [], ◌∷◌, ◌++◌, map, append_assoc, append-nil, arith, ltb, leb, ◌==◌, if◌then◌else◌, ltb→lt,
  lt→ltb, leb→le, ==_iff, ==_refl, tests, Bool-cases, Option-cases, length, get_elem?, get_or,
  set as set_elem, take, replicate, length-append, length-set, length-replicate, get_or-replicate,
  get_or-set, get_elem?-get_or, get_elem?-beyond, get_elem?-cases, get_elem?-left, get_elem?-last,
  get_or-beyond, lt_wf,
}

pub record Floats (F : Type 0) : Type 0 where
  pub of_nat : ℕ → F
  pub add : F → F → F
  pub sub : F → F → F
  pub mul : F → F → F
  pub div : F → F → F
  pub clamp : F → F → F → F
  -- `a.total_cmp(&b)` is `Less`.
  pub less : F → F → Bool

-- `total_cmp` is a total order of the values.
pub record IsOrder {F : Type 0} (fl : Floats F) : Type 0 where
  pub less-asym : (a b : F) → (fl.less a b && fl.less b a) ≡ false
  pub less-split : (a b c : F) → (not (fl.less a c) || (fl.less a b || fl.less b c)) ≡ true

pub record RoutingContext : Type 0 where
  pub request_id : Text
  pub path : Text
  pub method : Text
  pub mode : CalinixMode
  pub openai : OpenAiRoutingView
  pub cumulative_hashes : List BlockHash
  pub cache_namespace : Text
  pub candidate_single : HostBitmap
  pub candidate_prefill : HostBitmap
  pub candidate_decode : HostBitmap

pub data RoutingError : Type 0 where
  invalid_mode : Text → RoutingError
  parse : OpenAiParseError → RoutingError
  no_candidates : RoutingError
  missing_pod : ℕ → RoutingError

module _ (F : Type 0) where
  pub record CandidateScore : Type 0 where
    pub pod_id : ℕ
    pub cache_prefix_depth : ℕ
    pub cache_score : F
    pub load_score : F
    pub sticky_score : F
    pub locality_score : F
    pub final_score : F

  pub record ScoreWeights : Type 0 where
    pub cache : F
    pub load : F
    pub sticky : F
    pub locality : F

  pub record ScoreStage : Type 0 where
    pub single_weights : ScoreWeights
    pub prefill_weights : ScoreWeights
    pub decode_weights : ScoreWeights

module _ {F : Type 0} (fl : Floats F) where
  unfoldable pub weights_for : ScoreStage F → RequiredRole → ScoreWeights F
  weights_for stage needs_single = stage.single_weights
  weights_for stage needs_prefill = stage.prefill_weights
  weights_for stage needs_decode = stage.decode_weights

  -- `LoadState::score`
  unfoldable pub load_score_of : LoadState → PodEndpoint → F
  load_score_of loads pod =
      if pod.max_conns == 0
      then fl.of_nat 0
      else fl.clamp
          (fl.mul (fl.of_nat 100) (
            fl.sub (fl.of_nat 1)
              (fl.div (fl.of_nat (inflight loads pod.id)) (fl.of_nat pod.max_conns))))
          (fl.of_nat 0) (fl.of_nat 100)

  -- 100 for the pod itself, 0 for another or none.
  unfoldable pub match_score : Option ℕ → ℕ → F
  match_score none pod_id = fl.of_nat 0
  match_score (some other) pod_id = if other == pod_id then fl.of_nat 100 else fl.of_nat 0

  -- `session_key.and_then(|session_key| sticky.previous_pod(session_key))`
  unfoldable pub sticky_pod : RoutingContext → StickyStore → Option ℕ
  sticky_pod ctx sticky = elim ctx.openai.session_key [
    | none ↦ none
    | some session_key ↦ previous_pod sticky session_key
  ]

  unfoldable pub score_pod :
      RoutingContext
      → ScoreWeights F
      → ℕ
      → List ℕ
      → LoadState
      → StickyStore
      → Option ℕ
      → ℕ
      → PodEndpoint
      → CandidateScore F
  score_pod ctx weights max_prefix_depth cache_depths loads sticky selected_prefill pod_id pod =
      let depth = get_or cache_depths pod_id 0 in
      let cache_score =
        if max_prefix_depth == 0
        then fl.of_nat 0
        else fl.div (fl.mul (fl.of_nat 100) (fl.of_nat depth)) (fl.of_nat max_prefix_depth) in
      let load_score = load_score_of loads pod in
      let sticky_score = match_score (sticky_pod ctx sticky) pod_id in
      let locality_score = match_score selected_prefill pod_id in
      record {
        pod_id = pod_id;
        cache_prefix_depth = depth;
        cache_score = cache_score;
        load_score = load_score;
        sticky_score = sticky_score;
        locality_score = locality_score;
        final_score =
            fl.add
              (fl.add (fl.add (fl.mul cache_score weights.cache) (fl.mul load_score weights.load))
                (fl.mul sticky_score weights.sticky))
              (fl.mul locality_score weights.locality);
      }

  unfoldable pub score_candidate :
      RoutingContext
      → ScoreWeights F
      → ℕ
      → List ℕ
      → UpstreamCatalog
      → LoadState
      → StickyStore
      → Option ℕ
      → ℕ
      → Option (CandidateScore F)
  score_candidate ctx weights max_prefix_depth cache_depths upstreams loads sticky selected_prefill
        bit =
      elim (pod_id_from bit) [
        | none ↦ none
        | some pod_id ↦ elim (pod_at upstreams pod_id) [
          | none ↦ none
          | some pod ↦ some (
              score_pod ctx weights max_prefix_depth cache_depths loads sticky selected_prefill
                pod_id pod)
        ]
      ]

  -- `better_candidate_order(left, right) == Ordering::Less`
  unfoldable pub better : CandidateScore F → CandidateScore F → Bool
  better left right =
      fl.less right.final_score left.final_score
      || (not (fl.less left.final_score right.final_score) && ltb left.pod_id right.pod_id)

  -- The closure that `for_each_set_bit` runs.
  unfoldable pub keep_better :
      (ℕ → Option (CandidateScore F)) → Option (CandidateScore F) → ℕ → Option (CandidateScore F)
  keep_better score best bit = elim (score bit) [
    | none ↦ best
    | some s ↦ elim best [ none ↦ some s | some b ↦ if better s b then some s else some b ]
  ]

  unfoldable pub best_candidate :
      ScoreStage F
      → RoutingContext
      → RequiredRole
      → HostBitmap
      → List ℕ
      → UpstreamCatalog
      → LoadState
      → StickyStore
      → Option ℕ
      → Result RoutingError (CandidateScore F)
  best_candidate stage ctx role candidates cache_depths upstreams loads sticky selected_prefill =
      let score =
        score_candidate ctx (weights_for stage role) (length ctx.cumulative_hashes) cache_depths
          upstreams loads sticky selected_prefill in
      elim (Bitmap.for_each_set_bit (keep_better score) candidates none) [
        | none ↦ err no_candidates
        | some best ↦ ok best
      ]
