-- ===== src/Tests/Scores.antt =====
-- src/calinix/routing/score.rs on the pods of a small configuration, with whole numbers for the
-- floating-point ones.
use calinix.Bitmap
use calinix.Bitmap.Laws.{set-IsWords, empty-IsWords}
use calinix.Prelude.Results.{Result, err, ok}
use calinix.Bitmap.{HostBitmap}
use calinix.Protocol.{single_mode}
use calinix.Protocol.OpenAi.{chat_completions}
use calinix.Query.Lengths.{depth_of}
use calinix.Routing.{
  needs_single, RoutePolicy, RoutingPlan, primary_pod_id, cache_hit, cache_prefix_depth,
  candidates_for_role,
}
use calinix.Routing.Pipeline.{build_single_plan}
use calinix.Routing.Pipeline.Planned.{AllWords, AllWords-GroupWords, build_single_plan-depth_of}
use calinix.Upstream.{
  single_name, prefill_name, decode_name, catalog_from_parts, role_group, add_pod, total_pods,
}
use calinix.Routing.Score.{
  Floats, IsOrder, CandidateScore, ScoreWeights, ScoreStage, RoutingContext, RoutingError,
  no_candidates, weights_for, score_candidate, best_candidate,
}
use calinix.Routing.Pick.{pick_best}
use calinix.Routing.Pick.Same.{scored, pick_best-best_candidate}
use calinix.Routing.Score.Picked.{IsNoBetter, best_candidate-IsPick}
use calinix.Session.{no_sessions}
use calinix.Tests.Upstreams.{small_runtime, single_bitmap}
use calinix.Upstream.Load.{load_state}
use calinix.Prelude.{
  ℕ, ◌+◌, ◌-◌, ◌*◌, ◌/◌, ◌<◌, min, max, ◌≡◌, ◌⊎◌, true, false, Option, none, some, [], ◌∷◌, arith,
  ltb,
}

abbrev pub whole_numbers : Floats ℕ
whole_numbers = record {
  of_nat = λ a. a;
  add = λ a b. a + b;
  sub = λ a b. a - b;
  mul = λ a b. a * b;
  div = λ a b. a / b;
  clamp = λ a low high. min (max a low) high;
  less = ltb;
}

pub whole_numbers-IsOrder : IsOrder whole_numbers
whole_numbers-IsOrder = record {
  less-asym = λ a b. ground arith;
  less-split = λ a b c. ground arith;
}

abbrev pub even_weights : ScoreWeights ℕ
even_weights = record { cache = 1; load = 1; sticky = 1; locality = 1 }

abbrev pub even_stage : ScoreStage ℕ
even_stage = record {
  single_weights = even_weights;
  prefill_weights = even_weights;
  decode_weights = even_weights;
}

abbrev pub small_context : RoutingContext
small_context = record {
  request_id = [];
  path = [];
  method = [];
  mode = single_mode;
  openai = record {
    kind = chat_completions;
    model = none;
    prompt_text = [];
    session_key = none;
    stream = false;
  };
  cumulative_hashes = 11 ∷ [];
  cache_namespace = [];
  candidate_single = Bitmap.empty;
  candidate_prefill = Bitmap.empty;
  candidate_decode = Bitmap.empty;
}

abbrev small_score : ℕ → Option (CandidateScore ℕ)
small_score =
    score_candidate whole_numbers small_context (weights_for whole_numbers even_stage needs_single)
      1 (1 ∷ []) small_runtime.upstreams (load_state 3) no_sessions none

abbrev small_pick : Result RoutingError (CandidateScore ℕ)
small_pick =
    best_candidate whole_numbers even_stage small_context needs_single single_bitmap (1 ∷ [])
      small_runtime.upstreams (load_state 3) no_sessions none

best_candidate-IsPick_example :
    ((small_pick ≡ err no_candidates)
      × ((x : ℕ) → Bitmap.contains single_bitmap x ≡ true → small_score x ≡ none))
    ⊎ ((s : CandidateScore ℕ) × (small_pick ≡ ok s)
        × ((p : ℕ) × (Bitmap.contains single_bitmap p ≡ true) × (small_score p ≡ some s))
        × ((x : ℕ) (t : CandidateScore ℕ)
            → Bitmap.contains single_bitmap x ≡ true
            → small_score x ≡ some t
            → IsNoBetter whole_numbers t s))
best_candidate-IsPick_example =
    best_candidate-IsPick whole_numbers even_stage small_context needs_single single_bitmap (1 ∷ [])
      small_runtime.upstreams (load_state 3) no_sessions none whole_numbers-IsOrder
      (set-IsWords Bitmap.empty 0 empty-IsWords)

abbrev pub small_policy : RoutePolicy
small_policy = record {
  name = [];
  single_upstream = single_name;
  prefill_upstream = prefill_name;
  decode_upstream = decode_name;
  require_healthy = true;
}

pub small_runtime-AllWords : AllWords small_runtime.upstreams.groups
unfolding catalog_from_parts role_group add_pod
small_runtime-AllWords = (
  set-IsWords Bitmap.empty 0 empty-IsWords,
  (set-IsWords Bitmap.empty 1 empty-IsWords, (set-IsWords Bitmap.empty 2 empty-IsWords, tt)),
)

abbrev small_candidates : HostBitmap
small_candidates =
    candidates_for_role small_runtime.upstreams (load_state 3) needs_single small_policy
      single_bitmap

build_single_plan-depth_of_example :
    (r : Result RoutingError RoutingPlan) × (build_single_plan whole_numbers small_runtime
        small_runtime.upstreams small_policy
        (load_state 3)
        no_sessions
        even_stage
        single_bitmap
        small_context
      ≡ some r)
    × ((plan : RoutingPlan)
        → r ≡ ok plan
        → (Bitmap.contains small_candidates (primary_pod_id plan) ≡ true)
          × (cache_hit plan ≡ ltb 0 (cache_prefix_depth plan))
          × (primary_pod_id plan < min (total_pods small_runtime) 256
              → cache_prefix_depth plan
                ≡ depth_of small_runtime.cache_registry.block_index
                    (11 ∷ [])
                    small_candidates
                    (primary_pod_id plan)))
build_single_plan-depth_of_example =
    build_single_plan-depth_of whole_numbers small_runtime small_runtime.upstreams small_policy
      (load_state 3) no_sessions even_stage single_bitmap small_context whole_numbers-IsOrder
      (AllWords-GroupWords small_runtime.upstreams small_runtime-AllWords)

pick_best-best_candidate_example :
    pick_best whole_numbers (scored small_score (Bitmap.iter_set_bits single_bitmap)) ≡ small_pick
pick_best-best_candidate_example =
    pick_best-best_candidate whole_numbers even_stage small_context needs_single single_bitmap
      (1 ∷ []) small_runtime.upstreams (load_state 3) no_sessions none whole_numbers-IsOrder
      (set-IsWords Bitmap.empty 0 empty-IsWords)
