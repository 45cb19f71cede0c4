-- ===== src/Routing/Pick.antt =====
-- src/calinix/routing/pick.rs: the pick among scores that are given as a list, and the picks of
-- src/calinix/routing/score.rs that the pipeline does not use.
pub mod Same
use calinix.Bitmap
use calinix.Bitmap.{HostBitmap}
use calinix.Prelude.Results.{Result, err, ok, ◌>>=◌}
use calinix.Protocol.{single_mode}
use calinix.Protocol.OpenAi.{unknown}
use calinix.Registry.{CacheRegistry, longest_prefix_lengths}
use calinix.Routing.{needs_single}
use calinix.Routing.Score.{
  Floats, CandidateScore, ScoreStage, RoutingContext, RoutingError, no_candidates, better,
  best_candidate,
}
use calinix.Session.{no_sessions}
use calinix.Upstream.{UpstreamCatalog}
use calinix.Upstream.Load.{LoadState}
use calinix.Prelude.{
  ℕ, zero, suc, ◌+◌, ◌-◌, ◌*◌, ◌/◌, ◌%◌, ◌^◌, ◌≤◌, ◌<◌, min, max, ◌≡◌, refl, sym, ap, ap₂, ◌∙◌,
  subst, fun_ext, ◌≢◌, ◌↔◌, ◌⊎◌, inl, inr, Bool, true, false, not, ◌&&◌, ◌||◌, Option, none, some,
  List, [], ◌∷◌, ◌++◌, map, append_assoc, append-nil, arith, ltb, leb, ◌==◌, if◌then◌else◌, ltb→lt,
  lt→ltb, leb→le, ==_iff, ==_refl, tests, Bool-cases, Option-cases, length, get_elem?, get_or,
  set as set_elem, take, replicate, length-append, length-set, length-replicate, get_or-replicate,
  get_or-set, get_elem?-get_or, get_elem?-beyond, get_elem?-cases, get_elem?-left, get_elem?-last,
  get_or-beyond, lt_wf,
}

pub record PickedCandidate : Type 0 where
  pub pod_id : ℕ
  pub cache_prefix_depth : ℕ

-- The context of `pick_first_available`, which has nothing to match.
abbrev pub no_context : RoutingContext
no_context = record {
  request_id = [];
  path = [];
  method = [];
  mode = single_mode;
  openai = record {
    kind = unknown;
    model = none;
    prompt_text = [];
    session_key = none;
    stream = false;
  };
  cumulative_hashes = [];
  cache_namespace = [];
  candidate_single = Bitmap.empty;
  candidate_prefill = Bitmap.empty;
  candidate_decode = Bitmap.empty;
}

-- `ok()`
unfoldable pub ok_value : {A : Type 0} → Result RoutingError A → Option A
ok_value (err e) = none
ok_value (ok a) = some a

module _ {F : Type 0} (fl : Floats F) where
  -- `max_by`: of several greatest elements the last; the order puts the better candidate above, so
  -- that the best so far stays if it is better.
  unfoldable pub max_from : CandidateScore F → List (CandidateScore F) → CandidateScore F
  max_from best [] = best
  max_from best (s ∷ scores) = max_from (if better fl best s then best else s) scores

  unfoldable pub pick_best : List (CandidateScore F) → Result RoutingError (CandidateScore F)
  pick_best [] = err no_candidates
  pick_best (s ∷ scores) = ok (max_from s scores)

  unfoldable pub pick_one : List (CandidateScore F) → Result RoutingError ℕ
  pick_one scores = do best ← pick_best scores; ok best.pod_id

  unfoldable pub picked_of : CandidateScore F → PickedCandidate
  picked_of score = record { pod_id = score.pod_id; cache_prefix_depth = score.cache_prefix_depth }

  -- The outer `none` is a fault of the prefix query.
  unfoldable pub pick_best_cache_candidate :
      ScoreStage F
      → RoutingContext
      → HostBitmap
      → CacheRegistry
      → UpstreamCatalog
      → LoadState
      → Option (Option PickedCandidate)
  pick_best_cache_candidate stage ctx candidates cache_registry upstreams loads =
      elim (longest_prefix_lengths cache_registry ctx.cumulative_hashes candidates) [
        | none ↦ none
        | some cache_depths ↦ some (
            ok_value (
              best_candidate fl stage ctx needs_single candidates cache_depths upstreams loads
                no_sessions none
              >>= λ score. ok (picked_of score)))
      ]

  unfoldable pub pick_first_available :
      ScoreStage F → HostBitmap → UpstreamCatalog → LoadState → Option ℕ
  pick_first_available stage candidates upstreams loads = ok_value (
      best_candidate fl stage no_context needs_single candidates
        (replicate (length upstreams.pods) 0) upstreams loads no_sessions none
      >>= λ score. ok score.pod_id)
