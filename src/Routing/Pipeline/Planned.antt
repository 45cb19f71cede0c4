-- ===== src/Routing/Pipeline/Planned.antt =====
-- What the plan of a request to a single pod says.
use calinix.Bitmap
use calinix.Bitmap.{HostBitmap}
use calinix.Bitmap.Laws.{set-IsWords, empty-IsWords, and-IsWords}
use calinix.Bitmap.Members.{IsWords}
use calinix.Bitmap.Scan.{visit_all, for_each_set_bit-range}
use calinix.Config.{PodRole}
use calinix.Hash.{Text}
use calinix.Prelude.Results.{Result, err, ok, ◌>>=◌, bind-ok, err-ok, ok-injective}
use calinix.Query.Lengths.{depth_of, longest_prefix_lengths_into-depth_of}
use calinix.Registry.{prefix_lengths_into}
use calinix.Routing.{
  RequiredRole, needs_single, role_from, same_role, RoutePolicy, RoutingPlan, primary_pod_id,
  cache_hit, cache_prefix_depth, upstream_for_role, candidates_for_role, eligible_candidates,
  add_eligible, may_serve,
}
use calinix.Routing.Pipeline.{
  depth_storage, as_mut_slice, plan_single, build_single_plan, pick_for_role,
}
use calinix.Routing.Score.{
  ScoreWeights, Floats, IsOrder, CandidateScore, ScoreWeights, ScoreStage, RoutingContext,
  RoutingError, weights_for, score_pod, score_candidate, best_candidate,
}
use calinix.Routing.Score.Picked.{best_candidate-IsPick}
use calinix.Session.{StickyStore}
use calinix.Text.{same_text}
use calinix.Upstream.{
  find_group, UpstreamCatalog, UpstreamGroup, RuntimeRegistry, group_by_name, pod_at, pod_id_from,
  total_pods,
}
use calinix.Upstream.Load.{LoadState}
use calinix.Prelude.{
  ℕ, zero, suc, ◌≤◌, ◌<◌, min, ◌≡◌, refl, sym, ap, ◌∙◌, subst, inl, inr, Bool, true, Option, none,
  some, List, [], ◌∷◌, arith, ltb, leb, if◌then◌else◌, leb→le, Bool-cases, Option-cases, length,
  get_or, take, replicate, length-replicate,
}

add_eligible-IsWords :
    (upstreams : UpstreamCatalog) (loads : LoadState) (role : PodRole) (b : HostBitmap) (x : ℕ)
    → IsWords b
    → IsWords (add_eligible upstreams loads role b x)
unfolding add_eligible
add_eligible-IsWords upstreams loads role b x w = elim (Option-cases (pod_id_from x)) [
  | inl wide ↦ rw (wide, add_eligible) w
  | inr (pod_id, fits) ↦ elim (Option-cases (pod_at upstreams pod_id)) [
    | inl missing ↦ rw (fits, missing, add_eligible) w
    | inr (pod, found) ↦ elim (Bool-cases (may_serve loads role pod)) [
      | inl serves ↦ rw (fits, found, serves, add_eligible) (set-IsWords b pod_id w)
      | inr refuses ↦ rw (fits, found, refuses, add_eligible) w
    ]
  ]
]

visit_all-IsWords :
    (upstreams : UpstreamCatalog) (loads : LoadState) (role : PodRole) (xs : List ℕ)
    (b : HostBitmap)
    → IsWords b
    → IsWords (visit_all (add_eligible upstreams loads role) xs b)
unfolding visit_all
visit_all-IsWords upstreams loads role [] b w = w
visit_all-IsWords upstreams loads role (x ∷ xs) b w =
    visit_all-IsWords upstreams loads role xs (add_eligible upstreams loads role b x)
      (add_eligible-IsWords upstreams loads role b x w)

-- The groups of a catalog have u64 words.
abbrev pub GroupWords : UpstreamCatalog → Type 0
GroupWords upstreams =
    (name : Text) (group : UpstreamGroup)
    → group_by_name upstreams name ≡ some group
    → IsWords group.pod_bitmap

abbrev pub AllWords : List UpstreamGroup → Type 0
AllWords [] = Unit {0}
AllWords (group ∷ groups) = IsWords group.pod_bitmap × AllWords groups

find_group-IsWords :
    (test : UpstreamGroup → Bool) (groups : List UpstreamGroup) (group : UpstreamGroup)
    → AllWords groups
    → find_group test groups ≡ some group
    → IsWords group.pod_bitmap
unfolding find_group
find_group-IsWords test [] group w h = absurd (ground arith)
find_group-IsWords test (first ∷ groups) group (w, ws) h = elim (Bool-cases (test first)) [
  | inl found ↦
      let same : some first ≡ some group =
        sym (ap (λ b. if b then some first else find_group test groups) found) ∙ h in
      subst IsWords (ap (λ o. elim o [ none ↦ first.pod_bitmap | some g ↦ g.pod_bitmap ]) same) w
  | inr other ↦
      find_group-IsWords test groups group ws
        (sym (ap (λ b. if b then some first else find_group test groups) other) ∙ h)
]

pub AllWords-GroupWords :
    (upstreams : UpstreamCatalog) → AllWords upstreams.groups → GroupWords upstreams
unfolding group_by_name
AllWords-GroupWords upstreams w name group h =
    find_group-IsWords (λ g. same_text g.name name) upstreams.groups group w h

eligible_candidates-IsWords :
    (upstreams : UpstreamCatalog) (loads : LoadState) (alive : HostBitmap) (group_name : Text)
    (role : RequiredRole)
    → GroupWords upstreams
    → IsWords (eligible_candidates upstreams loads alive group_name role)
unfolding eligible_candidates
eligible_candidates-IsWords upstreams loads alive group_name role words =
    elim (Option-cases (group_by_name upstreams group_name)) [
      | inl missing ↦ rw (missing, eligible_candidates) empty-IsWords
      | inr (group, found) ↦ elim (Bool-cases (same_role group.role (role_from role))) [
        | inr other ↦ rw (found, other, eligible_candidates) empty-IsWords
        | inl same ↦
            rw (found, same, eligible_candidates)
              (subst IsWords
                (sym (
                  for_each_set_bit-range (add_eligible upstreams loads (role_from role))
                    (Bitmap.and group.pod_bitmap alive) Bitmap.empty
                    (and-IsWords group.pod_bitmap alive (words group_name group found))))
                (visit_all-IsWords upstreams loads (role_from role) _ Bitmap.empty empty-IsWords))
      ]
    ]

-- The slice has one slot for each pod, in the array or on the heap.
length-depth_storage : (len : ℕ) → length (as_mut_slice (depth_storage len)) ≡ len
unfolding depth_storage as_mut_slice
length-depth_storage len = elim (Bool-cases (leb len 32)) [
  | inl short ↦
      rw (short, depth_storage, as_mut_slice) (length-take_replicate len 32 (leb→le _ _ short))
  | inr long ↦ rw (long, depth_storage, as_mut_slice) (length-replicate {A = ℕ} len 0)
]
  where
    length-take_replicate : (k m : ℕ) → k ≤ m → length (take k (replicate {A = ℕ} m 0)) ≡ k
    length-take_replicate zero m h = refl
    length-take_replicate (suc k) zero h = absurd (omega arith)
    length-take_replicate (suc k) (suc m) h = ap suc (length-take_replicate k m (omega arith))

module _ {F : Type 0} (fl : Floats F) where
  -- A score is for the pod with the id, and has its entry of the depths.
  abbrev pub IsFor : List ℕ → ℕ → Option (CandidateScore F) → Type 0
  IsFor depths p none = Unit {0}
  IsFor depths p (some s) = (s.pod_id ≡ p) × (s.cache_prefix_depth ≡ get_or depths p 0)

  pub score_candidate-IsFor :
      (ctx : RoutingContext) (weights : ScoreWeights F) (n : ℕ) (depths : List ℕ)
      (upstreams : UpstreamCatalog) (loads : LoadState) (sticky : StickyStore)
      (selected_prefill : Option ℕ) (p : ℕ)
      → IsFor depths p
          (score_candidate fl ctx weights n depths upstreams loads sticky selected_prefill p)
  unfolding score_candidate score_pod pod_id_from
  score_candidate-IsFor ctx weights n depths upstreams loads sticky selected_prefill p =
      elim (Bool-cases (leb p 65_535)) [
        | inr wide ↦ rw (wide, score_candidate, pod_id_from) tt
        | inl fits ↦ elim (Option-cases (pod_at upstreams p)) [
          | inl missing ↦ rw (fits, missing, score_candidate, pod_id_from) tt
          | inr (pod, found) ↦ rw (fits, found, score_candidate, pod_id_from) (refl, refl)
        ]
      ]

module _ {F : Type 0} (fl : Floats F) (registry : RuntimeRegistry) (upstreams : UpstreamCatalog)
    (route_policy : RoutePolicy) (loads : LoadState) (sticky : StickyStore) (score : ScoreStage F)
    (alive : HostBitmap) (ctx : RoutingContext) (order : IsOrder fl)
    (words : GroupWords upstreams) where
  -- A candidate of the filter for the role, with the depth of its prefix.
  abbrev pub IsPicked : RequiredRole → ℕ → ℕ → Type 0
  IsPicked role pod_id depth =
      let candidates = candidates_for_role upstreams loads role route_policy alive in
      (Bitmap.contains candidates pod_id ≡ true)
      × (pod_id < min (total_pods registry) 256
          → depth
            ≡ depth_of registry.cache_registry.block_index ctx.cumulative_hashes candidates pod_id)

  pub pick_for_role-IsPicked :
      (role : RequiredRole) (selected_prefill : Option ℕ)
      → (r : Result RoutingError (CandidateScore F)) × (pick_for_role fl registry upstreams
            route_policy loads sticky score alive ctx role selected_prefill
          ≡ some r)
        × ((s : CandidateScore F) → r ≡ ok s → IsPicked role s.pod_id s.cache_prefix_depth)
  unfolding pick_for_role prefix_lengths_into candidates_for_role
  pick_for_role-IsPicked role selected_prefill =
      let size = min (total_pods registry) 256 in
      let slots = as_mut_slice (depth_storage size) in
      let candidates = candidates_for_role upstreams loads role route_policy alive in
      let candidate_words : IsWords candidates =
        eligible_candidates-IsWords upstreams loads alive (upstream_for_role route_policy role) role
          words in
      let (depths, run, long, entries) =
        longest_prefix_lengths_into-depth_of registry.cache_registry.block_index
          ctx.cumulative_hashes candidates slots candidate_words in
      let slots_size = length-depth_storage size in
      (
        best_candidate fl score ctx role candidates depths upstreams loads sticky selected_prefill,
        rw (run, pick_for_role, prefix_lengths_into),
        λ s chosen.
            elim (best_candidate-IsPick fl score ctx role candidates depths upstreams loads sticky
              selected_prefill order candidate_words) [
                | inl (refused, unscored) ↦ err-ok (sym refused ∙ chosen)
                | inr (t, found, (p, candidate, scored), top) ↦
                    let same : t ≡ s = ok-injective (sym found ∙ chosen) in
                    let is_for = subst (IsFor fl depths p) scored (
                      score_candidate-IsFor fl ctx (weights_for fl score role)
                        (length ctx.cumulative_hashes) depths upstreams loads sticky
                        selected_prefill p) in
                    let own : s.pod_id ≡ p =
                      ap (λ (a : CandidateScore F). a.pod_id) (sym same) ∙ is_for.0 in
                    let entry : s.cache_prefix_depth ≡ get_or depths p 0 =
                      ap (λ (a : CandidateScore F). a.cache_prefix_depth) (sym same) ∙ is_for.1 in
                    (
                      rw own candidate,
                      λ within.
                          entry
                          ∙ entries p (omega (arith, own, slots_size))
                          ∙ ap
                              (depth_of registry.cache_registry.block_index ctx.cumulative_hashes
                                candidates)
                              (sym own),
                    )
              ],
      )

-- A plan names the picked pod and its depth.
abbrev Names : {F : Type 0} → CandidateScore F → Result RoutingError RoutingPlan → Type 0
Names s (err e) = Unit {0}
Names s (ok plan) =
    (primary_pod_id plan ≡ s.pod_id)
    × (cache_prefix_depth plan ≡ s.cache_prefix_depth)
    × (cache_hit plan ≡ ltb 0 s.cache_prefix_depth)

plan_single-Names :
    {F : Type 0} (fl : Floats F) (upstreams : UpstreamCatalog) (route_policy : RoutePolicy)
    (ctx : RoutingContext) (s : CandidateScore F)
    → Names s (plan_single fl upstreams route_policy ctx s)
unfolding plan_single primary_pod_id cache_prefix_depth cache_hit
plan_single-Names fl upstreams route_policy ctx s =
    elim (Option-cases (pod_at upstreams s.pod_id)) [
      | inl missing ↦ rw (missing, plan_single) tt
      | inr (pod, found) ↦ rw (found, plan_single) (refl, refl, refl)
    ]

-- A plan for a single pod: a candidate with its depth, and whether the cache is hit.
abbrev pub IsSingle :
    RuntimeRegistry
    → UpstreamCatalog
    → RoutePolicy
    → LoadState
    → HostBitmap
    → RoutingContext
    → RoutingPlan
    → Type 0
IsSingle registry upstreams route_policy loads alive ctx plan =
    let candidates = candidates_for_role upstreams loads needs_single route_policy alive in
    (Bitmap.contains candidates (primary_pod_id plan) ≡ true)
    × (cache_hit plan ≡ ltb 0 (cache_prefix_depth plan))
    × (primary_pod_id plan < min (total_pods registry) 256
        → cache_prefix_depth plan
          ≡ depth_of registry.cache_registry.block_index ctx.cumulative_hashes candidates
              (primary_pod_id plan))

-- For groups in u64 words and floating-point numbers whose `total_cmp` is an order, planning for a
-- single pod never faults; a plan names a candidate of the filter, says that the cache is hit
-- exactly if the depth is positive, and has the depth of the pod, for a pod id within the table.
pub build_single_plan-depth_of :
    {F : Type 0} (fl : Floats F) (registry : RuntimeRegistry) (upstreams : UpstreamCatalog)
    (route_policy : RoutePolicy) (loads : LoadState) (sticky : StickyStore) (score : ScoreStage F)
    (alive : HostBitmap) (ctx : RoutingContext)
    → IsOrder fl
    → GroupWords upstreams
    → let candidates = candidates_for_role upstreams loads needs_single route_policy alive in
      (r : Result RoutingError RoutingPlan) × (build_single_plan fl registry upstreams route_policy
          loads sticky score alive ctx
        ≡ some r)
      × ((plan : RoutingPlan)
          → r ≡ ok plan
          → (Bitmap.contains candidates (primary_pod_id plan) ≡ true)
            × (cache_hit plan ≡ ltb 0 (cache_prefix_depth plan))
            × (primary_pod_id plan < min (total_pods registry) 256
                → cache_prefix_depth plan
                  ≡ depth_of registry.cache_registry.block_index ctx.cumulative_hashes candidates
                      (primary_pod_id plan)))
unfolding build_single_plan
build_single_plan-depth_of {F} fl registry upstreams route_policy loads sticky score alive ctx order
      words =
    let candidates = candidates_for_role upstreams loads needs_single route_policy alive in
    let (picked, run, is_picked) =
      pick_for_role-IsPicked fl registry upstreams route_policy loads sticky score alive ctx order
        words needs_single none in
    (
      (picked >>= plan_single fl upstreams route_policy ctx),
      rw (run, build_single_plan),
      λ plan h.
          let (s, chosen, planned) =
            bind-ok picked (plan_single fl upstreams route_policy ctx) plan h in
          let (named, depth, hit) =
            subst (Names s) planned (plan_single-Names fl upstreams route_policy ctx s) in
          let (candidate, entry) = is_picked s chosen in
          (
            rw named candidate,
            hit ∙ ap (ltb 0) (sym depth),
            λ within.
                depth
                ∙ entry (omega (arith, named))
                ∙ ap (depth_of registry.cache_registry.block_index ctx.cumulative_hashes candidates)
                    (sym named),
          ),
    )
