-- ===== src/Routing/Eligible.antt =====
-- Which pods pass the filter.
use calinix.Bitmap
use calinix.Bitmap.{HostBitmap}
use calinix.Bitmap.Laws.{contains-set, contains-empty, contains-and, and-IsWords}
use calinix.Bitmap.Members.{IsWords, contains-test_bit}
use calinix.Bitmap.Scan.{range_where, visit_all, for_each_set_bit-range}
use calinix.Hash.{Text}
use calinix.Config.{PodCapabilities, PodRole, single, prefill, decode}
use calinix.Routing.{
  RequiredRole, needs_single, needs_prefill, needs_decode, role_from, same_role, may_serve,
  add_eligible, eligible_candidates,
}
use calinix.Upstream.{
  PodEndpoint, UpstreamCatalog, UpstreamGroup, supports, group_by_name, pod_at, pod_id_from,
}
use calinix.Upstream.Load.{LoadState, inflight, can_accept}
use calinix.Prelude.{
  ℕ, zero, suc, ◌+◌, ◌<◌, ◌≡◌, refl, sym, ap, ◌∙◌, ◌↔◌, inl, inr, Bool, true, false, ◌&&◌, ◌||◌,
  none, some, List, [], ◌∷◌, arith, ltb, leb, ◌==◌, if◌then◌else◌, ==_iff, Bool-cases, Option-cases,
  length, get_elem?-cases,
}

abbrev pub is_in : ℕ → List ℕ → Bool
is_in q [] = false
is_in q (x ∷ xs) = (x == q) || is_in q xs

pub is_in-range_where :
    (p : ℕ → Bool) (n base q : ℕ)
    → is_in q (range_where p n base) ≡ (leb base q && (ltb q (base + n) && p q))
unfolding range_where
is_in-range_where p zero base q = ground arith
is_in-range_where p (suc n) base q =
    let rest = is_in-range_where p n (base + 1) q in
    elim (Bool-cases (base == q)) [
      | inl same ↦
          let here : p base ≡ p q = ap p ((==_iff base q).0 same) in
          elim (Bool-cases (p base)) [
            | inl holds ↦ rw (holds, range_where) (ground (arith, here))
            | inr fails ↦ rw (fails, range_where) (ground (arith, here, rest))
          ]
      | inr other ↦ elim (Bool-cases (p base)) [
        | inl holds ↦ rw (holds, range_where) (ground (arith, rest))
        | inr fails ↦ rw (fails, range_where) (ground (arith, rest))
      ]
    ]

-- The test that a pod id has to pass.
abbrev passes : UpstreamCatalog → LoadState → PodRole → ℕ → Bool
passes upstreams loads role q = elim (pod_at upstreams q) [
  | none ↦ false
  | some pod ↦ may_serve loads role pod
]

contains-set_if :
    (b : HostBitmap) (x q : ℕ) (test : Bool)
    → x < 256
    → Bitmap.contains (if test then Bitmap.set b x else b) q
      ≡ (Bitmap.contains b q || ((x == q) && test))
contains-set_if b x q true h = ground (arith, contains-set b x q)
contains-set_if b x q false h = ground arith

-- A test at a number that equals another is the test at the other.
same-test : (test : ℕ → Bool) (x q : ℕ) → ((x == q) && test x) ≡ ((x == q) && test q)
same-test test x q = elim (Bool-cases (x == q)) [
  | inl same ↦ rw same (ap test ((==_iff x q).0 same))
  | inr other ↦ rw other
]

module _ (upstreams : UpstreamCatalog) (loads : LoadState) (role : PodRole) where
  contains-add_eligible :
      (b : HostBitmap) (x q : ℕ)
      → x < 256
      → Bitmap.contains (add_eligible upstreams loads role b x) q
        ≡ (Bitmap.contains b q || ((x == q) && passes upstreams loads role x))
  unfolding add_eligible pod_id_from
  contains-add_eligible b x q h =
      let fits : leb x 65_535 ≡ true = ground arith in
      elim (Option-cases (pod_at upstreams x)) [
        | inl missing ↦ rw (fits, missing, add_eligible, pod_id_from) (ground arith)
        | inr (pod, found) ↦
            let pass : passes upstreams loads role x ≡ may_serve loads role pod =
              rw (found, passes) in
            rw (fits, found, pass, add_eligible, pod_id_from)
              (contains-set_if b x q (may_serve loads role pod) h)
      ]

  contains-visit_all :
      (xs : List ℕ) (b : HostBitmap) (q : ℕ)
      → ((x : ℕ) → is_in x xs ≡ true → x < 256)
      → Bitmap.contains (visit_all (add_eligible upstreams loads role) xs b) q
        ≡ (Bitmap.contains b q || (is_in q xs && passes upstreams loads role q))
  unfolding visit_all
  contains-visit_all [] b q small = ground arith
  contains-visit_all (x ∷ xs) b q small =
      let rest =
        contains-visit_all xs (add_eligible upstreams loads role b x) q
          (λ y h. small y (ground arith)) in
      let first = contains-add_eligible b x q (small x (ground arith)) in
      ground (arith, rest, first, same-test (passes upstreams loads role) x q)

contains-lt : (b : HostBitmap) (q : ℕ) → Bitmap.contains b q ≡ true → q < 256
contains-lt b q h = let test = contains-test_bit b q in ground arith

contains-passes :
    (upstreams : UpstreamCatalog) (loads : LoadState) (alive : HostBitmap) (group_name : Text)
    (role : RequiredRole) (group : UpstreamGroup) (q : ℕ)
    → IsWords group.pod_bitmap
    → group_by_name upstreams group_name ≡ some group
    → Bitmap.contains (eligible_candidates upstreams loads alive group_name role) q ≡ (
        same_role group.role (role_from role)
        && (Bitmap.contains group.pod_bitmap q
            && (Bitmap.contains alive q && passes upstreams loads (role_from role) q)))
unfolding eligible_candidates
contains-passes upstreams loads alive group_name role group q words found =
    elim (Bool-cases (same_role group.role (role_from role))) [
      | inr other ↦ rw (found, other, eligible_candidates) (contains-empty q)
      | inl same ↦
          let both = Bitmap.and group.pod_bitmap alive in
          let members = is_in-range_where (Bitmap.contains both) 256 0 in
          let visited =
            contains-visit_all upstreams loads (role_from role)
              (range_where (Bitmap.contains both) 256 0) Bitmap.empty q
              (λ x h. let member = members x in ground arith) in
          rw (found, same, eligible_candidates)
            (rw
              (for_each_set_bit-range (add_eligible upstreams loads (role_from role)) both
                Bitmap.empty (and-IsWords group.pod_bitmap alive words))
              (visited
                ∙ ground (
                  arith,
                  contains-empty q,
                  members q,
                  contains-and group.pod_bitmap alive q,
                  contains-lt both q,
                )))
    ]

-- The role that a group or a pod has for what is required.
abbrev pub HasRole : RequiredRole → PodRole → Type 0
HasRole needs_single role = role ≡ single
HasRole needs_prefill role = role ≡ prefill
HasRole needs_decode role = role ≡ decode

abbrev pub Serves : RequiredRole → PodCapabilities → Type 0
Serves needs_single c = c.can_single ≡ true
Serves needs_prefill c = c.can_prefill ≡ true
Serves needs_decode c = c.can_decode ≡ true

-- The pod is healthy, not draining, serves the role, and has a counter with room for a request.
pub record IsReady (loads : LoadState) (role : RequiredRole) (pod : PodEndpoint) : Type 0 where
  pub is_healthy : pod.healthy ≡ true
  pub is_kept : pod.draining ≡ false
  pub serves : Serves role pod.capabilities
  pub is_counted : pod.id < length loads.counters
  pub has_room : inflight loads pod.id < pod.max_conns

same_role-HasRole :
    (role : RequiredRole) (group : PodRole)
    → (same_role group (role_from role) ≡ true) ↔ HasRole role group
unfolding same_role role_from
same_role-HasRole needs_single single = (λ h. refl, λ h. refl)
same_role-HasRole needs_single prefill = (λ h. absurd (ground arith), λ h. absurd (ground arith))
same_role-HasRole needs_single decode = (λ h. absurd (ground arith), λ h. absurd (ground arith))
same_role-HasRole needs_prefill single = (λ h. absurd (ground arith), λ h. absurd (ground arith))
same_role-HasRole needs_prefill prefill = (λ h. refl, λ h. refl)
same_role-HasRole needs_prefill decode = (λ h. absurd (ground arith), λ h. absurd (ground arith))
same_role-HasRole needs_decode single = (λ h. absurd (ground arith), λ h. absurd (ground arith))
same_role-HasRole needs_decode prefill = (λ h. absurd (ground arith), λ h. absurd (ground arith))
same_role-HasRole needs_decode decode = (λ h. refl, λ h. refl)

supports-Serves :
    (role : RequiredRole) (c : PodCapabilities)
    → (supports c (role_from role) ≡ true) ↔ Serves role c
unfolding supports role_from
supports-Serves needs_single c = (λ h. h, λ h. h)
supports-Serves needs_prefill c = (λ h. h, λ h. h)
supports-Serves needs_decode c = (λ h. h, λ h. h)

can_accept-room :
    (loads : LoadState) (pod : PodEndpoint)
    → (can_accept loads pod ≡ true)
      ↔ ((pod.id < length loads.counters) × (inflight loads pod.id < pod.max_conns))
unfolding can_accept inflight
can_accept-room loads pod = elim (get_elem?-cases loads.counters pod.id 0) [
  | inl (below, found) ↦
      rw (found, can_accept) (λ h. (below, ground arith), λ h. ground (arith, h.1))
  | inr (beyond, missing) ↦
      rw (missing, can_accept) (λ h. absurd (ground arith), λ h. absurd (omega (arith, h.0)))
]

may_serve-IsReady :
    (loads : LoadState) (role : RequiredRole) (pod : PodEndpoint)
    → (may_serve loads (role_from role) pod ≡ true) ↔ IsReady loads role pod
unfolding may_serve
may_serve-IsReady loads role pod =
    let serves = supports-Serves role pod.capabilities in
    let room = can_accept-room loads pod in
    (
      λ h.
          let supported : supports pod.capabilities (role_from role) ≡ true = ground arith in
          let accepted : can_accept loads pod ≡ true = ground arith in
          record {
            is_healthy = ground arith;
            is_kept = ground arith;
            serves = serves.0 supported;
            is_counted = (room.0 accepted).0;
            has_room = (room.0 accepted).1;
          },
      λ v.
          let supported = serves.1 v.serves in
          let accepted = room.1 (v.is_counted, v.has_room) in
          ground (arith, v.is_healthy, v.is_kept),
    )

module _ (upstreams : UpstreamCatalog) (loads : LoadState) (alive : HostBitmap)
    (role : RequiredRole) (group : UpstreamGroup) (q : ℕ) where
  -- The pod is a live member of a group of the role, and the catalog has it as a ready pod.
  pub record IsEligible : Type 0 where
    pub has_role : HasRole role group.role
    pub is_member : Bitmap.contains group.pod_bitmap q ≡ true
    pub is_alive : Bitmap.contains alive q ≡ true
    pub is_known : (pod : PodEndpoint) × (pod_at upstreams q ≡ some pod) × IsReady loads role pod

passes-IsReady :
    (upstreams : UpstreamCatalog) (loads : LoadState) (role : RequiredRole) (q : ℕ)
    → (passes upstreams loads (role_from role) q ≡ true)
      ↔ ((pod : PodEndpoint) × (pod_at upstreams q ≡ some pod) × IsReady loads role pod)
passes-IsReady upstreams loads role q = elim (Option-cases (pod_at upstreams q)) [
  | inl missing ↦ (
    λ h. absurd (ground (arith, passes_none missing)),
    λ v. let found = v.1 in absurd (ground arith),
  )
  | inr (pod, found) ↦ (
    λ h. (pod, found, (may_serve-IsReady loads role pod).0 (sym (passes_some pod found) ∙ h)),
    λ v. passes_some v.0 v.1 ∙ (may_serve-IsReady loads role v.0).1 v.2,
  )
]
  where
    passes_some :
        (pod : PodEndpoint)
        → pod_at upstreams q ≡ some pod
        → passes upstreams loads (role_from role) q ≡ may_serve loads (role_from role) pod
    passes_some pod found = rw (found, passes)

    passes_none : pod_at upstreams q ≡ none → passes upstreams loads (role_from role) q ≡ false
    passes_none missing = rw (missing, passes)

-- For a group of the catalog with u64 words, the filter lets exactly those pods through that are in
-- the group and alive, whose group has the required role, and that the catalog knows as healthy, not
-- draining, able to serve the role, and with fewer running requests than connections.
pub contains-eligible_candidates :
    (upstreams : UpstreamCatalog) (loads : LoadState) (alive : HostBitmap) (group_name : Text)
    (role : RequiredRole) (group : UpstreamGroup) (q : ℕ)
    → IsWords group.pod_bitmap
    → group_by_name upstreams group_name ≡ some group
    → (Bitmap.contains (eligible_candidates upstreams loads alive group_name role) q ≡ true)
      ↔ IsEligible upstreams loads alive role group q
contains-eligible_candidates upstreams loads alive group_name role group q words found =
    let tested = contains-passes upstreams loads alive group_name role group q words found in
    let roles = same_role-HasRole role group.role in
    let ready = passes-IsReady upstreams loads role q in
    (
      λ h.
          let same : same_role group.role (role_from role) ≡ true = ground arith in
          let passed : passes upstreams loads (role_from role) q ≡ true = ground arith in
          record {
            has_role = roles.0 same;
            is_member = ground arith;
            is_alive = ground arith;
            is_known = ready.0 passed;
          },
      λ v.
          let same = roles.1 v.has_role in
          let passed = ready.1 v.is_known in ground (arith, v.is_member, v.is_alive),
    )
