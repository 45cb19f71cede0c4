-- ===== src/Upstream/Built.antt =====
-- The registry that `from_config` builds.
use calinix.Bitmap
use calinix.Bitmap.{HostBitmap}
use calinix.Bitmap.Laws.{contains-set, contains-empty}
use calinix.Config.{PodRole, single, prefill, decode, PodConfig, CalinixConfig}
use calinix.Prelude.Results.{err, ok, err-ok, ok-injective, bind-ok}
use calinix.Registry
use calinix.Upstream.{
  PodEndpoint, UpstreamCatalog, RuntimeRegistry, Building, PodError, too_many_pods,
  role_unsupported, supports, pod_id_from, push_pod, push_pods, pod_capabilities, add_pod,
  next_role, no_pods_yet, from_config, catalog_from_parts, filter_id, pod_at, total_pods,
}
use calinix.Prelude.{
  ℕ, ◌+◌, ◌≤◌, ◌<◌, ◌≡◌, refl, sym, ap, ◌∙◌, subst, ◌⊎◌, inl, inr, true, false, ◌&&◌, ◌||◌, some,
  List, [], ◌∷◌, arith, ltb, leb, if◌then◌else◌, ltb→lt, Bool-cases, length, get_elem?,
  length-append, get_elem?-left, get_elem?-last,
}

-- What some rounds of the loop for a role do: they keep the pods that were there, add pods of the
-- role with the next ids, and set the bits of these.
pub record Pushed (role : PodRole) (b b' : Building) : Type 0 where
  pub longer : length b.pods ≤ length b'.pods
  pub kept : (i : ℕ) → i < length b.pods → get_elem? b'.pods i ≡ get_elem? b.pods i
  pub added :
      (i : ℕ)
      → length b.pods ≤ i
      → i < length b'.pods
      → (pod : PodEndpoint) × (get_elem? b'.pods i ≡ some pod)
        × (pod.id ≡ i)
        × (supports pod.capabilities role ≡ true)
  pub bits :
      (p : ℕ)
      → Bitmap.contains b'.role_bitmap p ≡ (
          Bitmap.contains b.role_bitmap p
          || (leb (length b.pods) p && (ltb p (length b'.pods) && ltb p 256)))

Pushed-refl : (role : PodRole) (b : Building) → Pushed role b b
Pushed-refl role b = record {
  longer = omega arith;
  kept = λ i h. refl;
  added = λ i h k. absurd (omega arith);
  bits = λ p. ground arith;
}

Pushed-trans :
    (role : PodRole) (a b c : Building) → Pushed role a b → Pushed role b c → Pushed role a c
Pushed-trans role a b c u v = record {
  longer = let first = u.longer in let second = v.longer in omega arith;
  kept = λ i h. v.kept i (let first = u.longer in omega arith) ∙ u.kept i h;
  added = λ i h k. elim (Bool-cases (ltb i (length b.pods))) [
    | inl early ↦
        let (pod, found, id, role_ok) = u.added i h (ltb→lt _ _ early) in
        (pod, v.kept i (ltb→lt _ _ early) ∙ found, id, role_ok)
    | inr late ↦ v.added i (ground arith) k
  ];
  bits = λ p. let first = u.longer in let second = v.longer in ground (arith, u.bits p, v.bits p);
}

-- A pod is added exactly if its id fits in u16 and it supports the role.
push_pod-cases :
    (role : PodRole) (b : Building) (pod : PodConfig)
    → ((e : PodError) × (push_pod role b pod ≡ err e))
      ⊎ ((supports (pod_capabilities role pod) role ≡ true)
          × (push_pod role b pod ≡ ok (add_pod role b pod (length b.pods))))
unfolding push_pod pod_id_from
push_pod-cases role b pod = elim (Bool-cases (leb (length b.pods) 65_535)) [
  | inr wide ↦ inl (too_many_pods, rw (wide, push_pod, pod_id_from))
  | inl fits ↦ elim (Bool-cases (supports (pod_capabilities role pod) role)) [
    | inr missing ↦ inl (role_unsupported pod.id role, rw (fits, missing, push_pod, pod_id_from))
    | inl role_ok ↦ inr (role_ok, rw (fits, role_ok, push_pod, pod_id_from))
  ]
]

add_pod-Pushed :
    (role : PodRole) (b : Building) (pod : PodConfig)
    → supports (pod_capabilities role pod) role ≡ true
    → Pushed role b (add_pod role b pod (length b.pods))
      × (length (add_pod role b pod (length b.pods)).pods ≡ length b.pods + 1)
unfolding add_pod
add_pod-Pushed role b pod role_ok =
    let b' = add_pod role b pod (length b.pods) in
    let long : length b'.pods ≡ length b.pods + 1 = length-append b.pods _ in
    (
      record {
        longer = omega (arith, long);
        kept = λ i h. get_elem?-left b.pods _ i h;
        added = λ i h k.
            let last : i ≡ length b.pods = omega (arith, long) in
            (_, ap (get_elem? b'.pods) last ∙ get_elem?-last b.pods _, sym last, role_ok);
        bits = λ p. rw long (ground (arith, contains-set b.role_bitmap (length b.pods) p));
      },
      long,
    )

push_pod-Pushed :
    (role : PodRole) (b b' : Building) (pod : PodConfig)
    → push_pod role b pod ≡ ok b'
    → Pushed role b b' × (length b'.pods ≡ length b.pods + 1)
push_pod-Pushed role b b' pod h = elim (push_pod-cases role b pod) [
  | inl (e, failed) ↦ err-ok (sym failed ∙ h)
  | inr (role_ok, pushed) ↦
      subst (λ c. Pushed role b c × (length c.pods ≡ length b.pods + 1))
        (ok-injective (sym pushed ∙ h)) (add_pod-Pushed role b pod role_ok)
]

push_pods-Pushed :
    (role : PodRole) (configured : List PodConfig) (b b' : Building)
    → push_pods role b configured ≡ ok b'
    → Pushed role b b' × (length b'.pods ≡ length b.pods + length configured)
unfolding push_pods
push_pods-Pushed role [] b b' h =
    subst (λ c. Pushed role b c × (length c.pods ≡ length b.pods + 0)) (ok-injective h)
      (Pushed-refl role b, omega arith)
push_pods-Pushed role (pod ∷ configured) b b' h =
    let (c, pushed, h₁) = bind-ok (push_pod role b pod) (λ c. push_pods role c configured) b' h in
    let (first, one) = push_pod-Pushed role b c pod pushed in
    let (rest, more) = push_pods-Pushed role configured c b' h₁ in
    (Pushed-trans role _ _ _ first rest, omega (arith, one, more))

-- The registry of a configuration with `n₁` single, `n₂` prefill and `n₃` decode pods: a pod for
-- each, found by its id, with the roles in that order, each in its bitmap.
pub record IsBuilt (n₁ n₂ n₃ : ℕ) (r : RuntimeRegistry) : Type 0 where
  pub total : total_pods r ≡ n₁ + n₂ + n₃
  pub found :
      (p : ℕ)
      → p < n₁ + n₂ + n₃
      → (pod : PodEndpoint) × (pod_at r.upstreams p ≡ some pod)
        × (pod.id ≡ p)
        × (supports pod.capabilities
              (if ltb p n₁ then single else if ltb p (n₁ + n₂) then prefill else decode)
            ≡ true)
  pub single_bits : (p : ℕ) → Bitmap.contains r.single_pods p ≡ (ltb p n₁ && ltb p 256)
  pub prefill_bits :
      (p : ℕ) → Bitmap.contains r.prefill_pods p ≡ (leb n₁ p && (ltb p (n₁ + n₂) && ltb p 256))
  pub decode_bits :
      (p : ℕ)
      → Bitmap.contains r.decode_pods p ≡ (leb (n₁ + n₂) p && (ltb p (n₁ + n₂ + n₃) && ltb p 256))

pod_at-found :
    (catalog : UpstreamCatalog) (p : ℕ) (pod : PodEndpoint)
    → get_elem? catalog.pods p ≡ some pod
    → pod.id ≡ p
    → pod_at catalog p ≡ some pod
unfolding pod_at filter_id
pod_at-found catalog p pod h own = rw (h, pod_at, filter_id) (ground arith)

abbrev pub built : CalinixConfig → Building → Building → Building → RuntimeRegistry
built config b₁ b₂ b₃ = record {
  pod_table = record { pods = b₃.pods; by_external_id = b₃.by_external_id };
  upstreams = catalog_from_parts b₃.pods b₁.role_bitmap b₂.role_bitmap b₃.role_bitmap;
  single_pods = b₁.role_bitmap;
  prefill_pods = b₂.role_bitmap;
  decode_pods = b₃.role_bitmap;
  cache_registry =
      Registry.with_shards_empty_alive
        (length config.upstreams.single_upstream.pods
          + length config.upstreams.dispatch.prefill_group.pods
          + length config.upstreams.dispatch.decode_group.pods)
        config.cache_registry.shards_count;
}

-- The three loops.
built-IsBuilt :
    (config : CalinixConfig) (b₁ b₂ b₃ : Building) (n₁ n₂ n₃ : ℕ)
    → Pushed single no_pods_yet b₁ × (length b₁.pods ≡ 0 + n₁)
    → Pushed prefill (next_role b₁) b₂ × (length b₂.pods ≡ length b₁.pods + n₂)
    → Pushed decode (next_role b₂) b₃ × (length b₃.pods ≡ length b₂.pods + n₃)
    → IsBuilt n₁ n₂ n₃ (built config b₁ b₂ b₃)
unfolding total_pods catalog_from_parts
built-IsBuilt config b₁ b₂ b₃ n₁ n₂ n₃ (u, l₁) (v, l₂) (w, l₃) = record {
  total = omega arith;
  found = λ p h. found_at p h (Bool-cases (ltb p n₁)) (Bool-cases (ltb p (n₁ + n₂)));
  single_bits = λ p. ground (arith, u.bits p, contains-empty p);
  prefill_bits = λ p. ground (arith, v.bits p, contains-empty p);
  decode_bits = λ p. ground (arith, w.bits p, contains-empty p);
}
  where
    found_at :
        (p : ℕ)
        → p < n₁ + n₂ + n₃
        → (ltb p n₁ ≡ true) ⊎ (ltb p n₁ ≡ false)
        → (ltb p (n₁ + n₂) ≡ true) ⊎ (ltb p (n₁ + n₂) ≡ false)
        → (pod : PodEndpoint) × (pod_at (built config b₁ b₂ b₃).upstreams p ≡ some pod)
          × (pod.id ≡ p)
          × (supports pod.capabilities
                (if ltb p n₁ then single else if ltb p (n₁ + n₂) then prefill else decode)
              ≡ true)
    found_at p h (inl is_single) second =
        let (pod, found, id, role_ok) = u.added p (omega arith) (ground arith) in
        let later = w.kept p (ground (arith, v.longer)) ∙ v.kept p (ground arith) ∙ found in
        (pod, pod_at-found _ p pod later id, id, rw is_single role_ok)
    found_at p h (inr no_single) (inl is_prefill) =
        let (pod, found, id, role_ok) = v.added p (ground arith) (ground arith) in
        let later = w.kept p (ground arith) ∙ found in
        (pod, pod_at-found _ p pod later id, id, rw (no_single, is_prefill) role_ok)
    found_at p h (inr no_single) (inr no_prefill) =
        let (pod, found, id, role_ok) = w.added p (ground arith) (ground arith) in
        (pod, pod_at-found _ p pod found id, id, rw (no_single, no_prefill) role_ok)

-- Every registry that is built from a configuration has one pod for each configured pod, and the
-- catalog finds it under its own id: first the single, then the prefill, then the decode pods, each
-- able to serve its role. The bitmap of a role has exactly the ids of its pods that are below 256.
pub from_config-IsBuilt :
    (config : CalinixConfig) (r : RuntimeRegistry)
    → from_config config ≡ ok r
    → IsBuilt
        (length config.upstreams.single_upstream.pods)
        (length config.upstreams.dispatch.prefill_group.pods)
        (length config.upstreams.dispatch.decode_group.pods)
        r
unfolding from_config
from_config-IsBuilt config r h =
    let singles = config.upstreams.single_upstream.pods in
    let prefills = config.upstreams.dispatch.prefill_group.pods in
    let decodes = config.upstreams.dispatch.decode_group.pods in
    let (b₁, first, h₁) = bind-ok (push_pods single no_pods_yet singles) _ r h in
    let (b₂, second, h₂) = bind-ok (push_pods prefill (next_role b₁) prefills) _ r h₁ in
    let (b₃, third, h₃) = bind-ok (push_pods decode (next_role b₂) decodes) _ r h₂ in
    subst (IsBuilt (length singles) (length prefills) (length decodes)) (ok-injective h₃) (
      built-IsBuilt config b₁ b₂ b₃ _ _ _ (push_pods-Pushed single singles no_pods_yet b₁ first)
        (push_pods-Pushed prefill prefills (next_role b₁) b₂ second)
        (push_pods-Pushed decode decodes (next_role b₂) b₃ third))
