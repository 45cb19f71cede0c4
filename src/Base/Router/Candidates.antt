-- ===== src/Base/Router/Candidates.antt =====
-- The candidates of a role are pods of the list, and the two picks of a plan for two pods.
use calinix.Base.Router.{
  disaggregated, BasePodRole, Pod, ScoredCandidate, disaggregated_plan, matches, add_matching,
  find_pod, max_by_key, pick_best, same_node, decode_at_most, pick_decode, pick_after_prefill, pick,
}
use calinix.Bitmap
use calinix.Bitmap.{HostBitmap, max_pods}
use calinix.Bitmap.Laws.{contains-set, set-IsWords}
use calinix.Bitmap.Members.{IsWords}
use calinix.Query.{◌>>=◌}
use calinix.Prelude.{
  ℕ, ◌≡◌, refl, sym, ap, ◌∙◌, ◌⊎◌, inl, inr, true, Option, none, some, List, [], ◌∷◌, arith, ◌==◌,
  if◌then◌else◌, Bool-cases,
}

pub add_matching-IsWords :
    (pods : List Pod) (wanted : BasePodRole) (b : HostBitmap)
    → IsWords b
    → IsWords (add_matching pods wanted b)
unfolding add_matching
add_matching-IsWords [] wanted b w = w
add_matching-IsWords (pod ∷ pods) wanted b w = elim (Bool-cases (matches wanted pod.role)) [
  | inl fits ↦
      rw fits (add_matching-IsWords pods wanted (Bitmap.set b pod.id) (set-IsWords b pod.id w))
  | inr skips ↦ rw skips (add_matching-IsWords pods wanted b w)
]

-- A candidate that was not in the bitmap is a pod of the list.
pub add_matching-find_pod :
    (pods : List Pod) (wanted : BasePodRole) (b : HostBitmap) (p : ℕ)
    → Bitmap.contains (add_matching pods wanted b) p ≡ true
    → (Bitmap.contains b p ≡ true) ⊎ ((pod : Pod) × (find_pod (λ q. q.id == p) pods ≡ some pod))
unfolding add_matching find_pod
add_matching-find_pod [] wanted b p h = inl h
add_matching-find_pod (pod ∷ pods) wanted b p h = elim (Bool-cases (pod.id == p)) [
  | inl found ↦ inr (pod, rw found refl)
  | inr other ↦ elim (Bool-cases (matches wanted pod.role)) [
    | inl fits ↦
        elim (add_matching-find_pod pods wanted (Bitmap.set b pod.id) p (
          sym (
            ap
              (λ t.
                Bitmap.contains (add_matching pods wanted (if t then Bitmap.set b pod.id else b)) p)
              fits)
          ∙ h)) [
            | inl before ↦ inl (ground (arith, contains-set b pod.id p))
            | inr (q, found) ↦ inr (q, rw other found)
          ]
    | inr skips ↦
        elim (add_matching-find_pod pods wanted b p (
          sym (
            ap
              (λ t.
                Bitmap.contains (add_matching pods wanted (if t then Bitmap.set b pod.id else b)) p)
              skips)
          ∙ h)) [ inl before ↦ inl before | inr (q, found) ↦ inr (q, rw other found) ]
  ]
]

module _ (pods : List Pod) where
  pub pick_vacant :
      (ps ds : List ScoredCandidate)
      → pick_best ps ≡ none
      → pick pods (ps ∷ ds ∷ []) disaggregated ≡ some none
  unfolding pick pick_after_prefill
  pick_vacant ps ds picked = ap (pick_after_prefill pods (ps ∷ ds ∷ [])) picked

  pub pick_both :
      (ps ds : List ScoredCandidate) (p : ℕ) (pod : Pod)
      → pick_best ps ≡ some (record { pod_id = p })
      → find_pod (λ q. q.id == p) pods ≡ some pod
      → pick pods (ps ∷ ds ∷ []) disaggregated
        ≡ some (
            max_by_key (decode_at_most (same_node pods pod.node)) ds >>= λ d.
            some (disaggregated_plan p d.pod_id))
  unfolding pick pick_after_prefill pick_decode
  pick_both ps ds p pod picked found =
      ap (pick_after_prefill pods (ps ∷ ds ∷ [])) picked
      ∙ ap
          (λ (found_pod : Option Pod). some (
            found_pod >>= (λ q. max_by_key (decode_at_most (same_node pods q.node)) ds) >>= λ d.
            some (disaggregated_plan p d.pod_id)))
          found
