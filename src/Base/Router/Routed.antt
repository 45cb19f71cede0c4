-- ===== src/Base/Router/Routed.antt =====
-- What the plan of the prototype's router says.
use calinix.Base.Indexer.{BaseIndexer}
use calinix.Base.Router.{
  Mode, single, disaggregated, BasePodRole, prefill, decode, both, Pod, ExecutionPlan, single_plan,
  disaggregated_plan, role_candidates, find_pod,
}
use calinix.Base.Search.Same.{IsBase, present}
use calinix.Bitmap
use calinix.Bitmap.{HostBitmap}
use calinix.Bitmap.Scan.{range_where}
use calinix.Hash.{Text, base_prompt_to_cumulative_hashes}
use calinix.Text.{same_text}
use calinix.Query.Lengths.{depth_of}
use calinix.Prelude.{
  ℕ, ◌≤◌, ◌≡◌, ◌⊎◌, Bool, true, false, ◌&&◌, ◌||◌, Option, none, some, List, ltb, leb, ◌==◌,
}

module _ (pods : List Pod) (b : BaseIndexer) (full : IsBase b) (prompt : Text) where
  -- The live pods for a role, and how long a prefix of the prompt each of them caches.
  abbrev pub members : BasePodRole → HostBitmap
  members role = Bitmap.and (role_candidates pods role) b.alive

  abbrev pub depth : BasePodRole → ℕ → ℕ
  depth role p = depth_of (present b) (base_prompt_to_cumulative_hashes prompt) (members role) p

  abbrev ids : BasePodRole → List ℕ
  ids role = range_where (Bitmap.contains (members role)) 256 0

  -- A live pod for the role, with the longest prefix, and the smallest id among those.
  abbrev pub IsPicked : BasePodRole → ℕ → Type 0
  IsPicked role p =
      (Bitmap.contains (members role) p ≡ true)
      × ((q : ℕ)
          → Bitmap.contains (members role) q ≡ true
          → (ltb (depth role q) (depth role p) || ((depth role q == depth role p) && leb p q))
            ≡ true)

  -- No live pod has the role.
  abbrev pub IsVacant : BasePodRole → Type 0
  IsVacant role = (q : ℕ) → Bitmap.contains (members role) q ≡ false

  -- The pod is on the node.
  abbrev pub is_near : Text → ℕ → Bool
  is_near node p = elim (find_pod (λ pod. pod.id == p) pods) [
    | none ↦ false
    | some pod ↦ same_text pod.node node
  ]

  -- A live pod for decoding: on the node if there is one, with the longest prefix among those that
  -- are as near.
  abbrev pub IsDecode : Text → ℕ → Type 0
  IsDecode node p =
      (Bitmap.contains (members decode) p ≡ true)
      × ((q : ℕ)
          → Bitmap.contains (members decode) q ≡ true
          → (is_near node q ≡ true → is_near node p ≡ true)
            × (is_near node q ≡ is_near node p → depth decode q ≤ depth decode p))

  -- What a plan says, and what it means that there is none.
  abbrev pub IsRouted : Mode → Option ExecutionPlan → Type 0
  IsRouted single none = IsVacant both
  IsRouted single (some (single_plan p)) = IsPicked both p
  IsRouted single (some (disaggregated_plan p d)) = false ≡ true
  IsRouted disaggregated none = IsVacant prefill ⊎ IsVacant decode
  IsRouted disaggregated (some (single_plan p)) = false ≡ true
  IsRouted disaggregated (some (disaggregated_plan p d)) =
      IsPicked prefill p
      × ((pod : Pod) × (find_pod (λ q. q.id == p) pods ≡ some pod) × IsDecode pod.node d)
