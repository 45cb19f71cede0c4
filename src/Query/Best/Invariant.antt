-- ===== src/Query/Best/Invariant.antt =====
-- What holds between the rounds of the search for the best match.
use calinix.Bitmap
use calinix.Bitmap.{HostBitmap}
use calinix.Bitmap.Members.{IsWords}
use calinix.Query.{SearchFrame, PrefixMatch}
use calinix.Query.Bisect.{bisect}
use calinix.Prelude.{ℕ, ◌≤◌, ◌<◌, ◌≡◌, ◌⊎◌, inl, inr, Bool, true, List, [], ◌∷◌, arith}

-- `depth p` is the depth of pod `p`, `has p` the depths that it holds, `live` the pods to choose
-- from and `n` the full depth.
module _ (has : ℕ → ℕ → Bool) (live : HostBitmap) (n : ℕ) where
  abbrev pub depth : ℕ → ℕ
  depth p = bisect (has p) 0 n

  -- The match is deeper than the pod, or as deep with a pod id that is not larger.
  abbrev pub Beats : PrefixMatch → ℕ → Type 0
  Beats m p = (depth p < m.prefix_depth) ⊎ ((depth p ≡ m.prefix_depth) × (m.pod_id ≤ p))

  -- A frame of live pods whose depths lie in its range; the search has not reached its lower end
  -- at the full depth.
  pub record IsOpen (f : SearchFrame) : Type 0 where
    pub ordered : f.min_prefix_depth ≤ f.max_prefix_depth
    pub in_range : f.max_prefix_depth ≤ n
    pub not_full : f.min_prefix_depth < n
    pub words : IsWords f.candidate_pods
    pub pods :
        (p : ℕ)
        → Bitmap.contains f.candidate_pods p ≡ true
        → (Bitmap.contains live p ≡ true)
          × (bisect (has p) f.min_prefix_depth f.max_prefix_depth ≡ depth p)

  abbrev pub AreOpen : List SearchFrame → Type 0
  AreOpen [] = Unit {0}
  AreOpen (f ∷ fs) = IsOpen f × AreOpen fs

  abbrev pub Waits : ℕ → List SearchFrame → Type 0
  Waits p [] = ⊥
  Waits p (f ∷ fs) = (Bitmap.contains f.candidate_pods p ≡ true) ⊎ Waits p fs

  -- The pod is in the frame on the top.
  abbrev pub OnTop : ℕ → List SearchFrame → Type 0
  OnTop p [] = ⊥
  OnTop p (f ∷ fs) = Bitmap.contains f.candidate_pods p ≡ true

  -- Every live pod is beaten or waits; one with a full match waits on the top; the best match is a
  -- live pod with a depth that it has.
  pub record IsSearch (fs : List SearchFrame) (best : PrefixMatch) : Type 0 where
    pub open_frames : AreOpen fs
    pub covered : (p : ℕ) → Bitmap.contains live p ≡ true → Beats best p ⊎ Waits p fs
    pub full_on_top : (p : ℕ) → Bitmap.contains live p ≡ true → depth p ≡ n → OnTop p fs
    pub chosen : Bitmap.contains live best.pod_id ≡ true
    pub reached : best.prefix_depth ≤ depth best.pod_id

  -- The answer.
  pub record IsBest (m : PrefixMatch) : Type 0 where
    pub live_pod : Bitmap.contains live m.pod_id ≡ true
    pub exact : m.prefix_depth ≡ depth m.pod_id
    pub beats_all : (p : ℕ) → Bitmap.contains live p ≡ true → Beats m p

  -- A search with nothing left to do has the answer.
  pub IsSearch-IsBest : (best : PrefixMatch) → IsSearch [] best → IsBest best
  IsSearch-IsBest best s =
      let beats = λ (p : ℕ) (l : Bitmap.contains live p ≡ true). settled p (s.covered p l) in
      record {
        live_pod = s.chosen;
        exact = ground (arith, beats best.pod_id s.chosen, s.reached);
        beats_all = beats;
      }
    where
      settled : (p : ℕ) → Beats best p ⊎ ⊥ → Beats best p
      settled p (inl b) = b
      settled p (inr e) = elim e [ ]
