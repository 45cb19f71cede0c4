-- ===== src/Query/Frames.antt =====
-- The frames that wait on the stack, read for one pod: what its depth will be when they are done.
use calinix.Bitmap
use calinix.Bitmap.{HostBitmap}
use calinix.Bitmap.Members.{IsWords}
use calinix.Bitmap.Laws.{contains-is_empty}
use calinix.Hash.{BlockHash}
use calinix.Index.{ShardedBlockIndexer, owners}
use calinix.Query.{SearchFrame, SearchStack, push_unless_empty}
use calinix.Query.Stack.{Holds, push-Holds}
use calinix.Query.Bisect.{bisect}
use calinix.Prelude.{
  ℕ, ◌+◌, ◌-◌, ◌*◌, ◌≤◌, ◌≡◌, refl, inl, inr, Bool, some, List, [], ◌∷◌, arith, if◌then◌else◌,
  Bool-cases, get_or,
}

-- The pods that hold the hash at a depth and are alive.
abbrev pub holders : ShardedBlockIndexer → List BlockHash → HostBitmap → ℕ → HostBitmap
holders idx hashes alive d = Bitmap.and (owners idx (get_or hashes (d - 1) 0)) alive

-- The depths at which one pod does.
abbrev pub holds : ShardedBlockIndexer → List BlockHash → HostBitmap → ℕ → ℕ → Bool
holds idx hashes alive p d = Bitmap.contains (holders idx hashes alive d) p

-- A range of depths of the request, and u64 words.
pub record IsFrame (n : ℕ) (f : SearchFrame) : Type 0 where
  pub ordered : f.min_prefix_depth ≤ f.max_prefix_depth
  pub in_range : f.max_prefix_depth ≤ n
  pub words : IsWords f.candidate_pods

abbrev pub AreFrames : ℕ → List SearchFrame → Type 0
AreFrames n [] = Unit {0}
AreFrames n (f ∷ fs) = IsFrame n f × AreFrames n fs

-- The rounds that the frames need.
unfoldable pub work : List SearchFrame → ℕ
work [] = 0
work (f ∷ fs) = 2 * (f.max_prefix_depth - f.min_prefix_depth) + 1 + work fs

-- The final depth of a pod whose depth is now `cur`.
unfoldable pub outcome : (ℕ → Bool) → ℕ → List SearchFrame → ℕ → ℕ
outcome has p [] cur = cur
outcome has p (f ∷ fs) cur = outcome has p fs (
    if Bitmap.contains f.candidate_pods p
    then bisect has f.min_prefix_depth f.max_prefix_depth
    else cur)

-- Frames without pods are not pushed, and would change nothing.
pub push_unless_empty-Holds :
    (n : ℕ) (s : SearchStack) (f : SearchFrame) (fs : List SearchFrame)
    → Holds s fs
    → IsFrame n f
    → AreFrames n fs
    → (s' : SearchStack) × (fs' : List SearchFrame) × (push_unless_empty s f ≡ some s')
      × Holds s' fs'
      × AreFrames n fs'
      × (work fs' ≤ 2 * (f.max_prefix_depth - f.min_prefix_depth) + 1 + work fs)
      × ((has : ℕ → Bool) (p cur : ℕ) → outcome has p fs' cur ≡ outcome has p (f ∷ fs) cur)
unfolding push_unless_empty work outcome
push_unless_empty-Holds n s f fs h w ws = elim (Bool-cases (Bitmap.is_empty f.candidate_pods)) [
  | inl vacant ↦ (
    s,
    fs,
    rw vacant,
    h,
    ws,
    omega arith,
    λ has p cur. rw (contains-is_empty f.candidate_pods p vacant),
  )
  | inr some_pods ↦
      let (s', pushed, h') = push-Holds s f fs h in
      (s', f ∷ fs, rw some_pods pushed, h', (w, ws), omega arith, λ has p cur. refl)
]
