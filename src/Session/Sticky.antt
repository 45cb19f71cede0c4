-- ===== src/Session/Sticky.antt =====
-- What the store remembers.
use calinix.Hash.{Text}
use calinix.Session.{StickyStore, find_session, previous_pod, remember}
use calinix.Text.{same_text, same_text_refl}
use calinix.Prelude.{ℕ, ◌≡◌, refl, ◌∙◌, false, some, List, [], ◌∷◌}

abbrev pub remember_all : StickyStore → List (Text × ℕ) → StickyStore
remember_all s [] = s
remember_all s ((key, pod_id) ∷ rest) = remember_all (remember s key pod_id) rest

-- The sessions after the last one with the key do not change its pod.
abbrev pub Absent : Text → List (Text × ℕ) → Type 0
Absent key [] = Unit {0}
Absent key ((other, pod_id) ∷ rest) = (same_text other key ≡ false) × Absent key rest

previous_pod-remember_all :
    (s : StickyStore) (key : Text) (rest : List (Text × ℕ))
    → Absent key rest
    → previous_pod (remember_all s rest) key ≡ previous_pod s key
unfolding previous_pod remember find_session
previous_pod-remember_all s key [] v = refl
previous_pod-remember_all s key ((other, pod_id) ∷ rest) (differs, v) =
    previous_pod-remember_all (remember s other pod_id) key rest v ∙ rw differs

-- A session's pod is the one that was remembered for its key last, whatever was remembered for
-- other keys since.
pub previous_pod-remember :
    (s : StickyStore) (key : Text) (pod_id : ℕ) (rest : List (Text × ℕ))
    → Absent key rest
    → previous_pod (remember_all (remember s key pod_id) rest) key ≡ some pod_id
unfolding previous_pod remember find_session
previous_pod-remember s key pod_id rest v =
    previous_pod-remember_all (remember s key pod_id) key rest v ∙ rw (same_text_refl key)
