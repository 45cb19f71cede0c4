-- ===== src/Query/Stack.antt =====
-- The stack of frames against the list of the frames that it holds, the top first: it never reads
-- a slot that was not written, and the move to the heap keeps the order.
use calinix.Query.{
  SearchFrame, SearchStack, new, read_frames, spill_to_heap, write_frame, push, pop_last, pop_heap,
  pop,
}
use calinix.Prelude.{
  ℕ, ◌+◌, ◌-◌, ◌≤◌, ◌≡◌, refl, ap, inl, inr, Option, none, some, List, [], ◌∷◌, ◌++◌, arith, ltb,
  Bool-cases, length,
}

from_top : List SearchFrame → List SearchFrame
from_top [] = []
from_top (f ∷ fs) = from_top fs ++ f ∷ []

-- The slots below `length fs` hold `fs`, the bottom at 0.
abbrev Slots : (ℕ → Option SearchFrame) → List SearchFrame → Type 0
Slots frames [] = Unit {0}
Slots frames (f ∷ fs) = (frames (length fs) ≡ some f) × Slots frames fs

abbrev HoldsAt :
    Option (List SearchFrame) → (ℕ → Option SearchFrame) → ℕ → List SearchFrame → Type 0
HoldsAt none frames len fs = (len ≡ length fs) × (len ≤ 32) × Slots frames fs
HoldsAt (some heap) frames len fs = heap ≡ from_top fs

-- The stack holds exactly the frames `fs`, the top first.
pub Holds : SearchStack → List SearchFrame → Type 0
Holds s fs = HoldsAt s.heap s.frames s.len fs

pub new-Holds : Holds new []
unfolding Holds new
new-Holds = omega arith

write_frame-Slots :
    (frames : ℕ → Option SearchFrame) (i : ℕ) (f : SearchFrame) (fs : List SearchFrame)
    → length fs ≤ i
    → Slots frames fs
    → Slots (write_frame frames i f) fs
unfolding write_frame
write_frame-Slots frames i f [] h s = tt
write_frame-Slots frames i f (g ∷ fs) h s =
    (ground arith, write_frame-Slots frames i f fs (omega arith) s.1)

read_frames-Slots :
    (frames : ℕ → Option SearchFrame) (fs : List SearchFrame)
    → Slots frames fs
    → read_frames frames (length fs) ≡ some (from_top fs)
unfolding read_frames from_top
read_frames-Slots frames [] s = refl
read_frames-Slots frames (f ∷ fs) s = rw (read_frames-Slots frames fs s.1, s.0)

pop_last-append : (fs : List SearchFrame) (f : SearchFrame) → pop_last (fs ++ f ∷ []) ≡ some (f, fs)
unfolding pop_last
pop_last-append [] f = refl
pop_last-append (g ∷ fs) f = rw (pop_last-append fs f)

abbrev stack_of : (ℕ → Option SearchFrame) → ℕ → Option (List SearchFrame) → SearchStack
stack_of frames len heap = record { frames = frames; len = len; heap = heap }

push-HoldsAt :
    (frames : ℕ → Option SearchFrame) (len : ℕ) (heap : Option (List SearchFrame)) (f : SearchFrame)
    (fs : List SearchFrame)
    → HoldsAt heap frames len fs
    → (s' : SearchStack) × (push (stack_of frames len heap) f ≡ some s') × Holds s' (f ∷ fs)
unfolding Holds push spill_to_heap from_top
push-HoldsAt frames len (some heap) f fs h = (_, refl, ap (λ v. v ++ f ∷ []) h)
push-HoldsAt frames len none f fs h = elim (Bool-cases (ltb len 32)) [
  | inl room ↦
      let written : write_frame frames len f (length fs) ≡ some f =
        unfold write_frame in ground arith in
      (
        stack_of (write_frame frames len f) (len + 1) none,
        rw room,
        (omega arith, ground arith, (written, write_frame-Slots frames len f fs (omega arith) h.2)),
      )
  | inr full ↦
      let copied : read_frames frames len ≡ some (from_top fs) =
        rw (h.0) (read_frames-Slots frames fs h.2) in
      (stack_of frames 0 (some (from_top fs ++ f ∷ [])), rw (full, copied), refl)
]

-- A push onto a stack that holds some frames returns a stack that holds them under the new one,
-- also where it moves the frames from the array to the heap.
pub push-Holds :
    (s : SearchStack) (f : SearchFrame) (fs : List SearchFrame)
    → Holds s fs
    → (s' : SearchStack) × (push s f ≡ some s') × Holds s' (f ∷ fs)
unfolding Holds
push-Holds s f fs h = push-HoldsAt s.frames s.len s.heap f fs h

pop-HoldsAt_nil :
    (frames : ℕ → Option SearchFrame) (len : ℕ) (heap : Option (List SearchFrame))
    → HoldsAt heap frames len []
    → pop (stack_of frames len heap) ≡ some none
unfolding pop pop_heap from_top pop_last
pop-HoldsAt_nil frames len (some heap) h = rw h
pop-HoldsAt_nil frames len none h = rw (h.0)

pop-HoldsAt :
    (frames : ℕ → Option SearchFrame) (len : ℕ) (heap : Option (List SearchFrame)) (f : SearchFrame)
    (fs : List SearchFrame)
    → HoldsAt heap frames len (f ∷ fs)
    → (s' : SearchStack) × (pop (stack_of frames len heap) ≡ some (some (f, s'))) × Holds s' fs
unfolding Holds pop pop_heap from_top
pop-HoldsAt frames len (some heap) f fs h = (
  stack_of frames len (some (from_top fs)),
  rw (h, pop_heap, pop_last-append (from_top fs) f),
  refl,
)
pop-HoldsAt frames len none f fs h =
    let below : len - 1 ≡ length fs = omega arith in
    (
      stack_of frames (len - 1) none,
      rw (below, h.2.0, h.0) (ground arith),
      (below, omega arith, h.2.1),
    )

-- A pop of an empty stack gives nothing.
pub pop-Holds_nil : (s : SearchStack) → Holds s [] → pop s ≡ some none
unfolding Holds
pop-Holds_nil s h = pop-HoldsAt_nil s.frames s.len s.heap h

-- A pop of a stack that holds some frames returns the top one and a stack that holds the others.
pub pop-Holds :
    (s : SearchStack) (f : SearchFrame) (fs : List SearchFrame)
    → Holds s (f ∷ fs)
    → (s' : SearchStack) × (pop s ≡ some (some (f, s'))) × Holds s' fs
unfolding Holds
pop-Holds s f fs h = pop-HoldsAt s.frames s.len s.heap f fs h
