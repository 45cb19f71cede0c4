-- ===== src/Upstream/Load/Others.antt =====
-- What other tasks do to the counters while a request is forwarded: they track requests and drop the
-- guards that they hold, in any order.
use calinix.Upstream.Load.{LoadState, load_state, inflight, track, decrement}
use calinix.Upstream.Load.Guards.{
  Runs, start, tracked, dropped, held_for, held_for-bound, one_more, track-some, track-none,
  tracked-some, inflight-one_more, inflight-decrement, inflight-held_for,
}
use calinix.Prelude.{
  ℕ, ◌-◌, ◌^◌, ◌≤◌, ◌<◌, ◌≡◌, refl, ap, ◌∙◌, inl, inr, Option, none, some, List, [], ◌∷◌, ◌++◌,
  arith, ltb, ◌==◌, if◌then◌else◌, ltb→lt, Bool-cases, length, length-set, length-replicate,
  get_elem?-cases,
}

-- A task begins a request to a pod, or ends one.
pub data Turn : Type 0 where
  begins : ℕ → Turn
  ends : ℕ → Turn

abbrev pub turn : LoadState → Turn → LoadState
turn s (begins p) = elim (track s p) [ none ↦ s | some (s', guard) ↦ s' ]
turn s (ends p) = decrement s p

abbrev pub run_turns : List Turn → LoadState → LoadState
run_turns [] s = s
run_turns (t ∷ turns) s = run_turns turns (turn s t)

-- The guards without one for the pod.
unfoldable pub drop_first : ℕ → List ℕ → List ℕ
drop_first p [] = []
drop_first p (g ∷ held) = let rest = drop_first p held in if g == p then held else g ∷ rest

-- The guards that the other tasks hold after a turn, where `n` pods have counters.
abbrev pub held_after : ℕ → List ℕ → Turn → List ℕ
held_after n held (begins p) = if ltb p n then p ∷ held else held
held_after n held (ends p) = drop_first p held

abbrev pub held_all : ℕ → List ℕ → List Turn → List ℕ
held_all n held [] = held
held_all n held (t ∷ turns) = held_all n (held_after n held t) turns

-- A task ends only a request that the others have begun, and begins one only while fewer than
-- 2 ^ 64 - 2 run.
abbrev pub IsTurn : List ℕ → Turn → Type 0
IsTurn held (begins p) = length held < 2 ^ 64 - 2
IsTurn held (ends p) = 0 < held_for p held

abbrev pub AreTurns : ℕ → List ℕ → List Turn → Type 0
AreTurns n held [] = Unit {0}
AreTurns n held (t ∷ turns) = IsTurn held t × AreTurns n (held_after n held t) turns

-- The counters are those of the guard for `p` and of the guards that the other tasks hold.
pub record IsShared (n p : ℕ) (s : LoadState) (held : List ℕ) : Type 0 where
  pub size : length s.counters ≡ n
  pub counted : (q : ℕ) → inflight s q ≡ held_for q (p ∷ held)

held_for-drop_first :
    (q p : ℕ) (held : List ℕ)
    → held_for q (drop_first p held) ≡ (if p == q then held_for q held - 1 else held_for q held)
unfolding held_for drop_first
held_for-drop_first q p [] = ground arith
held_for-drop_first q p (g ∷ held) = ground (arith, held_for-drop_first q p held)

length-decrement : (s : LoadState) (p : ℕ) → length (decrement s p).counters ≡ length s.counters
unfolding decrement
length-decrement s p = elim (get_elem?-cases s.counters p 0) [
  | inl (below, found) ↦ rw (found, decrement) (length-set s.counters p _)
  | inr (beyond, missing) ↦ rw (missing, decrement) refl
]

pub length-Runs : (n : ℕ) (s : LoadState) (held : List ℕ) → Runs n s held → length s.counters ≡ n
unfolding load_state
length-Runs n s held (start) = length-replicate {A = ℕ} n 0
length-Runs n s₂ held (tracked s s' p g rest room h run) =
    rw (tracked-some s s' p g h).1 (length-set s.counters p _ ∙ length-Runs n s rest run)
length-Runs n s₂ held (dropped s g before after run) =
    length-decrement s g ∙ length-Runs n s (before ++ g ∷ after) run

abbrev taken : LoadState → Option (LoadState × ℕ) → LoadState
taken s o = elim o [ none ↦ s | some (s', guard) ↦ s' ]

turn-begins : (s : LoadState) (r : ℕ) → r < length s.counters → turn s (begins r) ≡ one_more s r
turn-begins s r below = ap (taken s) (track-some s r below)

turn-nothing : (s : LoadState) (r : ℕ) → length s.counters ≤ r → turn s (begins r) ≡ s
turn-nothing s r beyond = ap (taken s) (track-none s r beyond)

one_more-IsShared :
    (n p r : ℕ) (s : LoadState) (held : List ℕ)
    → r < n
    → length held < 2 ^ 64 - 2
    → IsShared n p s held
    → IsShared n p (one_more s r) (r ∷ held)
unfolding held_for
one_more-IsShared n p r s held known room v =
    let size = v.size in
    let below : r < length s.counters = omega (arith, size) in
    record {
      size = length-set s.counters r _ ∙ size;
      counted = λ q.
          ground
            (arith, inflight-one_more s r q below, v.counted r, v.counted q, held_for-bound r held);
    }

turn-IsShared :
    (n p : ℕ) (s : LoadState) (held : List ℕ) (t : Turn)
    → IsTurn held t
    → IsShared n p s held
    → IsShared n p (turn s t) (held_after n held t)
unfolding held_for
turn-IsShared n p s held (begins r) room v = elim (Bool-cases (ltb r n)) [
  | inl known ↦
      let size = v.size in
      let below : r < length s.counters = omega (arith, ltb→lt r n known) in
      rw (known, turn-begins s r below) (one_more-IsShared n p r s held (ltb→lt r n known) room v)
  | inr unknown ↦ let size = v.size in rw (unknown, turn-nothing s r (ground arith)) v
]
turn-IsShared n p s held (ends r) some_held v = record {
  size = length-decrement s r ∙ v.size;
  counted = λ q. ground (
    arith,
    inflight-decrement s r q,
    v.counted q,
    held_for-drop_first q r held,
    ap {A = ℕ} (λ k. held_for k held),
  );
}

run_turns-IsShared :
    (n p : ℕ) (s : LoadState) (held : List ℕ) (turns : List Turn)
    → AreTurns n held turns
    → IsShared n p s held
    → IsShared n p (run_turns turns s) (held_all n held turns)
run_turns-IsShared n p s held [] fair v = v
run_turns-IsShared n p s held (t ∷ turns) fair v =
    run_turns-IsShared n p (turn s t) (held_after n held t) turns fair.1
      (turn-IsShared n p s held t fair.0 v)

-- A request that is tracked before the turns of the others, and dropped after them, leaves the
-- counters of the guards that the others hold.
pub inflight-run_turns :
    (n p : ℕ) (s : LoadState) (held : List ℕ) (turns : List Turn) (q : ℕ)
    → Runs n s held
    → length held < 2 ^ 64 - 1
    → AreTurns n held turns
    → p < n
    → inflight (decrement (run_turns turns (one_more s p)) p) q ≡ held_for q (held_all n held turns)
unfolding held_for
inflight-run_turns n p s held turns q run room fair known =
    let before = inflight-held_for n s held run in
    let size = length-Runs n s held run in
    let below : p < length s.counters = omega (arith, size) in
    let shared : IsShared n p (one_more s p) held = record {
      size = length-set s.counters p _ ∙ size;
      counted = λ k.
          ground (arith, inflight-one_more s p k below, before p, before k, held_for-bound p held);
    } in
    let after = run_turns-IsShared n p (one_more s p) held turns fair shared in
    ground (arith, inflight-decrement (run_turns turns (one_more s p)) p q, after.counted q)
