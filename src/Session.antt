-- ===== src/Session.antt =====
-- src/calinix/session/store.rs: which pod served a session last. A lock that a panic has poisoned
-- is not modelled.
pub mod Sticky
use calinix.Hash.{Text}
use calinix.Text.{same_text}
use calinix.Prelude.{
  ℕ, zero, suc, ◌+◌, ◌-◌, ◌*◌, ◌/◌, ◌%◌, ◌^◌, ◌≤◌, ◌<◌, min, max, ◌≡◌, refl, sym, ap, ap₂, ◌∙◌,
  subst, fun_ext, ◌≢◌, ◌↔◌, ◌⊎◌, inl, inr, Bool, true, false, not, ◌&&◌, ◌||◌, Option, none, some,
  List, [], ◌∷◌, ◌++◌, map, append_assoc, append-nil, arith, ltb, leb, ◌==◌, if◌then◌else◌, ltb→lt,
  lt→ltb, leb→le, ==_iff, ==_refl, tests, Bool-cases, Option-cases, length, get_elem?, get_or,
  set as set_elem, take, replicate, length-append, length-set, length-replicate, get_or-replicate,
  get_or-set, get_elem?-get_or, get_elem?-beyond, get_elem?-cases, get_elem?-left, get_elem?-last,
  get_or-beyond, lt_wf,
}

-- The hash map: the pairs that were inserted, the last one in front.
pub record StickyStore : Type 0 where
  pub by_session : List (Text × ℕ)

abbrev pub no_sessions : StickyStore
no_sessions = record { by_session = [] }

unfoldable pub find_session : List (Text × ℕ) → Text → Option ℕ
find_session [] session_key = none
find_session ((key, pod_id) ∷ sessions) session_key =
    if same_text key session_key then some pod_id else find_session sessions session_key

unfoldable pub previous_pod : StickyStore → Text → Option ℕ
previous_pod s session_key = find_session s.by_session session_key

unfoldable pub remember : StickyStore → Text → ℕ → StickyStore
remember s session_key pod_id = record { by_session = (session_key, pod_id) ∷ s.by_session }
