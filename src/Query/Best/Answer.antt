-- ===== src/Query/Best/Answer.antt =====
-- What `best_prefix_match_for_candidates` answers.
use calinix.Bitmap
use calinix.Bitmap.{HostBitmap}
use calinix.Bitmap.First.{IsFirst, first_set_bit-IsFirst}
use calinix.Bitmap.Laws.{and-IsWords, contains-and, contains-is_empty}
use calinix.Bitmap.Members.{IsWords}
use calinix.Hash.{BlockHash}
use calinix.Index.{ShardedBlockIndexer}
use calinix.Query.{SearchFrame, PrefixMatch, new, push, search_fuel, ◌>>=◌}
use calinix.Query.Best.{best_loop, or_else, best_prefix_match_for_candidates}
use calinix.Query.Best.Invariant.{IsSearch, IsBest}
use calinix.Query.Best.Optimal.{best_loop-IsBest}
use calinix.Query.Bisect.{bisect, bisect_end}
use calinix.Query.Frames.{holds, work}
use calinix.Query.Lengths.{depth_of}
use calinix.Query.Stack.{new-Holds, push-Holds}
use calinix.Prelude.{
  ℕ, ◌≤◌, ◌<◌, ◌≡◌, refl, sym, ap, ◌∙◌, ◌⊎◌, inl, inr, true, false, none, some, List, [], ◌∷◌,
  arith, ◌==◌, Bool-cases, length,
}

module _ (idx : ShardedBlockIndexer) (hashes : List BlockHash) (candidate_pods : HostBitmap) where
  -- A best candidate: none is deeper, no live one with a smaller id is as deep, and it is alive if
  -- any candidate is.
  pub record IsAnswer (m : PrefixMatch) : Type 0 where
    pub candidate : Bitmap.contains candidate_pods m.pod_id ≡ true
    pub exact : m.prefix_depth ≡ depth_of idx hashes candidate_pods m.pod_id
    pub deepest :
        (p : ℕ)
        → Bitmap.contains candidate_pods p ≡ true
        → depth_of idx hashes candidate_pods p ≤ m.prefix_depth
    pub first_of_live :
        (p : ℕ)
        → Bitmap.contains candidate_pods p ≡ true
        → Bitmap.contains idx.alive p ≡ true
        → depth_of idx hashes candidate_pods p ≡ m.prefix_depth
        → m.pod_id ≤ p
    pub live_if_any :
        (p : ℕ)
        → Bitmap.contains candidate_pods p ≡ true
        → Bitmap.contains idx.alive p ≡ true
        → Bitmap.contains idx.alive m.pod_id ≡ true

  abbrev live : HostBitmap
  live = Bitmap.and candidate_pods idx.alive

  abbrev fallback : ℕ → PrefixMatch
  fallback q = record { pod_id = q; prefix_depth = 0 }

  depth_of-dead :
      (p : ℕ) → Bitmap.contains live p ≡ false → depth_of idx hashes candidate_pods p ≡ 0
  unfolding depth_of
  depth_of-dead p away = ground (arith, contains-and candidate_pods idx.alive p)

  depth_of-live :
      (p : ℕ)
      → Bitmap.contains live p ≡ true
      → depth_of idx hashes candidate_pods p
        ≡ bisect (holds idx hashes idx.alive p) 0 (length hashes)
  unfolding depth_of
  depth_of-live p here = ground (arith, contains-and candidate_pods idx.alive p)

  -- With no live candidate, the first candidate is the answer.
  dead-IsAnswer :
      (q : ℕ)
      → IsFirst (Bitmap.contains candidate_pods) q
      → Bitmap.is_empty live ≡ true
      → IsAnswer (fallback q)
  dead-IsAnswer q first vacant = record {
    candidate = first.passes;
    exact = sym (depth_of-dead q (contains-is_empty live q vacant));
    deepest = λ p c. rw (depth_of-dead p (contains-is_empty live p vacant)) (omega arith);
    first_of_live = λ p c a e. let away = first.least p in ground arith;
    live_if_any = λ p c a.
        let away = contains-is_empty live p vacant in
        let both = contains-and candidate_pods idx.alive p in absurd (ground arith);
  }

  -- A best live pod is the answer.
  IsBest-IsAnswer :
      (m : PrefixMatch)
      → IsBest (λ p. holds idx hashes idx.alive p) live (length hashes) m
      → IsAnswer m
  IsBest-IsAnswer m v =
      let both = contains-and candidate_pods idx.alive m.pod_id in
      let chosen = v.live_pod in
      record {
        candidate = ground arith;
        exact = v.exact ∙ sym (depth_of-live m.pod_id chosen);
        deepest = λ p c. deepest_at p (Bool-cases (Bitmap.contains live p));
        first_of_live = λ p c a e.
            let here = contains-and candidate_pods idx.alive p in first_at p (ground arith) e;
        live_if_any = λ p c a. ground arith;
      }
    where
      deepest_at :
          (p : ℕ)
          → (Bitmap.contains live p ≡ true) ⊎ (Bitmap.contains live p ≡ false)
          → depth_of idx hashes candidate_pods p ≤ m.prefix_depth
      deepest_at p (inr away) = rw (depth_of-dead p away) (omega arith)
      deepest_at p (inl here) = elim (v.beats_all p here) [
        | inl less ↦ rw (depth_of-live p here) (omega arith)
        | inr (same, later) ↦ rw (depth_of-live p here) (omega arith)
      ]

      first_at :
          (p : ℕ)
          → Bitmap.contains live p ≡ true
          → depth_of idx hashes candidate_pods p ≡ m.prefix_depth
          → m.pod_id ≤ p
      first_at p here e = elim (v.beats_all p here) [
        | inl less ↦ absurd (omega (arith, sym (depth_of-live p here) ∙ e))
        | inr (same, later) ↦ later
      ]

  -- Without hashes, the first live candidate is best.
  IsBest-no_hashes :
      (q : ℕ)
      → IsFirst (Bitmap.contains live) q
      → length hashes ≡ 0
      → IsBest (λ p. holds idx hashes idx.alive p) live (length hashes) (fallback q)
  IsBest-no_hashes q first short = record {
    live_pod = first.passes;
    exact = sym (nothing q);
    beats_all = λ p l. inr (nothing p, let away = first.least p in ground arith);
  }
    where
      nothing : (p : ℕ) → bisect (holds idx hashes idx.alive p) 0 (length hashes) ≡ 0
      nothing p = rw short (bisect_end (holds idx hashes idx.alive p) 0)

  abbrev first_frame : SearchFrame
  first_frame = record {
    min_prefix_depth = 0;
    max_prefix_depth = length hashes;
    candidate_pods = live;
  }

  -- The search starts with all live candidates in one frame.
  first_frame-IsSearch :
      (q : ℕ)
      → IsWords candidate_pods
      → IsFirst (Bitmap.contains live) q
      → 0 < length hashes
      → IsSearch
          (λ p. holds idx hashes idx.alive p)
          live
          (length hashes)
          (first_frame ∷ [])
          (fallback q)
  first_frame-IsSearch q w first some_hash = record {
    open_frames = (
      record {
        ordered = omega arith;
        in_range = omega arith;
        not_full = some_hash;
        words = and-IsWords candidate_pods idx.alive w;
        pods = λ p h. (h, refl);
      },
      tt,
    );
    covered = λ p l. inr (inl l);
    full_on_top = λ p l e. l;
    chosen = first.passes;
    reached = omega arith;
  }

  searched :
      (q : ℕ)
      → IsWords candidate_pods
      → IsFirst (Bitmap.contains live) q
      → 0 < length hashes
      → (m : PrefixMatch) × IsAnswer m
        × ((push new first_frame >>= λ stack.
              (best_loop idx hashes idx.alive (search_fuel hashes) stack (fallback q) >>= λ found.
              some (some found)))
            ≡ some (some m))
  unfolding work
  searched q w first some_hash =
      let (s, pushed, h) = push-Holds new first_frame [] new-Holds in
      let (m, run, is_best) =
        best_loop-IsBest idx hashes idx.alive live (search_fuel hashes) (first_frame ∷ []) s
          (fallback q) h (first_frame-IsSearch q w first some_hash) (omega arith) in
      (
        m,
        IsBest-IsAnswer m is_best,
        ap
              (λ o. o >>= λ stack.
                (best_loop idx hashes idx.alive (search_fuel hashes) stack (fallback q) >>= λ found.
                some (some found)))
              pushed
            ∙ ap (λ o. o >>= λ found. some (some found)) run,
      )

-- For candidates in u64 words, the search for the best pod returns: nothing if there is no
-- candidate, and else a candidate with its depth, such that no candidate is deeper, no live one
-- with a smaller id is as deep, and which is alive if any candidate is.
pub best_prefix_match_for_candidates-IsAnswer :
    (idx : ShardedBlockIndexer) (hashes : List BlockHash) (candidate_pods : HostBitmap)
    → IsWords candidate_pods
    → ((Bitmap.is_empty candidate_pods ≡ true)
        × (best_prefix_match_for_candidates idx hashes candidate_pods ≡ some none))
      ⊎ ((m : PrefixMatch) × (best_prefix_match_for_candidates idx hashes candidate_pods
            ≡ some (some m))
          × IsAnswer idx hashes candidate_pods m)
unfolding best_prefix_match_for_candidates or_else
best_prefix_match_for_candidates-IsAnswer idx hashes candidate_pods w =
    let live_pods = Bitmap.and candidate_pods idx.alive in
    elim (first_set_bit-IsFirst live_pods (and-IsWords candidate_pods idx.alive w)) [
      | inl (no_live, vacant) ↦ elim (first_set_bit-IsFirst candidate_pods w) [
        | inl (missing, empty) ↦
            inl (empty, rw (no_live, missing, best_prefix_match_for_candidates, or_else))
        | inr (q, found, first) ↦ inr (
          fallback idx hashes candidate_pods q,
          rw (no_live, found, vacant, best_prefix_match_for_candidates, or_else) (ground arith),
          dead-IsAnswer idx hashes candidate_pods q first vacant,
        )
      ]
      | inr (q, found, first) ↦ elim (Bool-cases (length hashes == 0)) [
        | inl short ↦ inr (
          fallback idx hashes candidate_pods q,
          rw (found, short, best_prefix_match_for_candidates, or_else),
          IsBest-IsAnswer idx hashes candidate_pods (fallback idx hashes candidate_pods q)
              (IsBest-no_hashes idx hashes candidate_pods q first (ground arith)),
        )
        | inr long ↦
            let (m, answer, run) = searched idx hashes candidate_pods q w first (ground arith) in
            let some_live : Bitmap.is_empty live_pods ≡ false =
              let away = contains-is_empty live_pods q in let here = first.passes in ground arith in
            inr (
              m,
              rw (found, long, some_live, best_prefix_match_for_candidates, or_else) run,
              answer,
            )
      ]
    ]
