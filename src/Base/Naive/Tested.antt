-- ===== src/Base/Naive/Tested.antt =====
-- What one block's round of the linear scan does to the pods that it tests.
use calinix.Base.Naive.{NaiveState, write_depth, test_pod, visit_pod}
use calinix.Bitmap
use calinix.Bitmap.{HostBitmap, max_pods}
use calinix.Bitmap.Laws.{contains-clear}
use calinix.Bitmap.Scan.{range_where, visit_all}
use calinix.Prelude.{
  ℕ, zero, suc, ◌+◌, ◌≤◌, ◌<◌, ◌≡◌, refl, ap, ◌∙◌, inl, inr, Bool, not, ◌&&◌, ◌||◌, some, arith,
  ltb, leb, ◌==◌, if◌then◌else◌, lt→ltb, Bool-cases, length, get_or, length-set, get_or-set,
}

-- The state after pods were tested against the owners of a block: `tested q` says whether pod `q` was.
pub record IsTested (owning : HostBitmap) (depth : ℕ) (tested : ℕ → Bool) (s s' : NaiveState)
    : Type 0 where
  pub size : length s'.result.depths ≡ length s.result.depths
  pub lookups : s'.result.shard_lookups ≡ s.result.shard_lookups
  pub still :
      (q : ℕ)
      → Bitmap.contains s'.still_matching_pods q
        ≡ (Bitmap.contains s.still_matching_pods q && (not (tested q) || Bitmap.contains owning q))
  pub entry :
      (q : ℕ)
      → q < length s.result.depths
      → get_or s'.result.depths q 0 ≡ (
          if tested q && (Bitmap.contains s.still_matching_pods q && Bitmap.contains owning q)
          then depth
          else get_or s.result.depths q 0)

module _ (owning : HostBitmap) (depth : ℕ) where
  test_pod-IsTested :
      (s : NaiveState) (p : ℕ)
      → p < length s.result.depths
      → (s' : NaiveState) × (test_pod owning depth s p ≡ some s')
        × IsTested owning depth (λ q. p == q) s s'
  unfolding test_pod write_depth
  test_pod-IsTested s p fits = elim (Bool-cases (Bitmap.contains s.still_matching_pods p)) [
    | inr done ↦ (
      s,
      rw done refl,
      record {
        size = refl;
        lookups = refl;
        still = λ q. ground (arith, ap (Bitmap.contains s.still_matching_pods));
        entry = λ q lt. ground (arith, ap (Bitmap.contains s.still_matching_pods));
      },
    )
    | inl matching ↦ elim (Bool-cases (Bitmap.contains owning p)) [
      | inl owns ↦ (
        record s { result = write_depth s.result p depth },
        rw (matching, owns, lt→ltb p (length s.result.depths) fits) refl,
        record {
          size = length-set s.result.depths p depth;
          lookups = refl;
          still = λ q. ground (arith, ap (Bitmap.contains owning));
          entry = λ q lt. ground (
            arith,
            get_or-set s.result.depths p q depth 0,
            ap (Bitmap.contains s.still_matching_pods),
            ap (Bitmap.contains owning),
          );
        },
      )
      | inr lacks ↦ (
        record {
          result = record s.result { pod_bit_tests = s.result.pod_bit_tests + 1 };
          still_matching_pods = Bitmap.clear s.still_matching_pods p;
        },
        rw (matching, lacks) refl,
        record {
          size = refl;
          lookups = refl;
          still = λ q.
              ground (arith, contains-clear s.still_matching_pods p q, ap (Bitmap.contains owning));
          entry = λ q lt. ground (arith, ap (Bitmap.contains owning));
        },
      )
    ]
  ]

  pub visit_all-IsTested :
      (t : ℕ → Bool) (n base : ℕ) (s : NaiveState)
      → base + n ≤ length s.result.depths
      → (s' : NaiveState) × (visit_all (visit_pod owning depth) (range_where t n base) (some s)
          ≡ some s')
        × IsTested owning depth (λ q. t q && (leb base q && ltb q (base + n))) s s'
  unfolding visit_all range_where visit_pod
  visit_all-IsTested t zero base s room = (
    s,
    refl,
    record { size = refl; lookups = refl; still = λ q. ground arith; entry = λ q lt. ground arith },
  )
  visit_all-IsTested t (suc n) base s room = elim (Bool-cases (t base)) [
    | inr out ↦
        let (s', run, v) = visit_all-IsTested t n (base + 1) s (omega arith) in
        (
          s',
          rw out run,
          record {
            size = v.size;
            lookups = v.lookups;
            still = λ q. ground (arith, v.still q, ap {A = ℕ} t);
            entry = λ q lt. ground (arith, v.entry q lt, ap {A = ℕ} t);
          },
        )
    | inl member ↦
        let (s1, first, u) = test_pod-IsTested s base (omega arith) in
        let size = u.size in
        let (s', run, v) = visit_all-IsTested t n (base + 1) s1 (omega arith) in
        (
          s',
          rw member
              (ap (visit_all (visit_pod owning depth) (range_where t n (base + 1))) first ∙ run),
          record {
            size = v.size ∙ size;
            lookups = v.lookups ∙ u.lookups;
            still = λ q. ground (arith, v.still q, u.still q, ap {A = ℕ} t);
            entry = λ q lt. ground (arith, v.entry q, u.entry q lt, u.still q, ap {A = ℕ} t);
          },
        )
  ]
