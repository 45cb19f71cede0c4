-- ===== src/Registry/Events.antt =====
-- Every sequence of cache events, against a set of pairs and a set of live pods.
use calinix.Bitmap
use calinix.Bitmap.{HostBitmap}
use calinix.Bitmap.Laws.{contains-set, contains-clear}
use calinix.Hash.{BlockHash}
use calinix.Index.{
  ShardedBlockIndexer, mark_alive, shutdown, observe_pod, register, evict, set_shard,
  cleanup_dead_pod,
}
use calinix.Index.Invariant.{
  IsIndex, register-IsIndex, evict-IsIndex, mark_alive-IsIndex, shutdown-IsIndex,
  cleanup_dead_pod-IsIndex,
}
use calinix.Index.Owners.{owns, register-owns, evict-owns, cleanup_dead_pod-owns, liveness-owners}
use calinix.Registry.{
  CacheEvent, prefix_cached, prefix_evicted, pod_started, pod_shutdown, cleanup_pod, apply_event,
}
use calinix.Prelude.{
  ℕ, ◌<◌, ◌≡◌, refl, ap, ◌∙◌, Bool, true, false, ◌&&◌, List, [], ◌∷◌, arith, ◌==◌, if◌then◌else◌,
}

-- What the registry promises: which pods cache which hash, and which pods are alive.
pub record Contents : Type 0 where
  pub caches : BlockHash → ℕ → Bool
  pub lives : ℕ → Bool

abbrev pub contents : ShardedBlockIndexer → Contents
contents idx = record { caches = owns idx; lives = Bitmap.contains idx.alive }

abbrev pub change : Contents → CacheEvent → Contents
change c (prefix_cached pod_id h) = record c {
  caches = λ h' q. if (h == h') && (pod_id == q) then true else c.caches h' q;
}
change c (prefix_evicted pod_id h) = record c {
  caches = λ h' q. if (h == h') && (pod_id == q) then false else c.caches h' q;
}
change c (pod_started pod_id) = record c { lives = λ q. if pod_id == q then true else c.lives q }
change c (pod_shutdown pod_id) = record c { lives = λ q. if pod_id == q then false else c.lives q }
change c (cleanup_pod pod_id) = record c {
  caches = λ h' q. if pod_id == q then false else c.caches h' q;
}

-- The pod ids of the events that add a pod fit in a bitmap.
abbrev pub Fits : CacheEvent → Type 0
Fits (prefix_cached pod_id h) = pod_id < 256
Fits (prefix_evicted pod_id h) = Unit {0}
Fits (pod_started pod_id) = pod_id < 256
Fits (pod_shutdown pod_id) = Unit {0}
Fits (cleanup_pod pod_id) = Unit {0}

abbrev pub AllFit : List CacheEvent → Type 0
AllFit [] = Unit {0}
AllFit (e ∷ es) = Fits e × AllFit es

abbrev pub apply_events : ShardedBlockIndexer → List CacheEvent → ShardedBlockIndexer
apply_events idx [] = idx
apply_events idx (e ∷ es) = apply_events (apply_event idx e) es

abbrev pub change_all : Contents → List CacheEvent → Contents
change_all c [] = c
change_all c (e ∷ es) = change_all (change c e) es

pub apply_event-IsIndex :
    (idx : ShardedBlockIndexer) (e : CacheEvent)
    → Fits e
    → IsIndex idx
    → IsIndex (apply_event idx e)
unfolding apply_event
apply_event-IsIndex idx (prefix_cached pod_id h) f v = register-IsIndex idx pod_id h f v
apply_event-IsIndex idx (prefix_evicted pod_id h) f v = evict-IsIndex idx pod_id h v
apply_event-IsIndex idx (pod_started pod_id) f v = mark_alive-IsIndex idx pod_id v
apply_event-IsIndex idx (pod_shutdown pod_id) f v = shutdown-IsIndex idx pod_id v
apply_event-IsIndex idx (cleanup_pod pod_id) f v = cleanup_dead_pod-IsIndex idx pod_id v

-- The set of live pods after an event.
lives-apply_event :
    (idx : ShardedBlockIndexer) (e : CacheEvent) (q : ℕ)
    → Fits e
    → Bitmap.contains (apply_event idx e).alive q ≡ (change (contents idx) e).lives q
unfolding apply_event register evict mark_alive shutdown observe_pod set_shard cleanup_dead_pod
lives-apply_event idx (prefix_cached pod_id h) q f = refl
lives-apply_event idx (prefix_evicted pod_id h) q f = refl
lives-apply_event idx (pod_started pod_id) q f = ground (arith, contains-set idx.alive pod_id q)
lives-apply_event idx (pod_shutdown pod_id) q f = contains-clear idx.alive pod_id q
lives-apply_event idx (cleanup_pod pod_id) q f = refl

-- The owners after an event.
caches-apply_event :
    (idx : ShardedBlockIndexer) (e : CacheEvent) (h' : BlockHash) (q : ℕ)
    → Fits e
    → IsIndex idx
    → owns (apply_event idx e) h' q ≡ (change (contents idx) e).caches h' q
unfolding apply_event
caches-apply_event idx (prefix_cached pod_id h) h' q f v =
    ground (arith, (register-owns idx pod_id h h' q v).0)
caches-apply_event idx (prefix_evicted pod_id h) h' q f v =
    ground (arith, evict-owns idx pod_id h h' q v)
caches-apply_event idx (pod_started pod_id) h' q f v =
    ap (λ b. Bitmap.contains b q) (liveness-owners idx pod_id h').0
caches-apply_event idx (pod_shutdown pod_id) h' q f v =
    ap (λ b. Bitmap.contains b q) (liveness-owners idx pod_id h').1
caches-apply_event idx (cleanup_pod pod_id) h' q f v =
    ground (arith, cleanup_dead_pod-owns idx pod_id h' q v)

contents-apply_event :
    (idx : ShardedBlockIndexer) (e : CacheEvent)
    → Fits e
    → IsIndex idx
    → contents (apply_event idx e) ≡ change (contents idx) e
contents-apply_event idx e f v = λ i. record {
  caches = λ h' q. caches-apply_event idx e h' q f v i;
  lives = λ q. lives-apply_event idx e q f i;
}

-- From a well-formed index, every sequence of events whose added pods have ids below 256 leads to
-- a well-formed index, and its owners and live pods are those that the same changes make to a set
-- of pairs of hash and pod and a set of pods.
pub contents-apply_events :
    (idx : ShardedBlockIndexer) (es : List CacheEvent)
    → AllFit es
    → IsIndex idx
    → IsIndex (apply_events idx es)
      × (contents (apply_events idx es) ≡ change_all (contents idx) es)
contents-apply_events idx [] f v = (v, refl)
contents-apply_events idx (e ∷ es) (f, fs) v =
    let (w, same) =
      contents-apply_events (apply_event idx e) es fs (apply_event-IsIndex idx e f v) in
    (w, same ∙ ap (λ c. change_all c es) (contents-apply_event idx e f v))
