-- ===== src/Tests/Registries.antt =====
-- src/calinix/cache_registry/events.rs, cleanup.rs and mod.rs, and src/calinix/session/store.rs on
-- small inputs.
use calinix.Index.Invariant.{IsIndex}
use calinix.Registry.{CacheEvent, prefix_cached, pod_shutdown, cleanup_pod, CacheRegistry}
use calinix.Registry.Events.{contents, apply_events, change_all, contents-apply_events}
use calinix.Text.{same_text}
use calinix.Tests.Indexes.{small_index, small_index-IsIndex}
use calinix.Prelude.{◌≡◌, refl, false, List, [], ◌∷◌, arith}

abbrev three_events : List CacheEvent
three_events = prefix_cached 130 11 ∷ pod_shutdown 3 ∷ cleanup_pod 3 ∷ []

contents-apply_events_example :
    IsIndex (apply_events small_index three_events)
    × (contents (apply_events small_index three_events)
        ≡ change_all (contents small_index) three_events)
contents-apply_events_example =
    contents-apply_events small_index three_events (omega arith, (tt, (tt, tt))) small_index-IsIndex

abbrev small_registry : CacheRegistry
small_registry = record { block_index = small_index }

other_key : same_text (98 ∷ []) (97 ∷ []) ≡ false
unfolding same_text
other_key = refl
