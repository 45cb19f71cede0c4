-- ===== src/App/Endpoint/Learned.antt =====
-- What the router learns of an answer, and what this does to the requests that follow.
use calinix.App.{AppState}
use calinix.App.Applied.{index_of, with_index}
use calinix.App.Endpoint.{is_success, remember_session, learn, answer}
use calinix.Bitmap
use calinix.Hash.{Text, BlockHash}
use calinix.Http.{HeaderMaps}
use calinix.Index.{ShardedBlockIndexer}
use calinix.Index
use calinix.Prelude.Results.{Result, err, ok}
use calinix.Proxy.{UpstreamResponse, ForwardError}
use calinix.Registry.{
  CacheEvent, prefix_cached, pod_started, apply_event, register_chain, mark_pod_alive,
}
use calinix.Registry.Events.{apply_events}
use calinix.Routing.Dispatch.{RoutedRequest}
use calinix.Prelude.{ℕ, ◌≡◌, refl, ap, false, Option, List, [], ◌∷◌}

-- A prompt that the pod has served: the pod lives, and caches every prefix.
abbrev pub cached : ℕ → List BlockHash → List CacheEvent
cached pod_id [] = []
cached pod_id (h ∷ hashes) = prefix_cached pod_id h ∷ cached pod_id hashes

abbrev pub served : ℕ → List BlockHash → List CacheEvent
served pod_id hashes = pod_started pod_id ∷ cached pod_id hashes

register_chain-cached :
    (idx : ShardedBlockIndexer) (pod_id : ℕ) (hashes : List BlockHash)
    → (Index.register_chain idx pod_id hashes).0 ≡ apply_events idx (cached pod_id hashes)
unfolding Index.register_chain apply_event
register_chain-cached idx pod_id [] = refl
register_chain-cached idx pod_id (h ∷ hashes) =
    register_chain-cached (Index.register idx pod_id h).0 pod_id hashes

pub learn-served :
    (state : AppState) (pod_id : ℕ) (hashes : List BlockHash) (session_key : Option Text)
    → learn state pod_id hashes session_key
      ≡ record (with_index state (apply_events (index_of state) (served pod_id hashes))) {
        sticky = remember_session state.sticky session_key pod_id;
      }
unfolding learn register_chain mark_pod_alive apply_event
learn-served state pod_id hashes session_key =
    ap
      (λ idx. record (with_index state idx) {
        sticky = remember_session state.sticky session_key pod_id;
      })
      (register_chain-cached (Index.mark_alive (index_of state) pod_id) pod_id hashes)

-- An answer changes the state only if its status is a success: an error, or an answer with another
-- status, leaves the registry, the counters and the sessions alone.
pub answer_unsuccessful :
    {H V : Type 0} (hm : HeaderMaps H V) (state : AppState) (routed : RoutedRequest H)
    (result : Result ForwardError (UpstreamResponse H))
    → ((upstream : UpstreamResponse H) → result ≡ ok upstream → is_success upstream.status ≡ false)
    → (answer hm state routed result).0 ≡ state
unfolding answer
answer_unsuccessful hm state routed (err e) h = refl
answer_unsuccessful hm state routed (ok upstream) h = rw (h upstream refl) refl
