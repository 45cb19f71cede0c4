-- ===== src/Lib.antt =====
-- Calinix routes a prompt to a pod that caches the longest prefix of it. A prompt is cut into
-- blocks of tokens, each block is hashed, and the hashes are chained, so that equal prefixes have
-- equal hashes. A sharded index says which pods cache which hash, in a bitmap of pod ids for each
-- hash. A query searches the index for all candidate pods at once and gives the depth of the prefix
-- that each caches. The router reads a request, filters the pods that may serve it, scores them by
-- their depths, loads and sessions, and plans one pod, or one for prefill and one for decode. The
-- proxy sends the request to the pod of the plan with headers that announce it, and the application
-- learns from a successful answer: the pod is alive, caches the prompt and keeps the session. Around
-- these stand the events by which pods report their caches, the configuration and the table of pods
-- built from it, the counters of running requests, and the health poller.
--
-- Word, Bitmap: src/calinix/cache_registry/host_bitmap.rs. A u64 is a number below 2 ^ 64, with the
--   native bit operations; HostBitmap has its four words as fields, and a method that changes the
--   bitmap returns the new one.
-- Hash: src/calinix/cache_registry/block_hash.rs, cumulative_hash.rs and fibonacci.rs, and the hashing
--   of the prototype in src/base/hash.rs and src/base/indexer.rs. A string is a list of code points
--   and is encoded in UTF-8. `chunks` has a round for each element, which is enough since it drops at
--   least one in each; make_synthetic_chain, which serves benchmarks, is left out.
-- Index: src/calinix/cache_registry/sharded_index.rs. A shard is an association list. Every operation
--   holds the lock of one shard or of the alive set at a time, so an operation is one step on the
--   state; the operations on all shards are steps too, and other threads' steps between the shards
--   are not modelled. The compare-and-swap loop of `observe_pod` takes the values that its failed
--   attempts read as a list. Overflow of usize counters is not modelled.
-- Query: src/calinix/cache_registry/prefix_query.rs. The array of the search stack is a function from
--   slots to frames, undefined where nothing was written. The loops run on fuel, twice the number of
--   hashes and two more, since each round ends a frame or splits its range. `none` is undefined
--   behaviour, a panic or the end of the fuel. Query.Best is the search for the best pod,
--   Query.Debug the variant that counts.
-- Registry: src/calinix/cache_registry/mod.rs, types.rs, alive.rs, cleanup.rs, events.rs, snapshot.rs.
-- Config: src/calinix/config/schema.rs and validation.rs, after the decoding of the file; the error
--   messages are constructors.
-- Upstream: src/calinix/upstream/roles.rs, pool.rs and pod.rs; Upstream.Load is load.rs without the
--   floating-point score, Upstream.Health and Upstream.Urls are health.rs without its timers and
--   HTTP requests. A hash map is the list of the pairs that were inserted, the last in front.
-- Session: src/calinix/session/store.rs. A poisoned lock is not modelled.
-- Http: the header maps of the http crate, as an interface with the documented laws that the results
--   use. Tests.Headers shows that lists of entries obey them.
-- Protocol: src/calinix/protocol/routing_headers.rs; a function on `&mut HeaderMap` returns the map,
--   also where it fails. Protocol.OpenAi is openai.rs, with the JSON parser as a parameter.
-- Routing: src/calinix/routing/filter.rs and plan.rs, whose headers are in Routing.Headers.
--   Routing.Score is score.rs with `LoadState::score`, over an interface of f64 operations: the
--   results use only that `total_cmp` is an order. Routing.Pipeline has the plans of pipeline.rs,
--   Routing.Prepare is prepare.rs, with the clock and the counter of ids as numbers, and
--   Routing.Dispatch is route_openai_request. Routing.Pick is pick.rs, with the picks of score.rs that
--   take no plan.
-- Proxy: src/calinix/proxy/forward.rs. The URI parser and the HTTP client are parameters, the client as
--   a function from a request to what comes of it, the end of the time included; so is what other
--   tasks do to the counters while a request runs, which Upstream.Load.Others makes a list of
--   tracked requests and dropped guards. Error messages are constructors.
-- App: src/calinix/app/state.rs and the event handlers of bootstrap.rs; App.Endpoint is the middleware
--   and the endpoint of the proxied requests. What other tasks do to the registry and the sessions
--   while a request is forwarded is not modelled: the answer is learned in the state that the request
--   met. Logging is left out.
-- Base: the prototype. Base.Indexer is src/base/indexer.rs and the full bitmap of bitmap.rs; the other
--   operations of its bitmap are those of Bitmap. Base.Search is the query of indexer.rs, on a stack
--   without the fixed array, with the same fuel, and Base.Search.Debug the variant that counts.
--   Base.Router has the stages of src/base/main.rs, Base.Naive the linear scan of
--   src/base/bench_part2.rs.
-- Text: the string methods of the standard library that these files call, and numerals.
-- Prelude: Boolean tests, lists indexed by native numbers, and results.
-- Tests: runs on small inputs, and an example of each result that has conditions.
--
-- Not modelled: the application's start-up and the routes of its web framework, the arguments, mock
-- execution and output of the prototype's program, the other benchmarks, and files that are empty.
pub mod Prelude
pub mod Word
pub mod Bitmap
pub mod Text
pub mod Http
pub mod Hash
pub mod Index
pub mod Query
pub mod Registry
pub mod Upstream
pub mod Session
pub mod Protocol
pub mod Routing
pub mod Proxy
pub mod App
pub mod Config
pub mod Base
pub mod Tests
