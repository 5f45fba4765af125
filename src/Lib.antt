-- ===== src/Lib.antt =====
-- pushward-integrations: bridges and a relay that turn the events of other services into activities
-- on a phone.
--
-- The bridges poll a service or listen to it; the relay receives webhooks for many tenants. All send
-- their updates through one client, behind circuit breakers. The files here model the shared logic:
--
-- - Prelude: the names that all files share, lists and Boolean tests on native numbers, Go's `map` as an
--   association list (Prelude/GoMap), `time` as nanoseconds since Go's zero time (Prelude/Clock),
--   signed integers (Prelude/Int), and float64 as an interface without laws (Prelude/Float).
-- - Breaker: shared/pushward/breaker.go, the breaker of one upstream. Each method is a function of the
--   state and, where it reads the clock, of the time.
-- - TenantBreaker: relay/internal/client/breaker.go, the breaker of the one server behind the breakers
--   of the tenants. The tenants' breakers share the server breaker: their methods pass it along.
-- - Syncx: shared/syncx/dropcounter.go and shared/syncx/timergroup.go.
-- - LruMap: relay/internal/lrumap/lrumap.go, the bounded map. A range loop over a Go map takes the
--   entries in an order that is an argument, and the theorems hold for every order.
-- - MemoryStore: relay/internal/state/memory.go, the store of the relay's sequences.
-- - Ender: relay/internal/lifecycle/ender.go, the two-phase end of an activity. A critical section is a
--   step, as are the firing of a timer and the sending of an update; a run is any sequence of steps.
-- - Ci: shared/ci, the steps of a CI run (Ci/Steps: steps.go, Ci/Names: the names of jobs and steps), the
--   busy times and weights (Ci/Busy, Ci/Weights: weights.go) and the live window (Ci/Anchor: anchor.go).
-- - Cipoll: shared/cipoll, the seed cache (Cipoll/Cache: cache.go), the closed attempt (Cipoll/Ended:
--   state.go), discovery and pacing (Cipoll/Pacing: poller.go), what is sent for a run and what is relied
--   on of the server's merge (Cipoll/Card: also shared/pushward/types.go), the tracked run and its tick
--   (Cipoll/Track, Cipoll/Track/Tick: `pollActive`), and the detection and the seed of a run
--   (Cipoll/Detect: `pollIdle`, `baselineShape`). The cache stores the steps and weights of Ci, and the
--   ticks compute with them. Cipoll/Track has a theorem module for each of the shape (Shape), the ladder
--   on the server's card (Consistent) and the live window on it (Animates), Cipoll/Detect for the pick
--   (Pick) and the seed (Seed).
-- - Client: shared/pushward/client.go, one call with its retries, behind the breaker of Breaker. The
--   server, the network, the context, the clock and the random numbers are a `World`. Client/Delay has the
--   throttle's wait, Client/Errors the problem bodies and typed errors, Client/Paging the paged listing;
--   Client/Rounds is the rule for invariants of the loop, and Client/Settles, Client/Sleeps and
--   Client/Faults use it; Client/Verdicts and Client/Answers are about the answer that ends a call.
-- - Widgets: shared/widgets/manager.go, the preparation of a spec (Widgets, Widgets/Ready), the loops of a
--   scalar widget (Widgets/Scalar), of a stat_list (Widgets/StatList) and of a multi-source spec
--   (Widgets/Multi), each tick a function of the loop's variables and of what the tick is told.
-- - Bambulab: bambulab/internal/bambulab, the printer's state merged from partial reports, and
--   Bambulab/Tracker: bambulab/internal/tracker/tracker.go, with a theorem module for its ticks (Ticks) and
--   one for its sessions (Sessions).
-- - ClientIp: relay/internal/ratelimit/ip.go, the address that a request is counted under
--   (ClientIp/Spoofing: what a client can choose of it).
-- - Text: shared/text/slug.go and shared/text/truncate.go, over lists of runes.
-- - Tests: the theorems at concrete inputs.
--
-- Every loop is structural recursion, over a list or over a number, so no model has fuel but the
-- source's own limits: five attempts of a call, forty pages of a listing. Numbers are
-- natural numbers: counters and indices of the source that never go below 0, and times and durations in
-- nanoseconds; numbers that the source lets go below 0, as the limits of a widget's spec, are signed. The
-- wrap of a uint64 and of a sum of durations is written out where it is reached, and `Time.Sub` saturates. What is not under the repository is a parameter: the hash and the lower case of
-- a slug, the answers of the forge, of the state store and of the server, and float64.
--
-- Not modelled: HTTP, SQL and MQTT traffic and the handlers and adapters around them, configuration,
-- metrics, logging, template rendering, and the goroutines and tickers that drive the loops: a loop's tick
-- is a function, and the end timers of a run are the timer group of Syncx.
pub mod Prelude
pub mod Breaker
pub mod TenantBreaker
pub mod Client
pub mod Widgets
pub mod Bambulab
pub mod ClientIp
pub mod Syncx
pub mod LruMap
pub mod MemoryStore
pub mod Ender
pub mod Ci
pub mod Cipoll
pub mod Text
pub mod Tests
