-- ===== src/Lib.antt =====
-- The verification library of the Rust LLM gateway: a model of src/ of the repository and the
-- theorems that hold of it.
--
-- The program is an HTTP gateway in front of several LLM providers. A request passes the tracing
-- (src/middleware/trace.rs), the authentication (src/middleware/auth.rs) and the rate limit
-- (src/middleware/rate_limit.rs) to a handler. The chat handler (src/handlers/chat.rs) reserves
-- tokens, looks in the exact cache (src/cache/exact.rs), selects providers whose circuit breaker is
-- eligible (src/router), and tries them in order until one answers; a streaming answer is passed
-- through (src/proxy/stream.rs) while its events are parsed (src/proxy/sse_parser.rs) for the usage
-- that is charged.
--
-- Files:
--   Prelude        bytes, texts, maps, results, floats, UTF-8 and decimal numbers
--   Services       what is third-party, as operations with their documented behaviour
--   Breaker        src/router/circuit_breaker.rs: CircuitBreaker
--   Selector       src/router/selector.rs: ProviderSelector::select_ordered
--   Bucket         src/middleware/rate_limit.rs: TokenBucket, RateLimitBuckets, ReservationHandle
--   Config         src/config.rs: AppConfig, its defaults, load, validate, providers_sorted
--   State          src/state.rs: AppState::new, breaker_for, and get_rate_limit_buckets
--   Error          src/error.rs: AppError and its response
--   ExactCache     src/cache/exact.rs; SemanticCache is src/cache/semantic.rs
--   Sse, Stream    src/proxy/sse_parser.rs and proxy_stream_passthrough of src/proxy/stream.rs
--   Client         src/proxy/client.rs: the requests to a provider
--   Auth           src/middleware/auth.rs: extract_api_key, auth_middleware
--   Types          src/types.rs
--   Metrics        src/telemetry/metrics.rs: names, descriptions and recording helpers
--   Handlers       the run that the handlers share: state, clock, requests, samples
--   Admission      rate_limit_middleware, auth_middleware and their nesting in build_router of src/lib.rs
--   Failover       the loop over the candidates that both handlers have; Failover/Rule takes a property
--                  of a run through it
--   Attempts       src/handlers/chat.rs: the body of its failover loop
--   Chat           src/handlers/chat.rs: chat_completions around the loop
--   Embeddings     src/handlers/embeddings.rs: embeddings
--   Gateway        build_router of src/lib.rs, src/middleware/trace.rs, src/handlers/health.rs and
--                  src/handlers/metrics.rs: the whole gateway, from a request to its response
--   Runs           what every run of the gateway keeps: the atomic steps of the shared state as a
--                  relation, the invariant and the diagram of the reachable states, and what a run
--                  leaves of a breaker that it does not use
--   Suite          the unit tests that stand in the files of src/, run on the model
--   Tests          the theorems at concrete inputs
--
-- State is explicit: an operation takes the state and the instant of its clock reading and returns the
-- new state with its answer. What a mutex or a map entry locks is one step. A run of a handler
-- takes an environment that gives each clock reading, the answer to each request, and what the other
-- tasks do to the shared state at each await and, on other threads, before each step of the run on that
-- state, so interleavings are the choice of the environment. A string is the list of its UTF-8 bytes.
-- Machine integers wrap or saturate where the source does. The amounts of a token bucket are exact: a token is 60_000_000_000 units, so that a rate
-- in tokens a minute adds a whole number of units each nanosecond; the rounding of f64 is not
-- modelled. A float is exact, its comparisons are those of IEEE 754, and the arithmetic of the cosine
-- similarity is a parameter. The loop of the event parser runs on fuel, the length of the buffer: a
-- round takes two bytes at least, and the theorems of Sse/Framing show that it runs to its end.
--
-- Not modelled: the start of the process, the HTTP server and its shutdown, spans and log lines, the
-- sources of the configuration, and the recorder of the metrics. SHA-256, JSON, the store of the exact
-- cache and the classes of a status are operations of Services; what axum, tower-http and uuid do for
-- the stack is a parameter, Web of Gateway. The lookup of a client's buckets is one step with
-- what is taken from them, and the checks of a selection are one step, so no other task runs between
-- these; that a breaker and buckets may be made apart is in the relation of Runs/Steps. A client that
-- goes away in the middle of a run, which cancels it, is not a step of a run. The body of a streaming
-- answer is read to its end inside its route; the program reads it after `trace_middleware` has read
-- the clock and recorded the latency, so what is proved of that sample is for full bodies only.
pub mod Prelude
pub mod Breaker
pub mod Bucket
pub mod Config
pub mod Services
pub mod Sse
pub mod Error
pub mod Metrics
pub mod Client
pub mod Auth
pub mod State
pub mod Selector
pub mod Stream
pub mod Types
pub mod Handlers
pub mod Admission
pub mod Failover
pub mod Gateway
pub mod Runs
pub mod Attempts
pub mod Chat
pub mod Embeddings
pub mod ExactCache
pub mod SemanticCache
mod Suite
mod Tests
