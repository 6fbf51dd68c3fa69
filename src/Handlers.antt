-- ===== src/Handlers.antt =====
-- What the handlers under src/handlers share: the state of a run and its elementary steps.
-- A run reads the clock, sends requests and waits. `Env` gives the instant of each reading, the
-- answer to each request, and what the other tasks do to the shared state during each `.await` and,
-- on other threads, before each step of the run on that state.
use rust_llm_gateway_semanti.Prelude.{
  ℕ, suc, ◌+◌, ◌-◌, Bool, ◌&&◌, ◌||◌, not, Option, none, some, List, [], ◌∷◌, ◌++◌, Text, text,
  ◌==◌,
}
use rust_llm_gateway_semanti.Prelude.Maps.{insert}
use rust_llm_gateway_semanti.Prelude.Results.{Result, ok, err}
use rust_llm_gateway_semanti.Error.{AppError, internal}
use rust_llm_gateway_semanti.Services.{Services}
use rust_llm_gateway_semanti.Metrics.{Sample, record_request_latency}
use rust_llm_gateway_semanti.Breaker as Breaker
use rust_llm_gateway_semanti.Breaker.{CircuitBreaker}
use rust_llm_gateway_semanti.Bucket as Bucket
use rust_llm_gateway_semanti.Bucket.{RateLimitBuckets, TokenBucket, ReservationHandle, Reserved}
use rust_llm_gateway_semanti.State.{AppState, breaker_named, buckets_for}
use rust_llm_gateway_semanti.Selector.{SelectedProvider, select_ordered}
use rust_llm_gateway_semanti.Client.{OutboundRequest}
use rust_llm_gateway_semanti.Stream.{Arrivals, Output}

-- The answer to `req.send().await`: an error of the connection, or a status with what its body
-- gives to `bytes().await` (an error, or the bytes) and to `bytes_stream()`.
pub data Sent : Type 0 where
  no_answer : Sent
  answered : ℕ → Option Text → Arrivals → Sent

pub data Body : Type 0 where
  full : Text → Body
  streamed : List Output → Body

pub record Response : Type 0 where
  pub status : ℕ
  pub headers : List (Text × Text)
  pub body : Body

-- The shared state, the samples and the requests so far (the latest first), and how often the clock
-- was read and an `.await` was passed.
pub record World (Store : Type 0) : Type 0 where
  pub app : AppState Store
  pub samples : List Sample
  pub sent : List OutboundRequest
  pub tick : ℕ

pub record Env (Store : Type 0) : Type 0 where
  pub clock : ℕ → ℕ
  pub answer : ℕ → OutboundRequest → Sent
  pub during : ℕ → AppState Store → AppState Store

-- `is_retryable_upstream_status` and `is_non_retryable_client_error`, the same in both handlers.
module _ (services : Services) where
  unfoldable pub is_retryable_upstream_status : ℕ → Bool
  is_retryable_upstream_status status =
      services.is_server_error status || status == 429 || status == 408

  unfoldable pub is_non_retryable_client_error : ℕ → Bool
  is_non_retryable_client_error status =
      services.is_client_error status && not (status == 429) && not (status == 408)

-- The builder of a response with a body, whose last header is `x-provider`: the name may be no value of
-- a header.
module _ (services : Services) where
  open services use {header_value, header_error}

  abbrev pub header_failure : AppError
  header_failure = internal header_error

  unfoldable pub build_response : List (Text × Text) → Text → Text → Result Response AppError
  build_response headers name body = elim (header_value name) [
    | none ↦ err header_failure
    | some value ↦ ok (record {
      status = 200;
      headers = headers ++ (text "x-provider", value) ∷ [];
      body = full body;
    })
  ]

-- A step of a run.
abbrev pub M : Type 0 → Type 0 → Type 0
M Store A = World Store → World Store × A

infixl 5 ◌>>=◌ ◌>>◌
abbrev pub ◌>>=◌ : {Store A B : Type 0} → M Store A → (A → M Store B) → M Store B
◌>>=◌ m f w = let (w', a) = m w in f a w'

abbrev pub ◌>>◌ : {Store A B : Type 0} → M Store A → M Store B → M Store B
◌>>◌ m k w = let (w', _) = m w in k w'

abbrev pub return : {Store A : Type 0} → A → M Store A
return a w = (w, a)

abbrev pub emit : {Store : Type 0} → Sample → M Store Unit
emit s w = (record w { samples = s ∷ w.samples }, tt)

module _ {Store : Type 0} (env : Env Store) where
  -- The other tasks act.
  unfoldable pub others : World Store → World Store
  others w = record w { app = env.during w.tick w.app; tick = suc w.tick }

  -- A reading of the clock, after what the other tasks did. A step on the shared state that reads the
  -- clock does so under its lock.
  unfoldable pub now : M Store ℕ
  unfolding others
  now w = (others w, env.clock w.tick)

  -- `m::record_request_latency(request_start.elapsed())`
  unfoldable pub record_latency : ℕ → M Store Unit
  unfolding now
  record_latency request_start = do t ← now; emit (record_request_latency (t - request_start))

  unfoldable pub await : M Store Unit
  unfolding others
  await w = (others w, tt)

  unfoldable pub send : OutboundRequest → M Store Sent
  unfolding await
  send req w = let (w', _) = await (record w { sent = req ∷ w.sent }) in (w', env.answer w.tick req)

  abbrev with_breaker : Text → CircuitBreaker → World Store → World Store
  with_breaker name b w = record w {
    app = record w.app { circuit_breakers = insert name b w.app.circuit_breakers };
  }

  abbrev breaker_of : Text → World Store → CircuitBreaker
  breaker_of name w = breaker_named w.app.config.circuit_breaker w.app.circuit_breakers name

  unfoldable pub allow_request : Text → M Store Bool
  unfolding now
  allow_request name = do
    t ← now
    λ w.
        (let (b, allowed) = Breaker.allow_request (breaker_of name w) t in
          (with_breaker name b w, allowed))

  unfoldable pub record_success : Text → M Store Unit
  unfolding await
  record_success name = do
    await
    λ w. (with_breaker name (Breaker.record_success (breaker_of name w)) w, tt)

  unfoldable pub record_failure : Text → M Store Unit
  unfolding now
  record_failure name = do
    t ← now
    λ w. (with_breaker name (Breaker.record_failure (breaker_of name w) t) w, tt)

  -- `select_ordered`, whose `i`-th check reads the clock once more.
  unfoldable pub select : M Store (List SelectedProvider)
  unfolding await
  select = do
    await
    λ w.
        (let (app, selected) = select_ordered w.app (λ i. env.clock (w.tick + i)) in
          (record w { app = app; tick = suc w.tick }, selected))

  abbrev pub with_tpm : Text → (RateLimitBuckets → TokenBucket) → ℕ → World Store → World Store
  with_tpm client_id change t w =
      let (_, bs) = buckets_for w.app.config.rate_limit w.app.rate_limiter client_id t in
      record w {
        app = record w.app {
          rate_limiter = insert client_id (record bs { tpm = change bs }) w.app.rate_limiter;
        };
      }

  -- `get_rate_limit_buckets`, then `try_reserve_tpm`.
  unfoldable pub reserve : Text → ℕ → M Store Reserved
  unfolding now
  reserve client_id cost = do
    t ← now
    λ w.
        (let (buckets, bs) = buckets_for w.app.config.rate_limit w.app.rate_limiter client_id t in
          let (bs', r) = Bucket.try_reserve_tpm bs cost t in
          (record w { app = record w.app { rate_limiter = insert client_id bs' buckets } }, r))

  unfoldable pub reconcile : Text → ReservationHandle → ℕ → M Store Unit
  unfolding now
  reconcile client_id h actual = do
    t ← now
    λ w. (with_tpm client_id (λ bs. Bucket.reconcile bs.tpm h actual t) t w, tt)

  -- A handle that goes out of scope is dropped.
  unfoldable pub drop_left : Text → Option ReservationHandle → M Store Unit
  unfolding now
  drop_left client_id none = return tt
  drop_left client_id (some h) = do
    t ← now
    λ w. (with_tpm client_id (λ bs. Bucket.drop_handle bs.tpm h t) t w, tt)
