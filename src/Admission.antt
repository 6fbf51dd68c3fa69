-- ===== src/Admission.antt =====
-- rate_limit_middleware of src/middleware/rate_limit.rs, and how build_router of src/lib.rs puts
-- auth_middleware around it and both around a handler.
pub mod Rates
pub mod Gate
pub mod Newcomers
use rust_llm_gateway_semanti.Prelude.{ℕ, Option, none, some, Text, text}
use rust_llm_gateway_semanti.Prelude.Maps.{Map, insert}
use rust_llm_gateway_semanti.Prelude.Results.{Result, ok, err}
use rust_llm_gateway_semanti.Services.{Services}
use rust_llm_gateway_semanti.Metrics.{record_error}
use rust_llm_gateway_semanti.Error.{AppError, rate_limited, unauthorized}
use rust_llm_gateway_semanti.Config.{RateLimitConfig}
use rust_llm_gateway_semanti.Bucket as Bucket
use rust_llm_gateway_semanti.Bucket.{RateLimitBuckets, Consumed, try_consume, token}
use rust_llm_gateway_semanti.State.{ClientIdentity, buckets_for}
use rust_llm_gateway_semanti.Auth.{authenticate}
use rust_llm_gateway_semanti.Handlers.{Env, Response, M, return, emit, now, ◌>>=◌, ◌>>◌}

-- The buckets of a client are looked up or made, and one request is taken from the first.
unfoldable pub charge_rpm :
    RateLimitConfig → Map RateLimitBuckets → Text → ℕ → Map RateLimitBuckets × Consumed
charge_rpm cfg buckets client_id now =
    let (buckets', bs) = buckets_for cfg buckets client_id now in
    let (b, r) = try_consume bs.rpm token now in
    (insert client_id (record bs { rpm = b }) buckets', r)

abbrev pub Handler : Type 0 → Type 0
Handler Store = M Store (Result Response AppError)

module _ {Store : Type 0} (env : Env Store) where
  unfoldable pub take_rpm : Text → M Store Consumed
  unfolding now
  take_rpm client_id = do
    t ← now env
    λ w.
        (let (buckets, r) = charge_rpm w.app.config.rate_limit w.app.rate_limiter client_id t in
          (record w { app = record w.app { rate_limiter = buckets } }, r))

  unfoldable pub after_charge : Consumed → Handler Store → Handler Store
  after_charge Bucket.ok next = next
  after_charge (Bucket.err retry_after) next = do
    emit (record_error (text "rate_limit") (text "rpm_exceeded"))
    return (err (rate_limited retry_after))

  -- The first argument is the request's extension.
  unfoldable pub rate_limit_middleware : Option ClientIdentity → Handler Store → Handler Store
  rate_limit_middleware none next = return (err unauthorized)
  rate_limit_middleware (some identity) next = do
    charged ← take_rpm identity.client_id
    after_charge charged next

module _ (services : Services) where
  open services use {Store}

  -- What follows `authenticate` in `auth_middleware`.
  unfoldable pub with_identity :
      Result ClientIdentity AppError → (ClientIdentity → Handler Store) → Handler Store
  with_identity (err e) next = return (err e)
  with_identity (ok identity) next = next identity

  unfoldable pub auth_middleware : Option Text → (ClientIdentity → Handler Store) → Handler Store
  auth_middleware authorization next w =
      with_identity (authenticate services w.app authorization) next w

  -- A route under `/v1`.
  unfoldable pub api_route :
      Env Store → Option Text → (ClientIdentity → Handler Store) → Handler Store
  unfolding auth_middleware
  api_route env authorization handler =
      auth_middleware authorization
        (λ identity. rate_limit_middleware env (some identity) (handler identity))
