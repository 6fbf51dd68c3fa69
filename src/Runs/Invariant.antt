-- ===== src/Runs/Invariant.antt =====
-- The invariant of the shared state over the requests that are served.
use rust_llm_gateway_semanti.Prelude.{ℕ, ◌<◌, ◌^◌, refl, sym, subst, Text}
use rust_llm_gateway_semanti.Prelude.Maps.{Map, get, insert}
use rust_llm_gateway_semanti.Services.{Services}
use rust_llm_gateway_semanti.Config.{AppConfig}
use rust_llm_gateway_semanti.Breaker as Breaker
use rust_llm_gateway_semanti.Breaker.{CircuitBreaker}
use rust_llm_gateway_semanti.Bucket as Bucket
use rust_llm_gateway_semanti.Bucket.{TokenBucket, RateLimitBuckets, ReservationHandle}
use rust_llm_gateway_semanti.Bucket.Reservation.{try_reserve_tpm_buckets}
use rust_llm_gateway_semanti.State as State
use rust_llm_gateway_semanti.State.{AppState, breaker_for, breaker_named, buckets_for}
use rust_llm_gateway_semanti.State.Invariant.{
  Each, insert-Each, IsOurs, allow_request-IsOurs, record_success-IsOurs, record_failure-IsOurs,
  IsRated, try_consume-IsRated, drop_handle-IsRated, reconcile-IsRated, IsFitting, IsSound,
  named-IsOurs, with_breaker-IsSound, buckets-IsFitting, with_buckets-IsSound,
}
use rust_llm_gateway_semanti.Admission.{charge_rpm}
use rust_llm_gateway_semanti.Runs.Steps.{
  Step, allowed, succeeded, failed, made, opened, charged, reserved, reconciled, dropped, stored,
  Steps, unchanged, next,
}

module _ {Store : Type 0} (start app : AppState Store) (sound : IsSound start app) where
  changed-IsSound :
      (name : Text) (change : CircuitBreaker → CircuitBreaker)
      → ((b : CircuitBreaker)
          → IsOurs app.config.circuit_breaker b
          → IsOurs app.config.circuit_breaker (change b))
      → let b = breaker_named app.config.circuit_breaker app.circuit_breakers name in
        IsSound start
          (record app { circuit_breakers = insert name (change b) app.circuit_breakers })
  changed-IsSound name change keeps = with_breaker-IsSound start app sound name _ (
      keeps _ (
        named-IsOurs app.config.circuit_breaker app.circuit_breakers name sound.threshold_word
          sound.probes_word sound.breakers))

  -- Other buckets for one client.
  refilled-IsSound :
      (id : Text) (t : ℕ) (bs : RateLimitBuckets) (m : Map RateLimitBuckets)
      → IsFitting app.config.rate_limit bs
      → Each (IsFitting app.config.rate_limit) m
      → IsSound start (record app { rate_limiter = insert id bs m })
  refilled-IsSound id t bs m fits each =
      with_buckets-IsSound start app sound (insert id bs m)
        (insert-Each (IsFitting app.config.rate_limit) id bs m fits each)

  tpm-IsSound :
      (id : Text) (t : ℕ) (change : TokenBucket → TokenBucket)
      → ((b : TokenBucket)
          → IsRated app.config.rate_limit.default_tpm b
          → IsRated app.config.rate_limit.default_tpm (change b))
      → let bs = (buckets_for app.config.rate_limit app.rate_limiter id t).1 in
        IsSound start (record app {
          rate_limiter = insert id (record bs { tpm = change bs.tpm }) app.rate_limiter;
        })
  tpm-IsSound id t change keeps =
      let fits = buckets-IsFitting start app sound id t in
      refilled-IsSound id t _ app.rate_limiter (record { rpm = fits.rpm; tpm = keeps _ fits.tpm })
        sound.buckets

  -- The map with the buckets of a client in it.
  found-Each :
      (id : Text) (t : ℕ)
      → Each
          (IsFitting app.config.rate_limit)
          (buckets_for app.config.rate_limit app.rate_limiter id t).0
  unfolding buckets_for
  found-Each id t =
      insert-Each (IsFitting app.config.rate_limit) id _ app.rate_limiter
        (buckets-IsFitting start app sound id t) sound.buckets

  rpm-IsSound :
      (id : Text) (t : ℕ)
      → IsSound start
          (record app { rate_limiter = (charge_rpm app.config.rate_limit app.rate_limiter id t).0 })
  unfolding charge_rpm
  rpm-IsSound id t =
      let fits = buckets-IsFitting start app sound id t in
      refilled-IsSound id t _ _
        (record {
          rpm = try_consume-IsRated app.config.rate_limit.default_rpm _ _ t fits.rpm;
          tpm = fits.tpm;
        })
        (found-Each id t)

  reserved-IsSound :
      (id : Text) (cost t : ℕ)
      → let (m, bs) = buckets_for app.config.rate_limit app.rate_limiter id t in
        IsSound start
          (record app { rate_limiter = insert id (Bucket.try_reserve_tpm bs cost t).0 m })
  reserved-IsSound id cost t =
      let bs = (buckets_for app.config.rate_limit app.rate_limiter id t).1 in
      let fits = buckets-IsFitting start app sound id t in
      refilled-IsSound id t _ _
        (subst (IsFitting app.config.rate_limit) (sym (try_reserve_tpm_buckets bs cost t)) (record {
          rpm = fits.rpm;
          tpm = try_consume-IsRated app.config.rate_limit.default_tpm bs.tpm cost t fits.tpm;
        }))
        (found-Each id t)

stored-IsSound :
    {Store : Type 0} (start app : AppState Store) (store : Store)
    → IsSound start app
    → IsSound start (record app { exact_cache = store })
stored-IsSound start app store sound = record {
  config = sound.config;
  providers = sound.providers;
  credentials = sound.credentials;
  threshold_word = sound.threshold_word;
  probes_word = sound.probes_word;
  breakers = sound.breakers;
  buckets = sound.buckets;
}

module _ (services : Services) where
  open services use {Store}

  step-IsSound :
      (start : AppState Store) {app app' : AppState Store}
      → Step services app app'
      → IsSound start app
      → IsSound start app'
  step-IsSound start (allowed app name t) sound =
      changed-IsSound start app sound name (λ b. (Breaker.allow_request b t).0)
        (λ b ours. allow_request-IsOurs app.config.circuit_breaker b t ours)
  step-IsSound start (succeeded app name) sound =
      changed-IsSound start app sound name Breaker.record_success
        (record_success-IsOurs app.config.circuit_breaker)
  step-IsSound start (failed app name t) sound =
      changed-IsSound start app sound name (λ b. Breaker.record_failure b t)
        (λ b ours. record_failure-IsOurs app.config.circuit_breaker b t ours)
  step-IsSound start (made app name) sound =
      changed-IsSound start app sound name (λ b. b) (λ b ours. ours)
  step-IsSound start (opened app id t) sound =
      with_buckets-IsSound start app sound _ (found-Each start app sound id t)
  step-IsSound start (charged app id t) sound = rpm-IsSound start app sound id t
  step-IsSound start (reserved app id cost t) sound = reserved-IsSound start app sound id cost t
  step-IsSound start (reconciled app id h actual t) sound =
      tpm-IsSound start app sound id t (λ b. Bucket.reconcile b h actual t)
        (λ b r. reconcile-IsRated app.config.rate_limit.default_tpm b h actual t r)
  step-IsSound start (dropped app id h t) sound =
      tpm-IsSound start app sound id t (λ b. Bucket.drop_handle b h t)
        (λ b r. drop_handle-IsRated app.config.rate_limit.default_tpm b h t r)
  step-IsSound start (stored app key value t) sound = stored-IsSound start app _ sound

  Steps-IsSound :
      (start : AppState Store) {app app' : AppState Store}
      → Steps services app app'
      → IsSound start app
      → IsSound start app'
  Steps-IsSound start unchanged sound = sound
  Steps-IsSound start (next s step) sound = step-IsSound start step (Steps-IsSound start s sound)

  new-IsSound :
      (config : AppConfig) (empty_store : Store)
      → config.circuit_breaker.failure_threshold < 2 ^ 32
      → config.circuit_breaker.half_open_max_calls < 2 ^ 32
      → IsSound (State.new services config empty_store) (State.new services config empty_store)
  unfolding State.new get
  new-IsSound config empty_store threshold_word probes_word = record {
    config = refl;
    providers = refl;
    credentials = refl;
    threshold_word = threshold_word;
    probes_word = probes_word;
    breakers = λ k v found. cc found;
    buckets = λ k v found. cc found;
  }

  -- Whatever atomic steps follow on the start with thresholds below 2 ^ 32, configuration,
  -- providers and credentials are those of the start, each breaker is valid with the configured
  -- threshold, cooldown and probes, and both buckets of each client hold at most their capacity,
  -- which is a minute of the configured rate.
  pub always-IsSound :
      (config : AppConfig) (empty_store : Store) (app : AppState Store)
      → config.circuit_breaker.failure_threshold < 2 ^ 32
      → config.circuit_breaker.half_open_max_calls < 2 ^ 32
      → Steps services (State.new services config empty_store) app
      → IsSound (State.new services config empty_store) app
  always-IsSound config empty_store app threshold_word probes_word steps =
      Steps-IsSound (State.new services config empty_store) steps
        (new-IsSound config empty_store threshold_word probes_word)
