-- ===== src/State/Invariant.antt =====
-- What holds of the shared state at all times, and that each change of a breaker or a bucket keeps it.
use rust_llm_gateway_semanti.Prelude.{
  ℕ, ◌*◌, ◌<◌, ◌≤◌, ◌^◌, ◌≡◌, refl, sym, subst, ◌∙◌, max, ltb, ◌-◌, arith, Bool-cases, Option-cases,
  inl, inr, some, Text, text_eq,
}
use rust_llm_gateway_semanti.Prelude.Maps.{Map, get, insert, get_or, get-insert}
use rust_llm_gateway_semanti.Config.{CircuitBreakerConfig, RateLimitConfig}
use rust_llm_gateway_semanti.Breaker as Breaker
use rust_llm_gateway_semanti.Breaker.{CircuitBreaker}
use rust_llm_gateway_semanti.Breaker.Invariant.{
  IsValid, new-IsValid, allow_request-IsValid, record_success-IsValid, record_failure-IsValid,
}
use rust_llm_gateway_semanti.Bucket as Bucket
use rust_llm_gateway_semanti.Bucket.{TokenBucket, RateLimitBuckets, ReservationHandle, token}
use rust_llm_gateway_semanti.State.{AppState, second, new_breaker, breaker_named, buckets_for}

module _ {V : Type 0} (Q : V → Type 0) where
  -- Every value of the map is as `Q` says.
  abbrev pub Each : Map V → Type 0
  Each m = (k : Text) (v : V) → get k m ≡ some v → Q v

  pub insert-Each : (k : Text) (v : V) (m : Map V) → Q v → Each m → Each (insert k v m)
  insert-Each k v m q each j w found = elim (Bool-cases (text_eq k j)) [
    | inl same ↦
        let here : some v ≡ some w = rw same at (sym (get-insert k j v m) ∙ found) in
        subst Q (cc here) q
    | inr other ↦ each j w (rw other at (sym (get-insert k j v m) ∙ found))
  ]

  pub get_or-Each : (k : Text) (d : V) (m : Map V) → Q d → Each m → Q (get_or d (get k m))
  get_or-Each k d m q each = elim (Option-cases (get k m)) [
    | inl nothing ↦ rw nothing q
    | inr (v, found) ↦ rw found (each k v found)
  ]

-- A breaker of this configuration.
pub record IsOurs (cfg : CircuitBreakerConfig) (b : CircuitBreaker) : Type 0 where
  pub valid : IsValid b
  pub threshold : b.failure_threshold ≡ cfg.failure_threshold
  pub cooldown : b.cooldown ≡ cfg.cooldown_seconds * second
  pub probes : b.half_open_max_calls ≡ max cfg.half_open_max_calls 1

pub allow_request-IsOurs :
    (cfg : CircuitBreakerConfig) (b : CircuitBreaker) (now : ℕ)
    → IsOurs cfg b
    → IsOurs cfg (Breaker.allow_request b now).0
unfolding Breaker.allow_request
allow_request-IsOurs cfg b now ours = record {
  valid = allow_request-IsValid b now ours.valid;
  threshold = ground (arith, ours.threshold);
  cooldown = ground (arith, ours.cooldown);
  probes = ground (arith, ours.probes);
}

pub record_success-IsOurs :
    (cfg : CircuitBreakerConfig) (b : CircuitBreaker)
    → IsOurs cfg b
    → IsOurs cfg (Breaker.record_success b)
unfolding Breaker.record_success
record_success-IsOurs cfg b ours = record {
  valid = record_success-IsValid b ours.valid;
  threshold = ground (arith, ours.threshold);
  cooldown = ground (arith, ours.cooldown);
  probes = ground (arith, ours.probes);
}

pub record_failure-IsOurs :
    (cfg : CircuitBreakerConfig) (b : CircuitBreaker) (now : ℕ)
    → IsOurs cfg b
    → IsOurs cfg (Breaker.record_failure b now)
unfolding Breaker.record_failure
record_failure-IsOurs cfg b now ours = record {
  valid = record_failure-IsValid b now ours.valid;
  threshold = ground (arith, ours.threshold);
  cooldown = ground (arith, ours.cooldown);
  probes = ground (arith, ours.probes);
}

-- A bucket of so many whole tokens a minute.
pub record IsRated (rate : ℕ) (b : TokenBucket) : Type 0 where
  pub bounded : b.tokens ≤ b.capacity
  pub capacity : b.capacity ≡ rate * token
  pub rated : b.refill_rate ≡ rate

pub new-IsRated : (rate now : ℕ) → IsRated rate (Bucket.new (rate * token) rate now)
unfolding Bucket.new
new-IsRated rate now = record { bounded = omega arith; capacity = omega arith; rated = omega arith }

pub try_consume-IsRated :
    (rate : ℕ) (b : TokenBucket) (cost now : ℕ)
    → IsRated rate b
    → IsRated rate (Bucket.try_consume b cost now).0
unfolding Bucket.try_consume Bucket.refill Bucket.retry_after
try_consume-IsRated rate b cost now r = record {
  bounded = ground (arith, r.bounded);
  capacity = ground (arith, r.capacity);
  rated = ground (arith, r.rated);
}

pub refund-IsRated :
    (rate : ℕ) (b : TokenBucket) (n now : ℕ) → IsRated rate b → IsRated rate (Bucket.refund b n now)
unfolding Bucket.refund Bucket.refill
refund-IsRated rate b n now r = record {
  bounded = ground (arith, r.bounded);
  capacity = ground (arith, r.capacity);
  rated = ground (arith, r.rated);
}

pub drop_handle-IsRated :
    (rate : ℕ) (b : TokenBucket) (h : ReservationHandle) (now : ℕ)
    → IsRated rate b
    → IsRated rate (Bucket.drop_handle b h now)
unfolding Bucket.drop_handle
drop_handle-IsRated rate b h now r = elim (Bool-cases h.reconciled) [
  | inl spent ↦ rw spent r
  | inr held ↦ rw held (refund-IsRated rate b h.reserved now r)
]

pub reconcile-IsRated :
    (rate : ℕ) (b : TokenBucket) (h : ReservationHandle) (actual now : ℕ)
    → IsRated rate b
    → IsRated rate (Bucket.reconcile b h actual now)
unfolding Bucket.reconcile Bucket.drop_handle
reconcile-IsRated rate b h actual now r = elim (Bool-cases (ltb actual h.reserved)) [
  | inl less ↦ rw less (refund-IsRated rate b (h.reserved - actual) now r)
  | inr no_less ↦ elim (Bool-cases (ltb h.reserved actual)) [
    | inl greater ↦ rw (no_less, greater) (try_consume-IsRated rate b (actual - h.reserved) now r)
    | inr same ↦ rw (no_less, same) r
  ]
]

pub record IsFitting (cfg : RateLimitConfig) (bs : RateLimitBuckets) : Type 0 where
  pub rpm : IsRated cfg.default_rpm bs.rpm
  pub tpm : IsRated cfg.default_tpm bs.tpm

-- The state, as it was made from its configuration and whatever was served since.
pub record IsSound {Store : Type 0} (start app : AppState Store) : Type 0 where
  pub config : app.config ≡ start.config
  pub providers : app.sorted_providers ≡ start.sorted_providers
  pub credentials : app.credentials ≡ start.credentials
  pub threshold_word : app.config.circuit_breaker.failure_threshold < 2 ^ 32
  pub probes_word : app.config.circuit_breaker.half_open_max_calls < 2 ^ 32
  pub breakers : Each (IsOurs app.config.circuit_breaker) app.circuit_breakers
  pub buckets : Each (IsFitting app.config.rate_limit) app.rate_limiter

-- The breaker under a name, made now or before.
pub named-IsOurs :
    (cfg : CircuitBreakerConfig) (m : Map CircuitBreaker) (name : Text)
    → cfg.failure_threshold < 2 ^ 32
    → cfg.half_open_max_calls < 2 ^ 32
    → Each (IsOurs cfg) m
    → IsOurs cfg (breaker_named cfg m name)
unfolding new_breaker Breaker.new
named-IsOurs cfg m name threshold_word probes_word each =
    get_or-Each (IsOurs cfg) name (new_breaker cfg) m
      (record {
        valid =
            new-IsValid cfg.failure_threshold (cfg.cooldown_seconds * second)
              cfg.half_open_max_calls threshold_word probes_word;
        threshold = refl;
        cooldown = refl;
        probes = refl;
      })
      each

module _ {Store : Type 0} (start app : AppState Store) (sound : IsSound start app) where
  pub with_breaker-IsSound :
      (name : Text) (b : CircuitBreaker)
      → IsOurs app.config.circuit_breaker b
      → IsSound start (record app { circuit_breakers = insert name b app.circuit_breakers })
  with_breaker-IsSound name b ours = record {
    config = sound.config;
    providers = sound.providers;
    credentials = sound.credentials;
    threshold_word = sound.threshold_word;
    probes_word = sound.probes_word;
    breakers =
        insert-Each (IsOurs app.config.circuit_breaker) name b app.circuit_breakers ours
          sound.breakers;
    buckets = sound.buckets;
  }

  -- The buckets of a client, made now or before.
  pub buckets-IsFitting :
      (id : Text) (now : ℕ)
      → IsFitting app.config.rate_limit
          (buckets_for app.config.rate_limit app.rate_limiter id now).1
  unfolding buckets_for Bucket.from_config
  buckets-IsFitting id now =
      let cfg = app.config.rate_limit in
      get_or-Each (IsFitting cfg) id (Bucket.from_config cfg.default_rpm cfg.default_tpm now)
        app.rate_limiter
        (record { rpm = new-IsRated cfg.default_rpm now; tpm = new-IsRated cfg.default_tpm now })
        sound.buckets

  pub with_buckets-IsSound :
      (buckets : Map RateLimitBuckets)
      → Each (IsFitting app.config.rate_limit) buckets
      → IsSound start (record app { rate_limiter = buckets })
  with_buckets-IsSound buckets fitting = record {
    config = sound.config;
    providers = sound.providers;
    credentials = sound.credentials;
    threshold_word = sound.threshold_word;
    probes_word = sound.probes_word;
    breakers = sound.breakers;
    buckets = fitting;
  }
