-- ===== src/State.antt =====
-- src/state.rs: the state that the handlers share. A `DashMap` or `HashMap` is a `Map`; an
-- `Arc<CircuitBreaker>` is the name under which the breaker stands in its map, since entries are
-- never removed. The HTTP client and the metrics handle are third-party and are left out.
pub mod Breakers
pub mod Invariant
pub mod Credentials
use rust_llm_gateway_semanti.Prelude.{ℕ, ◌*◌, List, [], ◌∷◌, Text}
use rust_llm_gateway_semanti.Prelude.Maps.{Map, get, insert, get_or}
use rust_llm_gateway_semanti.Services.{Services}
use rust_llm_gateway_semanti.Config.{
  ProviderConfig, ClientCredential, AppConfig, RateLimitConfig, CircuitBreakerConfig,
  providers_sorted,
}
use rust_llm_gateway_semanti.Breaker as Breaker
use rust_llm_gateway_semanti.Breaker.{CircuitBreaker}
use rust_llm_gateway_semanti.Bucket as Bucket
use rust_llm_gateway_semanti.Bucket.{RateLimitBuckets}
use rust_llm_gateway_semanti.SemanticCache as SemanticCache
use rust_llm_gateway_semanti.SemanticCache.{SemanticCache, SemanticCacheConfig}

pub record ClientIdentity : Type 0 where
  pub client_id : Text
  pub tier : Text

pub record AppState (Store : Type 0) : Type 0 where
  pub config : AppConfig
  pub sorted_providers : List ProviderConfig
  pub rate_limiter : Map RateLimitBuckets
  pub exact_cache : Store
  pub semantic_cache : SemanticCache
  pub circuit_breakers : Map CircuitBreaker
  pub credentials : Map ClientIdentity

abbrev pub second : ℕ
second = 1000000000

unfoldable pub semantic_config : AppConfig → SemanticCacheConfig
semantic_config config = record {
  enabled = config.cache.semantic_enabled;
  threshold = config.cache.semantic_threshold;
  max_entries = config.cache.exact_max_entries;
  ttl = config.cache.exact_ttl_seconds * second;
}

abbrev pub identity_of : ClientCredential → ClientIdentity
identity_of cred = record { client_id = cred.client_id; tier = cred.tier }

module _ (services : Services) where
  open services use {sha256_hex, Store}

  -- The loop over the configured credentials.
  unfoldable pub add_credentials : List ClientCredential → Map ClientIdentity → Map ClientIdentity
  add_credentials [] m = m
  add_credentials (cred ∷ creds) m =
      add_credentials creds (insert (sha256_hex cred.key) (identity_of cred) m)

  -- `AppState::new`; the empty store is the one that moka's builder makes.
  unfoldable pub new : AppConfig → Store → AppState Store
  new config empty_store = record {
    config = config;
    sorted_providers = providers_sorted config;
    rate_limiter = [];
    exact_cache = empty_store;
    semantic_cache = SemanticCache.new (semantic_config config);
    circuit_breakers = [];
    credentials = add_credentials config.auth.credentials [];
  }

unfoldable pub new_breaker : CircuitBreakerConfig → CircuitBreaker
new_breaker cfg =
    Breaker.new cfg.failure_threshold (cfg.cooldown_seconds * second) cfg.half_open_max_calls

-- The breaker under a name, or the one that would be made for it.
abbrev pub breaker_named : CircuitBreakerConfig → Map CircuitBreaker → Text → CircuitBreaker
breaker_named cfg breakers name = get_or (new_breaker cfg) (get name breakers)

-- `entry(name).or_insert_with(..)`, on the map of breakers.
unfoldable pub breaker_for :
    CircuitBreakerConfig → Map CircuitBreaker → Text → Map CircuitBreaker × CircuitBreaker
breaker_for cfg breakers name =
    let b = breaker_named cfg breakers name in (insert name b breakers, b)

-- `get_rate_limit_buckets`, and the same steps of `rate_limit_middleware`.
unfoldable pub buckets_for :
    RateLimitConfig → Map RateLimitBuckets → Text → ℕ → Map RateLimitBuckets × RateLimitBuckets
buckets_for cfg buckets client_id now =
    let bs =
      get_or (Bucket.from_config cfg.default_rpm cfg.default_tpm now) (get client_id buckets) in
    (insert client_id bs buckets, bs)
