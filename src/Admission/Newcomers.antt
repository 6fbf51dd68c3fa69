-- ===== src/Admission/Newcomers.antt =====
-- The first request of a client under a configuration that was loaded.
use rust_llm_gateway_semanti.Prelude.{ℕ, ◌<◌, ◌≡◌, arith, none, Text}
use rust_llm_gateway_semanti.Prelude.Maps.{Map, get}
use rust_llm_gateway_semanti.Prelude.Results.{Result, ok}
use rust_llm_gateway_semanti.Config.{AppConfig, RateLimitConfig, load}
use rust_llm_gateway_semanti.Config.Loading.{load_valid}
use rust_llm_gateway_semanti.Bucket as Bucket
use rust_llm_gateway_semanti.Bucket.{RateLimitBuckets}
use rust_llm_gateway_semanti.State.{buckets_for}
use rust_llm_gateway_semanti.Admission.{charge_rpm}

fresh_passes :
    (cfg : RateLimitConfig) (m : Map RateLimitBuckets) (id : Text) (now : ℕ)
    → 0 < cfg.default_rpm
    → get id m ≡ none
    → (charge_rpm cfg m id now).1 ≡ Bucket.ok
unfolding charge_rpm buckets_for Bucket.from_config Bucket.new Bucket.try_consume Bucket.refill
fresh_passes cfg m id now positive unknown = rw unknown (ground (arith, positive))

-- Under every configuration that load returns, the first request of a client that has no buckets
-- yet passes the request limit.
pub newcomer_passes :
    {E : Type 0} (built : Result AppConfig E) (cfg : AppConfig) (m : Map RateLimitBuckets)
    (id : Text) (now : ℕ)
    → load built ≡ ok cfg
    → get id m ≡ none
    → (charge_rpm cfg.rate_limit m id now).1 ≡ Bucket.ok
newcomer_passes built cfg m id now loaded unknown =
    fresh_passes cfg.rate_limit m id now (load_valid built cfg loaded).1.rpm unknown
