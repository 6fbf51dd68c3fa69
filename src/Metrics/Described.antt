-- ===== src/Metrics/Described.antt =====
-- The descriptions of the metrics against what the helpers record.
use rust_llm_gateway_semanti.Prelude.{ℕ, ◌≡◌, refl, some, Text, text_eq}
use rust_llm_gateway_semanti.Prelude.Floats.{Float}
use rust_llm_gateway_semanti.Prelude.Maps.{get}
use rust_llm_gateway_semanti.Metrics.{
  Kind, counter, gauge, histogram, describe_metrics, Sample, increment, observe, set,
  record_request, record_error, record_cache_hit, record_cache_miss, record_tokens,
  set_active_connections, record_ttft, record_request_latency, record_upstream_latency,
  record_gateway_overhead, record_rate_limit_rejection, record_provider_request,
  record_provider_failure, set_provider_circuit_state,
}

-- The samples that the helpers make.
pub data Recorded : Sample → Type 0 where
  request : (provider status : Text) → Recorded (record_request provider status)
  error : (provider error : Text) → Recorded (record_error provider error)
  cache_hit : (cache_type : Text) → Recorded (record_cache_hit cache_type)
  cache_miss : (cache_type : Text) → Recorded (record_cache_miss cache_type)
  tokens : (provider kind : Text) (count : ℕ) → Recorded (record_tokens provider kind count)
  connections : (count : Float) → Recorded (set_active_connections count)
  ttft : (provider : Text) (duration : ℕ) → Recorded (record_ttft provider duration)
  request_latency : (duration : ℕ) → Recorded (record_request_latency duration)
  upstream_latency :
      (provider : Text) (duration : ℕ) → Recorded (record_upstream_latency provider duration)
  gateway_overhead : (duration : ℕ) → Recorded (record_gateway_overhead duration)
  rejection : (kind : Text) → Recorded (record_rate_limit_rejection kind)
  provider_request : (provider : Text) → Recorded (record_provider_request provider)
  provider_failure : (provider reason : Text) → Recorded (record_provider_failure provider reason)
  circuit_state :
      (provider : Text) (state : Float) → Recorded (set_provider_circuit_state provider state)

abbrev pub name_of : Sample → Text
name_of (increment name labels n) = name
name_of (observe name labels duration) = name
name_of (set name labels value) = name

abbrev pub kind_of : Sample → Kind
kind_of (increment name labels n) = counter
kind_of (observe name labels duration) = histogram
kind_of (set name labels value) = gauge

abbrev pub IsDescribed : Sample → Type 0
IsDescribed s = (help : Text) × (get (name_of s) describe_metrics ≡ some (kind_of s, help))

-- Every sample that a helper makes, whatever its arguments, is of a described name and kind.
pub recorded-IsDescribed : (s : Sample) → Recorded s → IsDescribed s
unfolding describe_metrics get text_eq record_request record_error record_cache_hit
    record_cache_miss record_tokens set_active_connections record_ttft record_request_latency
    record_upstream_latency record_gateway_overhead record_rate_limit_rejection
    record_provider_request record_provider_failure set_provider_circuit_state
recorded-IsDescribed _ (request p s) = (_, refl)
recorded-IsDescribed _ (error p e) = (_, refl)
recorded-IsDescribed _ (cache_hit t) = (_, refl)
recorded-IsDescribed _ (cache_miss t) = (_, refl)
recorded-IsDescribed _ (tokens p k n) = (_, refl)
recorded-IsDescribed _ (connections n) = (_, refl)
recorded-IsDescribed _ (ttft p d) = (_, refl)
recorded-IsDescribed _ (request_latency d) = (_, refl)
recorded-IsDescribed _ (upstream_latency p d) = (_, refl)
recorded-IsDescribed _ (gateway_overhead d) = (_, refl)
recorded-IsDescribed _ (rejection k) = (_, refl)
recorded-IsDescribed _ (provider_request p) = (_, refl)
recorded-IsDescribed _ (provider_failure p r) = (_, refl)
recorded-IsDescribed _ (circuit_state p s) = (_, refl)
