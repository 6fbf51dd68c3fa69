-- ===== src/Metrics.antt =====
-- src/telemetry/metrics.rs: the names of the metrics, their descriptions and the recording helpers.
-- What a helper sends to the recorder is a `Sample`; the recorder itself (the metrics crate), which
-- `init` installs, is not modelled, so a run keeps the list of its samples. A duration is in
-- nanoseconds.
pub mod Described
use rust_llm_gateway_semanti.Prelude.{ℕ, List, [], ◌∷◌, Text, text}
use rust_llm_gateway_semanti.Prelude.Floats.{Float}

abbrev pub requests_total : Text
requests_total = text "gateway_requests_total"

abbrev pub request_errors_total : Text
request_errors_total = text "gateway_request_errors_total"

abbrev pub cache_hits_total : Text
cache_hits_total = text "gateway_cache_hits_total"

abbrev pub cache_misses_total : Text
cache_misses_total = text "gateway_cache_misses_total"

abbrev pub tokens_total : Text
tokens_total = text "gateway_tokens_total"

abbrev pub active_connections : Text
active_connections = text "gateway_active_connections"

abbrev pub ttft_seconds : Text
ttft_seconds = text "gateway_ttft_seconds"

abbrev pub request_latency_seconds : Text
request_latency_seconds = text "gateway_request_latency_seconds"

abbrev pub upstream_latency_seconds : Text
upstream_latency_seconds = text "gateway_upstream_latency_seconds"

abbrev pub gateway_overhead_seconds : Text
gateway_overhead_seconds = text "gateway_overhead_seconds"

abbrev pub rate_limit_rejections_total : Text
rate_limit_rejections_total = text "gateway_rate_limit_rejections_total"

abbrev pub provider_requests_total : Text
provider_requests_total = text "gateway_provider_requests_total"

abbrev pub provider_failures_total : Text
provider_failures_total = text "gateway_provider_failures_total"

abbrev pub provider_circuit_state : Text
provider_circuit_state = text "gateway_provider_circuit_state"

abbrev pub upstream_first_byte_seconds : Text
upstream_first_byte_seconds = text "gateway_upstream_first_byte_seconds"

pub data Kind : Type 0 where
  counter gauge histogram : Kind

-- The calls of the `describe` macros, each a name with its kind and its help text.
unfoldable pub describe_metrics : List (Text × (Kind × Text))
describe_metrics =
    (requests_total, (counter, text "Total requests processed by the gateway"))
    ∷ (request_errors_total, (counter, text "Total request errors"))
    ∷ (cache_hits_total, (counter, text "Total cache hits (exact + semantic)"))
    ∷ (cache_misses_total, (counter, text "Total cache misses"))
    ∷ (tokens_total, (counter, text "Total tokens (prompt + completion)"))
    ∷ (active_connections, (gauge, text "Active in-flight connections"))
    ∷ (ttft_seconds, (histogram, text "Time-to-first-token (streaming)"))
    ∷ (request_latency_seconds, (histogram, text "End-to-end request latency"))
    ∷ (upstream_latency_seconds, (histogram, text "Upstream provider latency"))
    ∷ (gateway_overhead_seconds, (histogram, text "Gateway processing overhead"))
    ∷ (rate_limit_rejections_total, (counter, text "Rate limit rejections"))
    ∷ (provider_requests_total, (counter, text "Requests sent to providers"))
    ∷ (provider_failures_total, (counter, text "Provider failures"))
    ∷ (
      provider_circuit_state,
      (gauge, text "Circuit breaker state (0=closed, 1=open, 2=half_open)"),
    )
    ∷ (upstream_first_byte_seconds, (histogram, text "Time to first byte from upstream"))
    ∷ []

-- A counter that is incremented, a duration that is recorded, or a gauge that is set, under labels.
pub data Sample : Type 0 where
  increment : Text → List (Text × Text) → ℕ → Sample
  observe : Text → List (Text × Text) → ℕ → Sample
  set : Text → List (Text × Text) → Float → Sample

unfoldable pub record_request : Text → Text → Sample
record_request provider status =
    increment requests_total ((text "provider", provider) ∷ (text "status", status) ∷ []) 1

unfoldable pub record_error : Text → Text → Sample
record_error provider error =
    increment request_errors_total ((text "provider", provider) ∷ (text "error", error) ∷ []) 1

unfoldable pub record_cache_hit : Text → Sample
record_cache_hit cache_type = increment cache_hits_total ((text "type", cache_type) ∷ []) 1

unfoldable pub record_cache_miss : Text → Sample
record_cache_miss cache_type = increment cache_misses_total ((text "type", cache_type) ∷ []) 1

unfoldable pub record_tokens : Text → Text → ℕ → Sample
record_tokens provider kind count =
    increment tokens_total ((text "provider", provider) ∷ (text "kind", kind) ∷ []) count

unfoldable pub set_active_connections : Float → Sample
set_active_connections count = set active_connections [] count

unfoldable pub record_ttft : Text → ℕ → Sample
record_ttft provider duration = observe ttft_seconds ((text "provider", provider) ∷ []) duration

unfoldable pub record_request_latency : ℕ → Sample
record_request_latency duration = observe request_latency_seconds [] duration

unfoldable pub record_upstream_latency : Text → ℕ → Sample
record_upstream_latency provider duration =
    observe upstream_latency_seconds ((text "provider", provider) ∷ []) duration

unfoldable pub record_gateway_overhead : ℕ → Sample
record_gateway_overhead duration = observe gateway_overhead_seconds [] duration

unfoldable pub record_rate_limit_rejection : Text → Sample
record_rate_limit_rejection kind =
    increment rate_limit_rejections_total ((text "kind", kind) ∷ []) 1

unfoldable pub record_provider_request : Text → Sample
record_provider_request provider =
    increment provider_requests_total ((text "provider", provider) ∷ []) 1

unfoldable pub record_provider_failure : Text → Text → Sample
record_provider_failure provider reason =
    increment provider_failures_total ((text "provider", provider) ∷ (text "reason", reason) ∷ []) 1

unfoldable pub set_provider_circuit_state : Text → Float → Sample
set_provider_circuit_state provider state =
    set provider_circuit_state ((text "provider", provider) ∷ []) state
