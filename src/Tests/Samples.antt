-- ===== src/Tests/Samples.antt =====
-- Inputs for the tests: third-party operations that are simple and behave as documented, a
-- configuration, a breaker and a bucket.
use rust_llm_gateway_semanti.Prelude.{
  ◌*◌, refl, true, ◌&&◌, Option, none, some, [], ◌∷◌, Text, text, length, drop, starts_with,
  text_eq_iff, ltb, leb, if◌then◌else◌, arith,
}
use rust_llm_gateway_semanti.Prelude.Maps.{Map, get, insert, get-insert}
use rust_llm_gateway_semanti.Prelude.Decimal.{to_decimal}
use rust_llm_gateway_semanti.Prelude.Floats.{finite, pos}
use rust_llm_gateway_semanti.Services.{Services, IsDocumented}
use rust_llm_gateway_semanti.Breaker.{CircuitBreaker, closed, open_, half_open}
use rust_llm_gateway_semanti.Bucket.{TokenBucket, RateLimitBuckets, token}
use rust_llm_gateway_semanti.State.{AppState, semantic_config}
use rust_llm_gateway_semanti.Config.{ProviderConfig, ClientCredential, AppConfig}

abbrev find : Text → Text → Option Text
find v key = if starts_with key v then some (drop (length key) v) else none

-- A JSON value is its text; a field is what follows its name; a number is the length of a text.
abbrev pub sample_services : Services
sample_services = record {
  sha256_hex = λ t. t;
  Value = Text;
  from_str = λ t. some t;
  field = λ v key. find v key;
  as_array = λ v. some (v ∷ []);
  as_u64 = λ v. some (length v);
  as_str = λ v. some v;
  Store = Map Text;
  store_get = λ c k t. get k c;
  store_insert = λ c k v t. insert k v c;
  is_success = λ code. leb 200 code && ltb code 300;
  is_client_error = λ code. leb 400 code && ltb code 500;
  is_server_error = λ code. leb 500 code && ltb code 600;
  status_text = λ code. to_decimal code;
  header_value = λ v. some v;
  to_str = λ v. some v;
  header_error = text "failed to parse header value";
}

pub sample-IsDocumented : IsDocumented sample_services
sample-IsDocumented = record {
  store_hit = λ c k j v w t u h. ground (arith, get-insert k j v c, text_eq_iff k j);
  store_replaced = λ c k v w t u h. ground (arith, get-insert k k v c, text_eq_iff k k);
  success_iff = λ code. ground arith;
  client_error_iff = λ code. ground arith;
  server_error_iff = λ code. ground arith;
  header_value_visible = λ v h. refl;
  to_str_visible = λ v h. refl;
  to_str_same = λ v t h. cc;
}

abbrev pub alpha : ProviderConfig
alpha = record {
  name = text "alpha";
  endpoint = text "http://a/";
  api_key = some (text "k");
  priority = 2;
  connect_timeout_seconds = 5;
  request_timeout_seconds = 60;
  stream_idle_timeout_seconds = 30;
}

abbrev pub beta : ProviderConfig
beta = record alpha { name = text "beta"; endpoint = text "http://b"; priority = 1 }

abbrev pub client : ClientCredential
client = record { key = text "key"; client_id = text "c1"; tier = text "free" }

abbrev pub sample_config : AppConfig
sample_config = record {
  server = record { host = text "0.0.0.0"; port = 8080; max_body_bytes = 1000 };
  auth = record { credentials = client ∷ [] };
  rate_limit = record { default_rpm = 60; default_tpm = 1000 };
  cache = record {
    exact_max_entries = 10;
    exact_ttl_seconds = 60;
    semantic_enabled = true;
    semantic_threshold = finite (pos 1);
  };
  circuit_breaker = record {
    failure_threshold = 3;
    cooldown_seconds = 10;
    half_open_max_calls = 2;
  };
  providers = alpha ∷ beta ∷ [];
}

abbrev pub fresh_breaker : CircuitBreaker
fresh_breaker = record {
  state = closed;
  failure_count = 0;
  last_failure = none;
  half_open_calls = 0;
  failure_threshold = 3;
  cooldown = 10;
  half_open_max_calls = 2;
}

abbrev pub open_breaker : CircuitBreaker
open_breaker = record fresh_breaker { state = open_; failure_count = 3; last_failure = some 5 }


-- One token left of sixty, which come back in a minute.
abbrev pub low_bucket : TokenBucket
low_bucket = record { capacity = 60 * token; refill_rate = 60; tokens = token; last_refill = 100 }

abbrev pub low_buckets : RateLimitBuckets
low_buckets = record { rpm = low_bucket; tpm = low_bucket }

abbrev pub sample_state : AppState (Map Text)
sample_state = record {
  config = sample_config;
  sorted_providers = beta ∷ alpha ∷ [];
  rate_limiter = [];
  exact_cache = [];
  semantic_cache = record { config = semantic_config sample_config; entries = [] };
  circuit_breakers = (text "beta", open_breaker) ∷ [];
  credentials = [];
}
