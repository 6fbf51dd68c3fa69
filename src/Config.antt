-- ===== src/Config.antt =====
-- src/config.rs: the configuration, its validation and the order of the providers.
-- The message of a `String` error is a constructor that carries what the message is formatted from;
-- `error_text` formats it.
pub mod Validation
pub mod Sorting
pub mod Loading
use rust_llm_gateway_semanti.Prelude.{
  ℕ, suc, Bool, true, false, Option, List, [], ◌∷◌, ◌++◌, ◌||◌, not, Text, text, is_empty,
  starts_with, leb, ◌==◌, if◌then◌else◌,
}
use rust_llm_gateway_semanti.Prelude.Results.{Result, ok, err, ◌>>=◌, ◌>>◌}
use rust_llm_gateway_semanti.Prelude.Floats.{Float}
use rust_llm_gateway_semanti.Prelude.Decimal.{to_decimal}
use rust_llm_gateway_semanti.Prelude.Maps.{get_or}

pub record ServerConfig : Type 0 where
  pub host : Text
  pub port : ℕ  -- u16
  pub max_body_bytes : ℕ  -- usize

pub record ClientCredential : Type 0 where
  pub key : Text
  pub client_id : Text
  pub tier : Text

pub record AuthConfig : Type 0 where
  pub credentials : List ClientCredential

pub record RateLimitConfig : Type 0 where
  pub default_rpm : ℕ  -- u32
  pub default_tpm : ℕ  -- u32

pub record CacheConfig : Type 0 where
  pub exact_max_entries : ℕ  -- u64
  pub exact_ttl_seconds : ℕ  -- u64
  pub semantic_enabled : Bool
  pub semantic_threshold : Float  -- f64

pub record CircuitBreakerConfig : Type 0 where
  pub failure_threshold : ℕ  -- u32
  pub cooldown_seconds : ℕ  -- u64
  pub half_open_max_calls : ℕ  -- u32

pub record ProviderConfig : Type 0 where
  pub name : Text
  pub endpoint : Text
  pub api_key : Option Text
  pub priority : ℕ  -- u32
  pub connect_timeout_seconds : ℕ  -- u64
  pub request_timeout_seconds : ℕ  -- u64
  pub stream_idle_timeout_seconds : ℕ  -- u64

pub record AppConfig : Type 0 where
  pub server : ServerConfig
  pub auth : AuthConfig
  pub rate_limit : RateLimitConfig
  pub cache : CacheConfig
  pub circuit_breaker : CircuitBreakerConfig
  pub providers : List ProviderConfig

pub data ConfigError : Type 0 where
  no_providers : ConfigError
  empty_name empty_endpoint : ℕ → ConfigError
  bad_scheme : ℕ → Text → ConfigError
  zero_timeout : ℕ → ConfigError
  empty_key empty_client_id : ℕ → ConfigError
  zero_rpm zero_tpm : ConfigError

-- The message itself.
unfoldable pub error_text : ConfigError → Text
error_text no_providers = text "at least one provider must be configured"
error_text (empty_name i) = text "providers[" ++ to_decimal i ++ text "].name must not be empty"
error_text (empty_endpoint i) =
    text "providers[" ++ to_decimal i ++ text "].endpoint must not be empty"
error_text (bad_scheme i endpoint) =
    text "providers["
    ++ to_decimal i
    ++ text "].endpoint must start with http:// or https://, got: "
    ++ endpoint
error_text (zero_timeout i) =
    text "providers[" ++ to_decimal i ++ text "].request_timeout_seconds must be > 0"
error_text (empty_key i) =
    text "auth.credentials[" ++ to_decimal i ++ text "].key must not be empty"
error_text (empty_client_id i) =
    text "auth.credentials[" ++ to_decimal i ++ text "].client_id must not be empty"
error_text zero_rpm = text "rate_limit.default_rpm must be > 0"
error_text zero_tpm = text "rate_limit.default_tpm must be > 0"

-- `if test { return Err(e) }`.
abbrev pub fail_if : Bool → ConfigError → Result Unit ConfigError
fail_if true e = err e
fail_if false e = ok tt

abbrev pub has_scheme : Text → Bool
has_scheme endpoint =
    starts_with (text "http://") endpoint || starts_with (text "https://") endpoint

-- The body of the loop over `providers`.
unfoldable pub check_provider : ℕ → ProviderConfig → Result Unit ConfigError
check_provider i p = do
  fail_if (is_empty p.name) (empty_name i)
  fail_if (is_empty p.endpoint) (empty_endpoint i)
  fail_if (not (has_scheme p.endpoint)) (bad_scheme i p.endpoint)
  fail_if (p.request_timeout_seconds == 0) (zero_timeout i)

unfoldable pub check_providers : ℕ → List ProviderConfig → Result Unit ConfigError
check_providers i [] = ok tt
check_providers i (p ∷ ps) = do check_provider i p; check_providers (suc i) ps

-- The body of the loop over `credentials`.
unfoldable pub check_credential : ℕ → ClientCredential → Result Unit ConfigError
check_credential i cred = do
  fail_if (is_empty cred.key) (empty_key i)
  fail_if (is_empty cred.client_id) (empty_client_id i)

unfoldable pub check_credentials : ℕ → List ClientCredential → Result Unit ConfigError
check_credentials i [] = ok tt
check_credentials i (c ∷ cs) = do check_credential i c; check_credentials (suc i) cs

abbrev pub has_none {ℓ} : {A : Type ℓ} → List A → Bool
has_none [] = true
has_none (_ ∷ _) = false

unfoldable pub validate : AppConfig → Result Unit ConfigError
validate c = do
  fail_if (has_none c.providers) no_providers
  check_providers 0 c.providers
  check_credentials 0 c.auth.credentials
  fail_if (c.rate_limit.default_rpm == 0) zero_rpm
  fail_if (c.rate_limit.default_tpm == 0) zero_tpm

unfoldable pub default_connect_timeout : ℕ
default_connect_timeout = 5

unfoldable pub default_request_timeout : ℕ
default_request_timeout = 30

unfoldable pub default_stream_idle : ℕ
default_stream_idle = 120

-- A provider as the sources give it; `Deserialize` puts the default for a timeout that is not there.
pub record ProviderInput : Type 0 where
  pub name : Text
  pub endpoint : Text
  pub api_key : Option Text
  pub priority : ℕ
  pub connect_timeout_seconds : Option ℕ
  pub request_timeout_seconds : Option ℕ
  pub stream_idle_timeout_seconds : Option ℕ

unfoldable pub provider_of : ProviderInput → ProviderConfig
provider_of p = record {
  name = p.name;
  endpoint = p.endpoint;
  api_key = p.api_key;
  priority = p.priority;
  connect_timeout_seconds = get_or default_connect_timeout p.connect_timeout_seconds;
  request_timeout_seconds = get_or default_request_timeout p.request_timeout_seconds;
  stream_idle_timeout_seconds = get_or default_stream_idle p.stream_idle_timeout_seconds;
}

-- An error of the config crate, or `ConfigError::Message` with what `validate` says.
pub data LoadError (E : Type 0) : Type 0 where
  source : E → LoadError E
  message : ConfigError → LoadError E

abbrev checked : {E : Type 0} → AppConfig → Result Unit ConfigError → Result AppConfig (LoadError E)
checked cfg (ok _) = ok cfg
checked cfg (err e) = err (message e)

-- The argument is what the config crate makes of the file and the environment.
unfoldable pub load : {E : Type 0} → Result AppConfig E → Result AppConfig (LoadError E)
load (err e) = err (source e)
load (ok cfg) = checked cfg (validate cfg)

-- The standard library's stable sort, as an insertion from the back.
unfoldable pub insert_by_priority : ProviderConfig → List ProviderConfig → List ProviderConfig
insert_by_priority p [] = p ∷ []
insert_by_priority p (q ∷ qs) =
    if leb p.priority q.priority then p ∷ q ∷ qs else q ∷ insert_by_priority p qs

unfoldable pub sort_by_priority : List ProviderConfig → List ProviderConfig
sort_by_priority [] = []
sort_by_priority (p ∷ ps) = insert_by_priority p (sort_by_priority ps)

unfoldable pub providers_sorted : AppConfig → List ProviderConfig
providers_sorted c = sort_by_priority c.providers
