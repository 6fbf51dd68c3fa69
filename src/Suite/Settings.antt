-- ===== src/Suite/Settings.antt =====
-- The tests of src/config.rs, but for the one that parses TOML, and those of src/middleware/auth.rs.
use rust_llm_gateway_semanti.Prelude.{
  ◌*◌, ◌^◌, ◌≡◌, refl, Bool, true, false, ◌||◌, Option, none, some, [], ◌∷◌, ◌++◌, Text, text,
  text_eq, starts_with, strip_prefix, arith,
}
use rust_llm_gateway_semanti.Prelude.Floats.{finite, pos}
use rust_llm_gateway_semanti.Prelude.Decimal.{to_decimal, digits_from}
use rust_llm_gateway_semanti.Prelude.Results.{Result, ok, err}
use rust_llm_gateway_semanti.Services.{Services, IsDocumented}
use rust_llm_gateway_semanti.Error.{AppError, unauthorized}
use rust_llm_gateway_semanti.Config.{
  ProviderConfig, AppConfig, error_text, check_provider, check_providers, validate,
}
use rust_llm_gateway_semanti.Auth.{trim, token_of, bearer, extract_api_key}

-- `str::contains`
unfoldable contains : Text → Text → Bool
contains part [] = starts_with part []
contains part (c ∷ s) = starts_with part (c ∷ s) || contains part s

abbrev is_err {ℓ} : {A E : Type ℓ} → (E → Bool) → Result A E → Bool
is_err test (ok a) = false
is_err test (err e) = test e

-- 0.96 is the nearest f64.
unfoldable empty_config : AppConfig
empty_config = record {
  server = record { host = text "0.0.0.0"; port = 8080; max_body_bytes = 4194304 };
  auth = record {
    credentials = record { key = text "k"; client_id = text "c"; tier = text "default" } ∷ [];
  };
  rate_limit = record { default_rpm = 60; default_tpm = 90000 };
  cache = record {
    exact_max_entries = 100;
    exact_ttl_seconds = 60;
    semantic_enabled = false;
    semantic_threshold = finite (pos (8646911284551352 * 2 ^ 1021));
  };
  circuit_breaker = record {
    failure_threshold = 3;
    cooldown_seconds = 10;
    half_open_max_calls = 1;
  };
  providers = [];
}

unfoldable validates_empty_providers : Bool
unfolding empty_config validate
validates_empty_providers = is_err (λ e. true) (validate empty_config)

unfoldable bad_provider : ProviderConfig
bad_provider = record {
  name = text "bad";
  endpoint = text "ftp://not-http";
  api_key = none;
  priority = 1;
  connect_timeout_seconds = 5;
  request_timeout_seconds = 30;
  stream_idle_timeout_seconds = 120;
}

unfoldable validates_invalid_endpoint : Bool
unfolding empty_config bad_provider validate contains error_text
validates_invalid_endpoint =
    is_err (λ e. contains (text "http://") (error_text e))
      (validate (record empty_config { providers = bad_provider ∷ [] }))

validates_empty_providers_lem : validates_empty_providers ≡ true
unfolding validates_empty_providers
validates_empty_providers_lem = refl

validates_invalid_endpoint_lem : validates_invalid_endpoint ≡ true
unfolding validates_invalid_endpoint check_providers check_provider starts_with strip_prefix
    to_decimal digits_from
validates_invalid_endpoint_lem = refl

-- The `authorization` header.
unfoldable build_headers : Text → Option Text
build_headers token = some (bearer ++ token)

abbrev is_unauthorized : AppError → Bool
is_unauthorized unauthorized = true
is_unauthorized _ = false

module _ (services : Services) where
  abbrev is_key : Text → Result Text AppError → Bool
  is_key key (ok found) = text_eq found key
  is_key key (err e) = false

  unfoldable extracts_valid_bearer : Bool
  unfolding extract_api_key build_headers text_eq
  extracts_valid_bearer =
      is_key (text "sk-abc-123") (extract_api_key services (build_headers (text "sk-abc-123")))

  unfoldable rejects_missing_header : Bool
  unfolding extract_api_key
  rejects_missing_header = is_err is_unauthorized (extract_api_key services none)

  unfoldable rejects_non_bearer : Bool
  unfolding extract_api_key
  rejects_non_bearer =
      is_err is_unauthorized (extract_api_key services (some (text "Basic abc123")))

  unfoldable rejects_empty_token : Bool
  unfolding extract_api_key build_headers
  rejects_empty_token = is_err is_unauthorized (extract_api_key services (build_headers (text "")))

  module _ (documented : IsDocumented services) where
    extracts_valid_bearer_lem : extracts_valid_bearer ≡ true
    unfolding extracts_valid_bearer token_of trim starts_with strip_prefix
    extracts_valid_bearer_lem =
        rw (documented.to_str_visible (bearer ++ text "sk-abc-123") (ground arith)) refl

    rejects_missing_header_lem : rejects_missing_header ≡ true
    unfolding rejects_missing_header
    rejects_missing_header_lem = refl

    rejects_non_bearer_lem : rejects_non_bearer ≡ true
    unfolding rejects_non_bearer token_of trim starts_with strip_prefix
    rejects_non_bearer_lem =
        rw (documented.to_str_visible (text "Basic abc123") (ground arith)) refl

    rejects_empty_token_lem : rejects_empty_token ≡ true
    unfolding rejects_empty_token token_of trim starts_with strip_prefix
    rejects_empty_token_lem = rw (documented.to_str_visible (bearer ++ text "") (ground arith)) refl
