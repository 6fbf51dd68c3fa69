-- ===== src/Tests/Settings.antt =====
-- The configuration, the credentials, the errors and the requests at concrete inputs.
use mathlib.Core.List.{Memᴰ, Perm}
use mathlib.Core.List.Memᴰ.{head}
use rust_llm_gateway_semanti.Prelude.{
  ℕ, ◌≡◌, ◌↔◌, refl, some, [], ◌∷◌, ◌++◌, Text, text, starts_with, strip_prefix, arith,
}
use rust_llm_gateway_semanti.Prelude.Results.{ok, err}
use rust_llm_gateway_semanti.Prelude.Decimal.{to_decimal}
use rust_llm_gateway_semanti.Error.{rate_limited, into_response}
use rust_llm_gateway_semanti.Config.{
  ProviderConfig, ClientCredential, validate, check_provider, check_providers, bad_scheme,
  providers_sorted,
}
use rust_llm_gateway_semanti.Config.Validation.{IsValidConfig, validate_iff}
use rust_llm_gateway_semanti.Config.Sorting.{IsSorted, of_priority, providers_sorted_lem}
use rust_llm_gateway_semanti.State as State
use rust_llm_gateway_semanti.State.{ClientIdentity, identity_of}
use rust_llm_gateway_semanti.Prelude.{text_eq}
use rust_llm_gateway_semanti.Prelude.Maps.{get, insert}
use rust_llm_gateway_semanti.Auth.{token_of, trim, bearer, extract_api_key, authenticate}
use rust_llm_gateway_semanti.Auth.Tokens.{authenticate_sound, authenticate_complete}
use rust_llm_gateway_semanti.Tests.Samples.{
  sample_services, sample-IsDocumented, alpha, beta, client, sample_config,
}

validate_iff_example : (validate sample_config ≡ ok tt) ↔ IsValidConfig sample_config
validate_iff_example = validate_iff sample_config

abbrev ftp : ProviderConfig
ftp = record alpha { endpoint = text "ftp://x" }

ftp_rejected : check_providers 0 (beta ∷ ftp ∷ []) ≡ err (bad_scheme 1 (text "ftp://x"))
unfolding check_providers check_provider starts_with strip_prefix
ftp_rejected = refl

providers_sorted_lem_example :
    IsSorted (providers_sorted sample_config)
    × Perm (providers_sorted sample_config) (alpha ∷ beta ∷ [])
    × ((k : ℕ) → of_priority k (providers_sorted sample_config) ≡ of_priority k (alpha ∷ beta ∷ []))
providers_sorted_lem_example = providers_sorted_lem sample_config

sent_header :
    (into_response sample_services (rate_limited 12)).headers
    ≡ (text "retry-after", to_decimal 12) ∷ []
unfolding into_response
sent_header = refl

let_in :
    authenticate sample_services
      (State.new sample_services sample_config [])
      (some (bearer ++ text "key"))
    ≡ ok (identity_of client)
unfolding authenticate extract_api_key token_of trim starts_with strip_prefix get insert text_eq
    State.new State.add_credentials
let_in = refl

authenticate_sound_example :
    (key : Text) × (cred : ClientCredential) × (extract_api_key sample_services
        (some (bearer ++ text "key"))
      ≡ ok key)
    × Memᴰ cred (client ∷ [])
    × (cred.key ≡ key)
    × (identity_of cred ≡ identity_of client)
authenticate_sound_example =
    authenticate_sound sample_services sample-IsDocumented sample_config []
      (some (bearer ++ text "key")) (identity_of client) let_in

authenticate_complete_example :
    (i : ClientIdentity) × (authenticate sample_services
        (State.new sample_services sample_config [])
        (some (bearer ++ text "key"))
      ≡ ok i)
authenticate_complete_example =
    authenticate_complete sample_services sample-IsDocumented sample_config [] client (head refl)
      (λ e. cc)
      ((omega arith, omega arith), ((omega arith, omega arith), ((omega arith, omega arith), tt)))
      (refl, (refl, (refl, tt)))
