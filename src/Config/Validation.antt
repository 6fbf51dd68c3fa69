-- ===== src/Config/Validation.antt =====
-- `AppConfig::validate` accepts exactly the well-formed configurations.
use rust_llm_gateway_semanti.Prelude.{
  ap, ◌∙◌, inl, inr, ℕ, suc, ◌+◌, ◌<◌, ◌≡◌, ◌≢◌, ◌↔◌, ◌⊎◌, refl, true, false, List, [], ◌∷◌, ◌++◌,
  length, text, starts_with, strip_prefix, All, arith, Option, none, some,
}
use rust_llm_gateway_semanti.Prelude.Results.{ok, err, Result-cases}
use rust_llm_gateway_semanti.Config.{
  ProviderConfig, ClientCredential, AppConfig, ConfigError, check_provider, check_providers,
  check_credential, check_credentials, validate, empty_name, empty_endpoint, bad_scheme,
  zero_timeout,
}

pub record IsWellFormed (p : ProviderConfig) : Type 0 where
  pub named : p.name ≢ []
  pub scheme :
      (starts_with (text "http://") p.endpoint ≡ true)
      ⊎ (starts_with (text "https://") p.endpoint ≡ true)
  pub timed : 0 < p.request_timeout_seconds

pub record IsUsable (c : ClientCredential) : Type 0 where
  pub keyed : c.key ≢ []
  pub identified : c.client_id ≢ []

-- No scheme is a prefix of the empty text.
no_scheme : (starts_with (text "http://") [] ≡ false) × (starts_with (text "https://") [] ≡ false)
unfolding starts_with strip_prefix
no_scheme = (refl, refl)

check_provider_iff : (i : ℕ) (p : ProviderConfig) → (check_provider i p ≡ ok tt) ↔ IsWellFormed p
unfolding check_provider
check_provider_iff i p = (λ e. ground arith, λ w. ground (arith, no_scheme))

check_credential_iff : (i : ℕ) (c : ClientCredential) → (check_credential i c ≡ ok tt) ↔ IsUsable c
unfolding check_credential
check_credential_iff i c = (λ e. ground arith, λ w. ground arith)

check_providers_iff :
    (i : ℕ) (ps : List ProviderConfig) → (check_providers i ps ≡ ok tt) ↔ All IsWellFormed ps
unfolding check_providers
check_providers_iff i [] = (λ _. tt, λ _. refl)
check_providers_iff i (p ∷ ps) =
    ground (arith, check_provider_iff i p, check_providers_iff (suc i) ps)

check_credentials_iff :
    (i : ℕ) (cs : List ClientCredential) → (check_credentials i cs ≡ ok tt) ↔ All IsUsable cs
unfolding check_credentials
check_credentials_iff i [] = (λ _. tt, λ _. refl)
check_credentials_iff i (c ∷ cs) =
    ground (arith, check_credential_iff i c, check_credentials_iff (suc i) cs)

pub record IsValidConfig (c : AppConfig) : Type 0 where
  pub some_provider : c.providers ≢ []
  pub providers : All IsWellFormed c.providers
  pub credentials : All IsUsable c.auth.credentials
  pub rpm : 0 < c.rate_limit.default_rpm
  pub tpm : 0 < c.rate_limit.default_tpm

-- Validation accepts exactly the configurations that have a provider, whose providers all have a
-- name, an http or https endpoint and a positive request timeout, whose credentials all have a key
-- and a client, and whose default rates are positive.
pub validate_iff : (c : AppConfig) → (validate c ≡ ok tt) ↔ IsValidConfig c
unfolding validate
validate_iff c = (
  λ e.
      ground (arith, check_providers_iff 0 c.providers, check_credentials_iff 0 c.auth.credentials),
  λ v.
      ground (arith, check_providers_iff 0 c.providers, check_credentials_iff 0 c.auth.credentials),
)

-- The index of an error.
abbrev pub error_index : ConfigError → Option ℕ
error_index (empty_name i) = some i
error_index (empty_endpoint i) = some i
error_index (bad_scheme i _) = some i
error_index (zero_timeout i) = some i
error_index _ = none

check_provider_err :
    (i : ℕ) (p : ProviderConfig) (e : ConfigError)
    → check_provider i p ≡ err e
    → error_index e ≡ some i
unfolding check_provider
check_provider_err i p e h = ground arith

-- An error about a provider carries the index of the first provider that is not well formed: all
-- before it are.
pub check_providers_first :
    (i : ℕ) (ps : List ProviderConfig) (e : ConfigError)
    → check_providers i ps ≡ err e
    → (good rest : List ProviderConfig) × (p : ProviderConfig) × (ps ≡ good ++ p ∷ rest)
      × All IsWellFormed good
      × (¬ IsWellFormed p)
      × (error_index e ≡ some (i + length good))
unfolding check_providers
check_providers_first i [] e h = cc
check_providers_first i (p ∷ ps) e h = elim (Result-cases (check_provider i p)) [
  | inl (_, fine) ↦
      let (good, rest, q, split, well, bad, named) =
        check_providers_first (suc i) ps e (rw fine at h) in
      (
        p ∷ good,
        rest,
        q,
        ap (λ l. p ∷ l) split,
        ((check_provider_iff i p).0 fine, well),
        bad,
        named ∙ ap some (omega arith),
      )
  | inr (e', wrong) ↦ (
    [],
    ps,
    p,
    refl,
    tt,
    λ w. cc ((check_provider_iff i p).1 w, wrong),
    ground (arith, check_provider_err i p e'),
  )
]
