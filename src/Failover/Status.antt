-- ===== src/Failover/Status.antt =====
-- The classes of an upstream status.
use rust_llm_gateway_semanti.Prelude.{ℕ, ◌≤◌, ◌<◌, ◌≡◌, ◌≢◌, ◌⊎◌, arith}
use rust_llm_gateway_semanti.Services.{Services, IsDocumented}
use rust_llm_gateway_semanti.Handlers.{is_retryable_upstream_status, is_non_retryable_client_error}
use rust_llm_gateway_semanti.Failover.{Verdict, retry, reject, accept, classify}

-- The verdict on a status, from its number.
abbrev pub IsVerdict : ℕ → Verdict → Type 0
IsVerdict status retry = ((500 ≤ status) × (status < 600)) ⊎ ((status ≡ 429) ⊎ (status ≡ 408))
IsVerdict status reject = ((400 ≤ status) × (status < 500)) × ((status ≢ 429) × (status ≢ 408))
IsVerdict status accept = (status < 400) ⊎ (600 ≤ status)

module _ (services : Services) (documented : IsDocumented services) where
  -- Where the classes of a status are those of HTTP, the handler fails over exactly on 5xx, 429
  -- and 408, rejects the request on every other 4xx, and takes every status outside 400 to 599 for
  -- a success of the provider.
  pub classify_lem : (status : ℕ) → IsVerdict status (classify services status)
  unfolding classify is_retryable_upstream_status is_non_retryable_client_error
  classify_lem status =
      ground (arith, documented.server_error_iff status, documented.client_error_iff status)
