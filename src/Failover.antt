-- ===== src/Failover.antt =====
-- The failover loop of src/handlers/chat.rs, which src/handlers/embeddings.rs repeats. What a handler
-- does with one candidate is the argument `try_candidate`.
-- The reservation is a value of the run: an outcome comes with the handle that is still held.
pub mod Status
pub mod Rule
pub mod Order
pub mod Spared
pub mod Recovery
pub mod Billing
use rust_llm_gateway_semanti.Prelude.{
  ℕ, Option, none, some, List, [], ◌∷◌, Text, text, if◌then◌else◌,
}
use rust_llm_gateway_semanti.Prelude.Maps.{get_or}
use rust_llm_gateway_semanti.Prelude.Results.{Result, err}
use rust_llm_gateway_semanti.Services.{Services}
use rust_llm_gateway_semanti.Metrics.{record_error}
use rust_llm_gateway_semanti.Error.{AppError, upstream}
use rust_llm_gateway_semanti.Bucket.{ReservationHandle}
use rust_llm_gateway_semanti.Selector.{SelectedProvider}
use rust_llm_gateway_semanti.Handlers.{
  Response, Env, is_retryable_upstream_status, is_non_retryable_client_error, M, return, emit,
  allow_request, select, ◌>>=◌, ◌>>◌,
}

-- What an attempt gives: the breaker refused it, it failed and the next candidate is tried, or the
-- handler returns.
pub data Attempt : Type 0 where
  skipped : Attempt
  failed_over : Text → Attempt
  finished : Result Response AppError → Option ReservationHandle → Attempt

abbrev pub Outcome : Type 0
Outcome = Result Response AppError × Option ReservationHandle

-- What the two tests of a status decide.
pub data Verdict : Type 0 where
  retry reject accept : Verdict

unfoldable pub classify : Services → ℕ → Verdict
classify services status =
    if is_retryable_upstream_status services status
    then retry
    else if is_non_retryable_client_error services status
    then reject
    else accept

module _ {Store : Type 0} (env : Env Store) where
  -- A candidate whose breaker refuses is skipped.
  unfoldable pub attempt : (SelectedProvider → M Store Attempt) → SelectedProvider → M Store Attempt
  attempt try_candidate candidate = do
    allowed ← allow_request env candidate.breaker
    (if allowed then try_candidate candidate else return skipped)

  abbrev pub continue : Attempt → Option Text → (Option Text → M Store Outcome) → M Store Outcome
  continue skipped last_error rest = rest last_error
  continue (failed_over e) last_error rest = rest (some e)
  continue (finished result left) last_error rest = return (result, left)

  -- The loop over the candidates, and the error after it.
  unfoldable pub failover :
      (SelectedProvider → M Store Attempt)
      → ReservationHandle
      → List SelectedProvider
      → Option Text
      → M Store Outcome
  failover try_candidate h [] last_error = do
    emit (record_error (text "all") (text "all_providers_failed"))
    return (err (upstream (get_or (text "all providers failed") last_error)), some h)
  failover try_candidate h (candidate ∷ candidates) last_error = do
    a ← attempt try_candidate candidate
    continue a last_error (failover try_candidate h candidates)

  unfoldable pub dispatch_to :
      (SelectedProvider → M Store Attempt)
      → Text
      → ReservationHandle
      → List SelectedProvider
      → M Store Outcome
  dispatch_to try_candidate none_available h [] = do
    emit (record_error (text "all") (text "no_available_providers"))
    return (err (upstream none_available), some h)
  dispatch_to try_candidate none_available h (first ∷ others) =
      failover try_candidate h (first ∷ others) none

  -- The selection of the candidates, then the loop.
  unfoldable pub dispatch :
      (SelectedProvider → M Store Attempt) → Text → ReservationHandle → M Store Outcome
  dispatch try_candidate none_available h = do
    candidates ← select env
    dispatch_to try_candidate none_available h candidates
