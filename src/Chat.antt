-- ===== src/Chat.antt =====
-- src/handlers/chat.rs: the handler of `/v1/chat/completions` around its failover loop. What it does with
-- one candidate is in Attempts.
-- The reservation is a value of the run: an outcome comes with the handle that is still held, which
-- `chat_completions` drops.
pub mod Requests
pub mod Slots
pub mod Spared
pub mod Recovery
pub mod Available
pub mod Bill
pub mod Settling
pub mod Billing
pub mod Replay
use rust_llm_gateway_semanti.Prelude.{
  ℕ, ◌+◌, ◌-◌, ◌*◌, true, not, Option, none, some, [], ◌∷◌, ◌++◌, Text, text, length, if◌then◌else◌,
}
use rust_llm_gateway_semanti.Prelude.Maps.{get_or}
use rust_llm_gateway_semanti.Prelude.Results.{Result, ok, err}
use rust_llm_gateway_semanti.Services.{Services}
use rust_llm_gateway_semanti.Metrics.{
  record_request, record_error, record_cache_hit, record_cache_miss,
}
use rust_llm_gateway_semanti.Error.{AppError, rate_limited, from_json_rejection, internal}
use rust_llm_gateway_semanti.Bucket.{token, ReservationHandle, Reserved, handle, refused}
use rust_llm_gateway_semanti.ExactCache as ExactCache
use rust_llm_gateway_semanti.State.{ClientIdentity}
use rust_llm_gateway_semanti.Failover.{Outcome, dispatch}
use rust_llm_gateway_semanti.Types.{ChatCompletionRequest}
use rust_llm_gateway_semanti.Handlers.{
  full, Response, Env, M, return, emit, now, await, record_latency, reserve, reconcile, drop_left,
  ◌>>=◌, ◌>>◌,
}
use rust_llm_gateway_semanti.Attempts.{Call, json, try_candidate}

module _ {Value : Type 0} where
  -- `stream_options` are added to a streaming request without them.
  unfoldable pub with_usage : ChatCompletionRequest Value → ChatCompletionRequest Value
  with_usage payload = elim payload.stream_options [
    | some _ ↦ payload
    | none ↦
        if payload.stream
        then record payload { stream_options = some (record { include_usage = true }) }
        else payload
  ]

  -- In tokens; the bucket counts amounts of `1 / token`.
  unfoldable pub estimated_tokens : ChatCompletionRequest Value → ℕ
  estimated_tokens payload = get_or 256 payload.max_tokens + length payload.messages * 20

module _ (services : Services) (env : Env services.Store) where
  open services use {Value, Store}

  -- 5 and 6.
  unfoldable pub dispatch_call : Call → ReservationHandle → M Store Outcome
  dispatch_call call h =
      dispatch env (λ candidate. try_candidate services env call candidate h)
        (text "no available providers (all circuit breakers open)") h

  unfoldable pub lookup : Text → M Store (Option Text)
  lookup key = do
    t ← now env
    found ← λ w. (w, ExactCache.get services w.app.exact_cache key t)
    await env
    return found

  unfoldable pub cached_answer : Text → Text → ℕ → Text → ReservationHandle → M Store Outcome
  cached_answer client_id model request_start cached h = do
    reconcile env client_id h 0
    emit (record_cache_hit (text "exact"))
    record_latency env request_start
    emit (record_request model (text "cache_hit"))
    return (
      ok (record {
        status = 200;
        headers = json ∷ (text "x-cache", text "HIT") ∷ [];
        body = full cached;
      }),
      none,
    )

  -- 4.
  unfoldable pub after_lookup : Call → Text → Option Text → ReservationHandle → M Store Outcome
  after_lookup call model (some cached) h =
      cached_answer call.client_id model call.request_start cached h
  after_lookup call model none h = do emit (record_cache_miss (text "exact")); dispatch_call call h

  unfoldable pub with_cache : Call → Text → Option Text → ReservationHandle → M Store Outcome
  with_cache call model none h = dispatch_call call h
  with_cache call model (some key) h = do found ← lookup key; after_lookup call model found h

  -- 3. `prompt_payload` is also what `to_vec` gives as the body of the requests.
  unfoldable pub call_of : ClientIdentity → ChatCompletionRequest Value → ℕ → Text → Call
  call_of identity payload request_start prompt_payload = record {
    client_id = identity.client_id;
    is_stream = payload.stream;
    cache_key =
        if not payload.stream
        then ExactCache.compute_key services payload.model prompt_payload payload.temperature
        else none;
    body_bytes = prompt_payload;
    request_start = request_start;
  }

  unfoldable pub with_payload :
      ClientIdentity
      → ChatCompletionRequest Value
      → ℕ
      → Result Text Text
      → ReservationHandle
      → M Store Outcome
  with_payload identity payload request_start (err e) h =
      return (err (internal (text "failed to serialize payload: " ++ e)), some h)
  with_payload identity payload request_start (ok prompt_payload) h =
      let call = call_of identity payload request_start prompt_payload in
      with_cache call payload.model call.cache_key h

  module _ (serialize : ChatCompletionRequest Value → Result Text Text) where
    unfoldable pub admitted :
        ClientIdentity → ChatCompletionRequest Value → ℕ → ReservationHandle → M Store Outcome
    unfolding with_payload
    admitted identity payload request_start h =
        with_payload identity payload request_start (serialize payload) h

    -- 2. The answer of the reservation.
    unfoldable pub after_reserve :
        ClientIdentity
        → ChatCompletionRequest Value
        → ℕ
        → Reserved
        → M Store (Result Response AppError)
    after_reserve identity payload request_start (refused retry_after) = do
      emit (record_error (text "rate_limit") (text "tpm_exceeded"))
      return (err (rate_limited retry_after))
    after_reserve identity payload request_start (handle h) = do
      outcome ← admitted identity (with_usage payload) request_start h
      let (result, left) = outcome
      drop_left env identity.client_id left
      return result

    -- 1. The payload is what the extractor of axum makes of the request.
    unfoldable pub chat_completions :
        ClientIdentity
        → Result (ChatCompletionRequest Value) Text
        → M Store (Result Response AppError)
    chat_completions identity (err e) = return (err (from_json_rejection e))
    chat_completions identity (ok payload) = do
      request_start ← now env
      reserved ← reserve env identity.client_id (estimated_tokens payload * token)
      after_reserve identity payload request_start reserved
