-- ===== src/Attempts.antt =====
-- What src/handlers/chat.rs does with one candidate: the body of its failover loop, from the request to
-- the answer. A streaming response is consumed after the handler has returned; its callbacks run after
-- the last sample of the handler, in their order, and other tasks before each.
use rust_llm_gateway_semanti.Prelude.{
  ℕ, ◌+◌, ◌-◌, ◌*◌, ◌%◌, ◌^◌, Bool, Option, none, some, List, [], ◌∷◌, ◌++◌, Text, text,
  if◌then◌else◌,
}
use rust_llm_gateway_semanti.Prelude.Utf8.{from_utf8_lossy}
use rust_llm_gateway_semanti.Prelude.Results.{ok, err}
use rust_llm_gateway_semanti.Services.{Services}
use rust_llm_gateway_semanti.Metrics.{
  record_request, record_error, record_tokens, record_ttft, record_upstream_latency,
}
use rust_llm_gateway_semanti.Error.{bad_request}
use rust_llm_gateway_semanti.Bucket.{token, ReservationHandle}
use rust_llm_gateway_semanti.ExactCache as ExactCache
use rust_llm_gateway_semanti.Config.{ProviderConfig}
use rust_llm_gateway_semanti.Selector.{SelectedProvider}
use rust_llm_gateway_semanti.Client.{build_chat_request}
use rust_llm_gateway_semanti.Sse.{token_count}
use rust_llm_gateway_semanti.Stream.{
  Arrivals, Callback, on_usage, on_stream_error, first_token, proxy_stream_passthrough,
}
use rust_llm_gateway_semanti.Failover.{
  Attempt, failed_over, finished, Verdict, retry, reject, accept, classify,
}
use rust_llm_gateway_semanti.Handlers.{
  Sent, no_answer, answered, streamed, build_response, World, Env, M, return, emit, now, await,
  send, record_success, record_failure, record_latency, reconcile, ◌>>=◌, ◌>>◌,
}

-- What the loop knows of the request.
pub record Call : Type 0 where
  pub client_id : Text
  pub is_stream : Bool
  pub cache_key : Option Text
  pub body_bytes : Text
  pub request_start : ℕ

abbrev pub stored_at : {Store : Type 0} → (Store → ℕ → Store) → ℕ → World Store → World Store
stored_at f t w = record w { app = record w.app { exact_cache = f w.app.exact_cache t } }

abbrev pub json : Text × Text
json = (text "content-type", text "application/json")

module _ (services : Services) (env : Env services.Store) where
  open services use {Value, Store, from_str, field, status_text}

  -- `r.reconcile(total as f64)`, if the reservation is still held; the sum wraps at 64 bits.
  unfoldable pub charge : Text → Text → ℕ → ℕ → Option ReservationHandle → M Store Unit
  charge client_id name prompt completion held = do
    emit (record_tokens name (text "prompt") prompt)
    emit (record_tokens name (text "completion") completion)
    elim held [
      | none ↦ return tt
      | some h ↦ reconcile env client_id h ((prompt + completion) % 2 ^ 64 * token)
    ]

  -- The callbacks of a stream, with the reservation that they own.
  unfoldable pub run_callbacks :
      Text
      → Text
      → ℕ
      → List Callback
      → Option ReservationHandle
      → M Store (Option ReservationHandle)
  unfolding charge
  run_callbacks client_id name request_start [] held = return held
  run_callbacks client_id name request_start (on_usage p c ∷ calls) held = do
    await env
    charge client_id name p c held
    run_callbacks client_id name request_start calls none
  run_callbacks client_id name request_start (on_stream_error ∷ calls) held = do
    await env
    record_failure env name
    run_callbacks client_id name request_start calls held
  run_callbacks client_id name request_start (first_token at ∷ calls) held = do
    await env
    emit (record_ttft name at)
    run_callbacks client_id name request_start calls held

  -- 7a.
  unfoldable pub stream_answer :
      Text → ProviderConfig → ℕ → Arrivals → ReservationHandle → M Store Attempt
  stream_answer client_id provider request_start arrivals h = do
    let r = proxy_stream_passthrough services arrivals provider.stream_idle_timeout_seconds
    record_latency env request_start
    await env
    left ← run_callbacks client_id provider.name request_start r.callbacks (some h)
    return (
        finished (ok (record { status = r.status; headers = r.headers; body = streamed r.outputs }))
          left)

  -- The usage of a body, if it is JSON with that field.
  unfoldable pub usage_of : Text → Option (ℕ × ℕ)
  usage_of body_str = elim (from_str body_str) [
    | none ↦ none
    | some usage_val ↦ elim (field usage_val (text "usage")) [
      | none ↦ none
      | some usage ↦ some (
        token_count services usage (text "prompt_tokens"),
        token_count services usage (text "completion_tokens"),
      )
    ]
  ]

  -- `exact_cache.insert(key, value).await`
  unfoldable pub remember : Option Text → Text → M Store Unit
  remember none value = return tt
  remember (some key) value = do
    t ← now env
    λ w. (stored_at (λ cache at. ExactCache.insert services cache key value at) t w, tt)
    await env

  unfoldable pub charge_usage :
      Text → Text → Option (ℕ × ℕ) → ReservationHandle → M Store (Option ReservationHandle)
  charge_usage client_id name none h = return (some h)
  charge_usage client_id name (some (p, c)) h = do charge client_id name p c (some h); return none

  -- 7b.
  unfoldable pub body_answer :
      Text → Option Text → ProviderConfig → ℕ → Option Text → ReservationHandle → M Store Attempt
  body_answer client_id cache_key provider request_start body h = do
    await env
    elim body [
      | none ↦ do
        record_failure env provider.name
        emit (record_error provider.name (text "body_read_error"))
        return (failed_over (provider.name ++ text ": body read error"))
      | some resp_body_bytes ↦ do
        let body_str = from_utf8_lossy resp_body_bytes
        remember cache_key body_str
        left ← charge_usage client_id provider.name (usage_of body_str) h
        record_latency env request_start
        return (
            finished
              (build_response services (json ∷ (text "x-cache", text "MISS") ∷ []) provider.name
                body_str)
              left)
    ]

  -- After a status that is neither retried nor rejected.
  unfoldable pub accepted :
      Call → ProviderConfig → ℕ → Option Text → Arrivals → ReservationHandle → M Store Attempt
  accepted call provider upstream_start body arrivals h = do
    record_success env provider.name
    emit (record_request provider.name (text "success"))
    t ← now env
    emit (record_upstream_latency provider.name (t - upstream_start))
    (if call.is_stream
        then stream_answer call.client_id provider call.request_start arrivals h
        else body_answer call.client_id call.cache_key provider call.request_start body h)

  unfoldable pub on_status :
      Call
      → ProviderConfig
      → ℕ
      → Verdict
      → ℕ
      → Option Text
      → Arrivals
      → ReservationHandle
      → M Store Attempt
  on_status call provider upstream_start retry status body arrivals h = do
    record_failure env provider.name
    emit (record_error provider.name (text "retryable_error"))
    return (failed_over (provider.name ++ text " returned " ++ status_text status))
  on_status call provider upstream_start reject status body arrivals h = do
    record_success env provider.name
    emit (record_error provider.name (text "client_error"))
    return (
        finished (err (bad_request (text "upstream rejected request with " ++ status_text status)))
          (some h))
  on_status call provider upstream_start accept status body arrivals h =
      accepted call provider upstream_start body arrivals h

  unfoldable pub on_answer : Call → ProviderConfig → ℕ → Sent → ReservationHandle → M Store Attempt
  on_answer call provider upstream_start no_answer h = do
    record_failure env provider.name
    emit (record_error provider.name (text "connect_error"))
    return (failed_over (provider.name ++ text ": connection error"))
  on_answer call provider upstream_start (answered status body arrivals) h =
      on_status call provider upstream_start (classify services status) status body arrivals h

  unfoldable pub try_candidate : Call → SelectedProvider → ReservationHandle → M Store Attempt
  try_candidate call candidate h = do
    upstream_start ← now env
    sent ← send env (build_chat_request candidate.config call.body_bytes)
    on_answer call candidate.config upstream_start sent h
