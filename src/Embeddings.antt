-- ===== src/Embeddings.antt =====
-- src/handlers/embeddings.rs: the handler of `/v1/embeddings`.

pub mod Sending
pub mod Billing
use rust_llm_gateway_semanti.Prelude.{
  ℕ, ◌+◌, ◌-◌, ◌*◌, max, Bool, true, false, Option, none, some, List, [], ◌∷◌, ◌++◌, Text, text,
  length, if◌then◌else◌,
}
use rust_llm_gateway_semanti.Prelude.Utf8.{is_utf8}
use rust_llm_gateway_semanti.Prelude.Results.{Result, ok, err}
use rust_llm_gateway_semanti.Services.{Services}
use rust_llm_gateway_semanti.Metrics.{
  record_request, record_error, record_tokens, record_upstream_latency,
}
use rust_llm_gateway_semanti.Error.{
  AppError, rate_limited, upstream, bad_request, from_json_rejection, internal,
}
use rust_llm_gateway_semanti.Bucket.{token, ReservationHandle, Reserved, handle, refused}
use rust_llm_gateway_semanti.State.{ClientIdentity}
use rust_llm_gateway_semanti.Config.{ProviderConfig}
use rust_llm_gateway_semanti.Selector.{SelectedProvider}
use rust_llm_gateway_semanti.Client.{build_embeddings_request}
use rust_llm_gateway_semanti.Sse.{token_count}
use rust_llm_gateway_semanti.Types.{
  EmbeddingInput, string, string_array, token_array, token_matrix, EmbeddingRequest,
}
use rust_llm_gateway_semanti.Failover.{
  Attempt, failed_over, finished, Outcome, Verdict, retry, reject, accept, classify, dispatch,
}
use rust_llm_gateway_semanti.Handlers.{
  Sent, no_answer, answered, build_response, Response, Env, M, return, emit, now, await, send,
  record_success, record_failure, reserve, reconcile, drop_left, record_latency, ◌>>=◌, ◌>>◌,
}

unfoldable pub total_length {ℓ} : {A : Type ℓ} → List (List A) → ℕ
total_length [] = 0
total_length (row ∷ rows) = length row + total_length rows

-- `chars` of `estimate_embedding_tokens`.
unfoldable pub chars : EmbeddingInput → ℕ
chars (string s) = length s
chars (string_array arr) = total_length arr
chars (token_array arr) = length arr * 4
chars (token_matrix mat) = total_length mat * 4

-- In amounts of `1 / token`, of which a quarter of a token is a whole number.
unfoldable pub estimate_embedding_tokens : EmbeddingInput → ℕ
estimate_embedding_tokens input = max (chars input * 15000000000) token

-- What the loop knows of the request.
pub record EmbeddingCall : Type 0 where
  pub client_id : Text
  pub body_bytes : Text
  pub request_start : ℕ

module _ (services : Services) (env : Env services.Store) where
  open services use {Value, Store, from_str, field, status_text, is_success}

  -- `total_tokens` of the body's usage, if the body is JSON with that field. `from_slice` takes no
  -- bytes that are not UTF-8.
  unfoldable pub total_of : Text → Option ℕ
  total_of body = elim (if is_utf8 body then from_str body else none) [
    | none ↦ none
    | some val ↦ elim (field val (text "usage")) [
      | none ↦ none
      | some usage ↦ some (token_count services usage (text "total_tokens"))
    ]
  ]

  unfoldable pub charge_total :
      Text → Text → Option ℕ → ReservationHandle → M Store (Option ReservationHandle)
  charge_total client_id name none h = return (some h)
  charge_total client_id name (some total) h = do
    emit (record_tokens name (text "embedding") total)
    reconcile env client_id h (total * token)
    return none

  -- The answer to `bytes().await`.
  unfoldable pub read_body :
      EmbeddingCall → ProviderConfig → Option Text → ReservationHandle → M Store Attempt
  read_body call provider none h = do
    record_failure env provider.name
    emit (record_error provider.name (text "body_read_error"))
    return (finished (err (upstream (provider.name ++ text ": body read error"))) (some h))
  read_body call provider (some body) h = do
    left ← charge_total call.client_id provider.name (total_of body) h
    record_latency env call.request_start
    return (
        finished
          (build_response services ((text "content-type", text "application/json") ∷ [])
            provider.name body)
          left)

  -- After the two tests of the status: the third one is `is_success`.
  unfoldable pub on_other :
      EmbeddingCall
      → ProviderConfig
      → ℕ
      → Bool
      → ℕ
      → Option Text
      → ReservationHandle
      → M Store Attempt
  on_other call provider upstream_start false status body h = do
    record_failure env provider.name
    emit (record_error provider.name (text "unexpected_status"))
    return (failed_over (provider.name ++ text " returned " ++ status_text status))
  on_other call provider upstream_start true status body h = do
    record_success env provider.name
    emit (record_request provider.name (text "success"))
    t ← now env
    emit (record_upstream_latency provider.name (t - upstream_start))
    await env
    read_body call provider body h

  unfoldable pub on_verdict :
      EmbeddingCall
      → ProviderConfig
      → ℕ
      → Verdict
      → ℕ
      → Option Text
      → ReservationHandle
      → M Store Attempt
  on_verdict call provider upstream_start retry status body h = do
    record_failure env provider.name
    emit (record_error provider.name (text "retryable_error"))
    return (failed_over (provider.name ++ text " returned " ++ status_text status))
  on_verdict call provider upstream_start reject status body h = do
    record_success env provider.name
    emit (record_error provider.name (text "client_error"))
    return (
        finished (err (bad_request (text "upstream rejected request with " ++ status_text status)))
          (some h))
  on_verdict call provider upstream_start accept status body h =
      on_other call provider upstream_start (is_success status) status body h

  unfoldable pub on_sent :
      EmbeddingCall → ProviderConfig → ℕ → Sent → ReservationHandle → M Store Attempt
  on_sent call provider upstream_start no_answer h = do
    record_failure env provider.name
    emit (record_error provider.name (text "connect_error"))
    return (failed_over (provider.name ++ text ": connection error"))
  on_sent call provider upstream_start (answered status body arrivals) h =
      on_verdict call provider upstream_start (classify services status) status body h

  unfoldable pub embed_with : EmbeddingCall → SelectedProvider → ReservationHandle → M Store Attempt
  embed_with call candidate h = do
    upstream_start ← now env
    sent ← send env (build_embeddings_request candidate.config call.body_bytes)
    on_sent call candidate.config upstream_start sent h

  -- 3 and 4.
  unfoldable pub embed_call : EmbeddingCall → ReservationHandle → M Store Outcome
  embed_call call h =
      dispatch env (λ candidate. embed_with call candidate h) (text "no available providers") h

  -- 2. The argument is what `to_vec` gives.
  unfoldable pub embed_payload :
      ClientIdentity → ℕ → Result Text Text → ReservationHandle → M Store Outcome
  embed_payload identity request_start (err e) h =
      return (err (internal (text "failed to serialize payload: " ++ e)), some h)
  embed_payload identity request_start (ok body_bytes) h =
      embed_call
        (record {
          client_id = identity.client_id;
          body_bytes = body_bytes;
          request_start = request_start;
        })
        h

  module _ (serialize : EmbeddingRequest Value → Result Text Text) where
    -- The answer of the reservation.
    unfoldable pub embed_reserved :
        ClientIdentity → EmbeddingRequest Value → ℕ → Reserved → M Store (Result Response AppError)
    embed_reserved identity payload request_start (refused retry_after) = do
      emit (record_error (text "rate_limit") (text "tpm_exceeded"))
      return (err (rate_limited retry_after))
    embed_reserved identity payload request_start (handle h) = do
      outcome ← embed_payload identity request_start (serialize payload) h
      let (result, left) = outcome
      drop_left env identity.client_id left
      return result

    -- 1. The payload is what the extractor of axum makes of the request.
    unfoldable pub embeddings :
        ClientIdentity → Result (EmbeddingRequest Value) Text → M Store (Result Response AppError)
    embeddings identity (err e) = return (err (from_json_rejection e))
    embeddings identity (ok payload) = do
      request_start ← now env
      reserved ← reserve env identity.client_id (estimate_embedding_tokens payload.input)
      embed_reserved identity payload request_start reserved
