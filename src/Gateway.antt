-- ===== src/Gateway.antt =====
-- The whole gateway: build_router of src/lib.rs with src/middleware/trace.rs, src/handlers/health.rs and
-- src/handlers/metrics.rs around the two API routes.
-- A streaming answer is read to its end within its route, before `trace_middleware` reads the clock
-- again; the gateway hands it over first. Tracing spans and log lines are not modelled, nor the two
-- request extensions of `trace_middleware`, which nothing reads.
pub mod Guard
pub mod Trace
use rust_llm_gateway_semanti.Prelude.{
  ℕ, ◌+◌, ◌-◌, ◌/◌, ◌%◌, Bool, ◌&&◌, ◌||◌, Option, none, some, List, [], ◌∷◌, ◌++◌, Text, text,
  text_eq, length, if◌then◌else◌,
}
use rust_llm_gateway_semanti.Prelude.Maps.{insert}
use rust_llm_gateway_semanti.Prelude.Decimal.{to_decimal}
use rust_llm_gateway_semanti.Prelude.Results.{Result, ok, err}
use rust_llm_gateway_semanti.Services.{Services}
use rust_llm_gateway_semanti.Metrics.{Sample, record_request_latency}
use rust_llm_gateway_semanti.Error.{AppError, ErrorDetail, into_response}
use rust_llm_gateway_semanti.State.{AppState, ClientIdentity}
use rust_llm_gateway_semanti.Types.{ChatCompletionRequest, EmbeddingRequest}
use rust_llm_gateway_semanti.Handlers.{
  Response, full, World, Env, M, return, emit, now, ◌>>=◌, ◌>>◌,
}
use rust_llm_gateway_semanti.Admission.{Handler, api_route}
use rust_llm_gateway_semanti.Attempts.{json}
use rust_llm_gateway_semanti.Chat.{chat_completions}
use rust_llm_gateway_semanti.Embeddings.{embeddings}

-- What is read of a request before its body.
pub record Request : Type 0 where
  pub method : Text
  pub path : Text
  pub authorization : Option Text
  pub content_length : Option ℕ
  pub body : Text

-- The body of `healthz`.
pub record Health : Type 0 where
  pub status : Text
  pub providers_configured : ℕ
  pub circuit_breakers_tracked : ℕ

-- What is third-party in the stack: the identifiers of uuid, the answers of axum and tower-http to
-- the requests that reach no handler, the extractors, JSON, and the recorder's snapshot.
pub record Web (services : Services) : Type 0 where
  pub new_v4 : ℕ → Text
  -- `RequestBodyLimitLayer`: what it answers itself, if it does.
  pub over_limit : ℕ → Request → Option Response
  pub not_found : Request → Response
  pub method_not_allowed : Request → Response
  pub chat_payload : Request → Result (ChatCompletionRequest services.Value) Text
  pub embedding_payload : Request → Result (EmbeddingRequest services.Value) Text
  pub chat_to_vec : ChatCompletionRequest services.Value → Result Text Text
  pub embedding_to_vec : EmbeddingRequest services.Value → Result Text Text
  pub error_json : ErrorDetail → Text
  pub health_json : Health → Text
  pub render : List Sample → Text

-- `format!("{:.2}", elapsed.as_secs_f64() * 1000.0)`, of nanoseconds and rounded at one half upwards.
unfoldable pub milliseconds : ℕ → Text
milliseconds elapsed =
    let hundredths = (elapsed + 5000) / 10000 in
    to_decimal (hundredths / 100)
    ++ text "."
    ++ to_decimal (hundredths / 10 % 10)
    ++ to_decimal (hundredths % 10)

-- `headers_mut().insert(name, val)`, if the value parses.
abbrev pub insert_parsed : Text → Option Text → Response → Response
insert_parsed name none r = r
insert_parsed name (some val) r = record r { headers = insert name val r.headers }

-- axum answers HEAD where GET is routed, without the body.
unfoldable pub without_body : Response → Response
without_body r = record r { body = full [] }

module _ (services : Services) where
  open services use {Store, header_value}

  -- The end of `trace_middleware`.
  unfoldable pub stamp : Text → ℕ → Response → Response
  stamp request_id elapsed response =
      insert_parsed (text "x-response-time-ms") (header_value (milliseconds elapsed))
        (insert_parsed (text "x-request-id") (header_value request_id) response)

  unfoldable pub trace_middleware : Env Store → Text → M Store Response → M Store Response
  trace_middleware env request_id next = do
    start ← now env
    response ← next
    t ← now env
    emit (record_request_latency (t - start))
    return (stamp request_id (t - start) response)

module _ (services : Services) (web : Web services) where
  open services use {Store}

  -- `IntoResponse` for what a handler under `/v1` returns.
  unfoldable pub answer_of : Result Response AppError → Response
  answer_of (ok response) = response
  answer_of (err e) =
      let r = into_response services e in
      record { status = r.status; headers = json ∷ r.headers; body = full (web.error_json r.body) }

  unfoldable pub healthz : M Store Response
  healthz w = (
    w,
    record {
      status = 200;
      headers = json ∷ [];
      body = full (
          web.health_json (record {
            status = text "ok";
            providers_configured = length w.app.config.providers;
            circuit_breakers_tracked = length w.app.circuit_breakers;
          }));
    },
  )

  unfoldable pub prometheus_metrics : M Store Response
  prometheus_metrics w = (
    w,
    record {
      status = 200;
      headers = (text "content-type", text "text/plain; version=0.0.4; charset=utf-8") ∷ [];
      body = full (web.render w.samples);
    },
  )

  module _ (env : Env Store) where
    -- A method other than POST is refused behind the middlewares of the API.
    unfoldable pub posted :
        Request → (ClientIdentity → Handler Store) → ClientIdentity → Handler Store
    posted req handler identity =
        if text_eq req.method (text "POST")
        then handler identity
        else return (ok (web.method_not_allowed req))

    unfoldable pub api : Request → (ClientIdentity → Handler Store) → M Store Response
    unfolding posted
    api req handler = do
      result ← api_route services env req.authorization (posted req handler)
      return (answer_of result)

    unfoldable pub chat_handler : Request → ClientIdentity → Handler Store
    chat_handler req identity =
        chat_completions services env web.chat_to_vec identity (web.chat_payload req)

    unfoldable pub embeddings_handler : Request → ClientIdentity → Handler Store
    embeddings_handler req identity =
        embeddings services env web.embedding_to_vec identity (web.embedding_payload req)

    unfoldable pub public : Request → M Store Response → M Store Response
    public req handler =
        if text_eq req.method (text "GET")
        then handler
        else if text_eq req.method (text "HEAD")
        then (do response ← handler; return (without_body response))
        else return (web.method_not_allowed req)

    -- `api_routes` and `public_routes`.
    unfoldable pub routes : Request → M Store Response
    unfolding chat_handler embeddings_handler
    routes req =
        if text_eq req.path (text "/v1/chat/completions")
        then api req (chat_handler req)
        else if text_eq req.path (text "/v1/embeddings")
        then api req (embeddings_handler req)
        else if text_eq req.path (text "/healthz")
        then public req healthz
        else if text_eq req.path (text "/metrics")
        then public req prometheus_metrics
        else return (web.not_found req)

    -- The identifier is drawn when the request passes the body limit.
    unfoldable pub limited : Option Response → Request → M Store Response
    limited (some refusal) req w = (w, refusal)
    limited none req w = trace_middleware services env (web.new_v4 w.tick) (routes req) w

    unfoldable pub build_router : Request → M Store Response
    unfolding limited
    build_router req w = limited (web.over_limit w.app.config.server.max_body_bytes req) req w
