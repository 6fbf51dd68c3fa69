-- ===== src/Tests/Serving.antt =====
-- Billing and the whole gateway at concrete inputs.
use rust_llm_gateway_semanti.Prelude.{
  ℕ, ◌-◌, ◌*◌, ◌≡◌, refl, false, none, some, Option, [], ◌∷◌, Text, text, text_eq, arith,
}
use rust_llm_gateway_semanti.Prelude.Maps.{Map, get}
use rust_llm_gateway_semanti.Prelude.Results.{Result, ok, err}
use rust_llm_gateway_semanti.Prelude.Floats.{float_zero}
use rust_llm_gateway_semanti.Error.{unauthorized}
use rust_llm_gateway_semanti.Metrics.{record_request_latency}
use rust_llm_gateway_semanti.Bucket as Bucket
use rust_llm_gateway_semanti.Bucket.{token}
use rust_llm_gateway_semanti.Auth.{authenticate, extract_api_key}
use rust_llm_gateway_semanti.State.{ClientIdentity, buckets_for}
use rust_llm_gateway_semanti.Stream.{ended}
use rust_llm_gateway_semanti.Types.{ChatCompletionRequest, EmbeddingRequest, string}
use rust_llm_gateway_semanti.Handlers.{World, Env, Response, answered, full, now}
use rust_llm_gateway_semanti.Failover.Billing.{HasTpm, settle, tpm_of, fresh_handle}
use rust_llm_gateway_semanti.Chat.{chat_completions, estimated_tokens}
use rust_llm_gateway_semanti.Chat.Bill.{ChatOwes}
use rust_llm_gateway_semanti.Chat.Billing.{chat_settlement}
use rust_llm_gateway_semanti.Embeddings.{embeddings, estimate_embedding_tokens, chars}
use rust_llm_gateway_semanti.Embeddings.Billing.{EmbeddingOwes, embedding_settlement}
use rust_llm_gateway_semanti.Gateway.{Request, Web, healthz, public, routes, build_router}
use rust_llm_gateway_semanti.Gateway.Guard.{unauthenticated_untouched}
use rust_llm_gateway_semanti.Gateway.Trace.{traced}
use rust_llm_gateway_semanti.Tests.Samples.{sample_services, sample-IsDocumented, sample_state}

-- Every provider answers with a body that has a usage.
abbrev pub healthy : Env (Map Text)
healthy = record {
  clock = λ t. t;
  answer = λ n req. answered 200 (some (text "usageprompt_tokens")) (ended 0);
  during = λ n app. app;
}

abbrev initial : World (Map Text)
initial = record { app = sample_state; samples = []; sent = []; tick = 100 }

abbrev pub identity : ClientIdentity
identity = record { client_id = text "c1"; tier = text "free" }

abbrev pub chat_request : ChatCompletionRequest Text
chat_request = record {
  model = text "m";
  messages = [];
  stream = false;
  stream_options = none;
  temperature = float_zero;
  top_p = float_zero;
  seed = none;
  tools = none;
  tool_choice = none;
  response_format = none;
  max_tokens = none;
  stop = none;
  extra = [];
}

abbrev embedding_request : EmbeddingRequest Text
embedding_request = record {
  model = text "m";
  input = string (text "hello");
  encoding_format = none;
  dimensions = none;
  user = none;
  extra = [];
}

abbrev pub chat_to_vec : ChatCompletionRequest Text → Result Text Text
chat_to_vec r = ok (text "{}")

abbrev embedding_to_vec : EmbeddingRequest Text → Result Text Text
embedding_to_vec r = ok (text "{}")

abbrev chat_cost : ℕ
chat_cost = estimated_tokens chat_request * token

chat_granted :
    (Bucket.try_consume (tpm_of identity.client_id initial 101) chat_cost 101).1 ≡ Bucket.ok
unfolding buckets_for estimated_tokens get Bucket.try_consume Bucket.refill Bucket.from_config
    Bucket.new
chat_granted = refl

chat_settlement_example :
    let r =
      chat_completions sample_services healthy chat_to_vec identity (ok chat_request) initial in
    let before = tpm_of identity.client_id initial 101 in
    (bill : Option ℕ) × ChatOwes sample_services healthy r.1 bill
    × ((k : ℕ) × HasTpm identity.client_id
          (settle (Bucket.try_consume before chat_cost 101).0 (fresh_handle chat_cost) bill k)
          r.0)
chat_settlement_example =
    chat_settlement sample_services healthy identity (λ n app. (refl, refl)) chat_to_vec
      chat_request initial chat_granted

abbrev embedding_cost : ℕ
embedding_cost = estimate_embedding_tokens (string (text "hello"))

embedding_granted :
    (Bucket.try_consume (tpm_of identity.client_id initial 101) embedding_cost 101).1 ≡ Bucket.ok
unfolding buckets_for estimate_embedding_tokens chars get Bucket.try_consume Bucket.refill
    Bucket.from_config Bucket.new
embedding_granted = refl

embedding_settlement_example :
    let r =
      embeddings sample_services healthy embedding_to_vec identity (ok embedding_request) initial in
    let before = tpm_of identity.client_id initial 101 in
    (bill : Option ℕ) × EmbeddingOwes sample_services healthy r.1 bill
    × ((k : ℕ) × HasTpm identity.client_id
          (settle
            (Bucket.try_consume before embedding_cost 101).0
            (fresh_handle embedding_cost)
            bill
            k)
          r.0)
embedding_settlement_example =
    embedding_settlement sample_services healthy identity (λ n app. (refl, refl)) embedding_to_vec
      embedding_request initial embedding_granted

abbrev plain : Text → Response
plain message = record { status = 404; headers = []; body = full message }

abbrev pub web : Web sample_services
web = record {
  new_v4 = λ n. text "id";
  over_limit = λ limit req. none;
  not_found = λ req. plain (text "not found");
  method_not_allowed = λ req. plain (text "method not allowed");
  chat_payload = λ req. ok chat_request;
  embedding_payload = λ req. ok embedding_request;
  chat_to_vec = chat_to_vec;
  embedding_to_vec = embedding_to_vec;
  error_json = λ e. e.message;
  health_json = λ h. h.status;
  render = λ samples. text "metrics";
}

abbrev post : Request
post = record {
  method = text "POST";
  path = text "/v1/chat/completions";
  authorization = none;
  content_length = some 2;
  body = text "{}";
}

-- A known client.
abbrev pub keyed : Request
keyed = record post { authorization = some (text "Bearer key") }

abbrev opened : World (Map Text)
opened = record initial { app = record sample_state { credentials = (text "key", identity) ∷ [] } }

without_key : authenticate sample_services initial.app none ≡ err unauthorized
unfolding authenticate extract_api_key
without_key = refl

unauthenticated_untouched_example :
    ((build_router sample_services web healthy post initial).0.app ≡ initial.app)
    × ((build_router sample_services web healthy post initial).0.sent ≡ initial.sent)
unauthenticated_untouched_example =
    unauthenticated_untouched sample_services web healthy post unauthorized
      (λ app. app ≡ initial.app) (λ n app same. same) (λ n app. refl) initial without_key refl

-- A load balancer asks for the health.
abbrev probe : Request
probe = record post { method = text "GET"; path = text "/healthz" }

probe_whole :
    (routes sample_services web healthy probe (now healthy opened).0).1.body ≡ full (text "ok")
unfolding routes public healthz text_eq
probe_whole = refl

traced_example :
    let inner = routes sample_services web healthy probe (now healthy opened).0 in
    let outer = build_router sample_services web healthy probe opened in
    (outer.1.status ≡ inner.1.status)
    × (outer.1.body ≡ full (text "ok"))
    × (get (text "x-request-id") outer.1.headers ≡ some (text "id"))
    × (outer.0.app ≡ (now healthy inner.0).0.app)
    × (outer.0.samples ≡ record_request_latency (inner.0.tick - 100) ∷ inner.0.samples)
traced_example =
    traced sample_services sample-IsDocumented web healthy probe opened (text "ok") refl
      ((omega arith, omega arith), ((omega arith, omega arith), tt)) probe_whole
