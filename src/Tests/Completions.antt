-- ===== src/Tests/Completions.antt =====
-- The chat handler at concrete inputs.
use rust_llm_gateway_semanti.Prelude.{ℕ, ◌≡◌, ◌*◌, refl, false, none, List, [], ◌∷◌, Text, text}
use rust_llm_gateway_semanti.Prelude.Maps.{Map}
use rust_llm_gateway_semanti.Prelude.Results.{Result, ok, err}
use rust_llm_gateway_semanti.Prelude.Floats.{float_zero}
use rust_llm_gateway_semanti.Error.{AppError, upstream}
use rust_llm_gateway_semanti.Bucket.{token, ReservationHandle, handle}
use rust_llm_gateway_semanti.Bucket as Bucket
use rust_llm_gateway_semanti.State.{ClientIdentity}
use rust_llm_gateway_semanti.Selector.{SelectedProvider}
use rust_llm_gateway_semanti.Stream.{ended}
use rust_llm_gateway_semanti.Types.{ChatCompletionRequest}
use rust_llm_gateway_semanti.Handlers.{
  World, Env, answered, is_retryable_upstream_status, is_non_retryable_client_error, now, await,
  send, allow_request, record_failure, reserve, drop_left, select,
}
use rust_llm_gateway_semanti.Failover.{attempt, failover, dispatch, dispatch_to, classify}
use rust_llm_gateway_semanti.Attempts.{Call, try_candidate, on_answer, on_status}
use rust_llm_gateway_semanti.Chat.{
  chat_completions, after_reserve, with_usage, estimated_tokens, admitted, with_payload, call_of,
  with_cache, lookup, after_lookup, dispatch_call,
}
use rust_llm_gateway_semanti.Breaker as Breaker
use rust_llm_gateway_semanti.ExactCache as ExactCache
use rust_llm_gateway_semanti.Prelude.Maps.{get, insert}
use rust_llm_gateway_semanti.Prelude.Decimal.{to_decimal, digits_from}
use rust_llm_gateway_semanti.Prelude.{text_eq}
use rust_llm_gateway_semanti.Client.{build_chat_request, build_request, trim_end_matches}
use rust_llm_gateway_semanti.Selector.{select_ordered, select_from}
use rust_llm_gateway_semanti.State.{new_breaker, buckets_for, breaker_for}
use rust_llm_gateway_semanti.Failover.Status.{IsVerdict, classify_lem}
use rust_llm_gateway_semanti.Chat.Slots.{IsSettled, slot_returned}
use rust_llm_gateway_semanti.Chat.Requests.{requests_in_order}
use rust_llm_gateway_semanti.Failover.Order.{IsOrdered}
use rust_llm_gateway_semanti.Tests.Samples.{
  sample_services, sample-IsDocumented, sample_state, alpha, beta,
}

-- Every provider is down.
abbrev outage : Env (Map Text)
outage = record {
  clock = λ t. t;
  answer = λ n req. answered 503 none (ended 0);
  during = λ n app. app;
}

abbrev initial : World (Map Text)
initial = record { app = sample_state; samples = []; sent = []; tick = 100 }

abbrev held : ReservationHandle
held = record { reserved = 5; reconciled = false }

abbrev identity : ClientIdentity
identity = record { client_id = text "c1"; tier = text "free" }

abbrev request : ChatCompletionRequest Text
request = record {
  model = text "m";
  messages = [];
  stream = false;
  stream_options = none;
  temperature = float_zero;
  top_p = float_zero;
  seed = none;
  tools = none;
  tool_choice = none;
  response_format = none;
  max_tokens = none;
  stop = none;
  extra = [];
}

abbrev serialize : ChatCompletionRequest Text → Result Text Text
serialize r = ok (text "{}")

abbrev call : Call
call = record {
  client_id = text "c1";
  is_stream = false;
  cache_key = none;
  body_bytes = text "{}";
  request_start = 0;
}

abbrev beta_candidate : SelectedProvider
beta_candidate = record { config = beta; breaker = text "beta" }

abbrev candidates : List SelectedProvider
candidates =
    record { config = beta; breaker = text "beta" }
    ∷ record { config = alpha; breaker = text "alpha" }
    ∷ []

classify_lem_example : IsVerdict 503 (classify sample_services 503)
classify_lem_example = classify_lem sample_services sample-IsDocumented 503

abbrev outage_error : AppError
outage_error = upstream (text "alpha returned 503")

abbrev granted : ReservationHandle
granted = record { reserved = 256 * token; reconciled = false }

abbrev cost : ℕ
cost = estimated_tokens request * token

reservation_granted :
    (reserve outage identity.client_id cost (now outage initial).0).1 ≡ handle granted
unfolding reserve now buckets_for estimated_tokens get insert Bucket.try_reserve_tpm
    Bucket.try_consume Bucket.refill Bucket.from_config Bucket.new
reservation_granted = refl

outage_fails :
    (chat_completions sample_services outage serialize identity (ok request) initial).1
    ≡ err outage_error
unfolding admitted with_payload call_of with_cache lookup after_lookup dispatch_call dispatch
    dispatch_to failover attempt try_candidate on_answer on_status classify
    is_retryable_upstream_status is_non_retryable_client_error now await send allow_request
    record_failure select select_ordered select_from new_breaker breaker_for get insert text_eq
    to_decimal Breaker.new Breaker.is_eligible Breaker.allow_request Breaker.record_failure
    ExactCache.compute_key ExactCache.get build_chat_request build_request trim_end_matches
    digits_from chat_completions after_reserve reserve buckets_for with_usage estimated_tokens
    drop_left Bucket.try_reserve_tpm Bucket.try_consume Bucket.refill Bucket.from_config Bucket.new
    Bucket.drop_handle Bucket.refund
outage_fails = refl

requests_in_order_example :
    IsOrdered
      (λ c. build_chat_request c.config call.body_bytes)
      candidates
      []
      (failover outage
        (λ c. try_candidate sample_services outage call c held)
        held
        candidates
        none
        initial).0.sent
requests_in_order_example =
    requests_in_order sample_services outage call held candidates none initial

slot_returned_example :
    IsSettled
      (text "beta")
      (try_candidate sample_services outage call beta_candidate held initial).0.app.circuit_breakers
slot_returned_example =
    slot_returned sample_services outage (λ n app. refl) call beta_candidate held initial
