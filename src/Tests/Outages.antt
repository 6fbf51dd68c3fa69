-- ===== src/Tests/Outages.antt =====
-- Chat requests while providers are down, at concrete inputs.
use mathlib.Core.List.Memᴰ.{head, tail}
use rust_llm_gateway_semanti.Prelude.{
  false, ◌*◌, ◌≡◌, inl, inr, refl, some, [], ◌∷◌, Text, text, text_eq, if◌then◌else◌, arith,
}
use rust_llm_gateway_semanti.Prelude.Maps.{Map, get}
use rust_llm_gateway_semanti.Prelude.Results.{ok}
use rust_llm_gateway_semanti.Bucket as Bucket
use rust_llm_gateway_semanti.Bucket.{token, handle, ReservationHandle}
use rust_llm_gateway_semanti.Breaker as Breaker
use rust_llm_gateway_semanti.Breaker.{CircuitBreaker}
use rust_llm_gateway_semanti.State.{new_breaker, buckets_for}
use rust_llm_gateway_semanti.Stream.{ended}
use rust_llm_gateway_semanti.Client.{build_chat_request, build_request, trim_end_matches}
use rust_llm_gateway_semanti.Handlers.{
  World, Env, Response, no_answer, answered, now, others, reserve, is_retryable_upstream_status,
  is_non_retryable_client_error,
}
use rust_llm_gateway_semanti.Failover.{classify}
use rust_llm_gateway_semanti.Failover.Spared.{open-Refuses}
use rust_llm_gateway_semanti.Chat.{chat_completions, estimated_tokens}
use rust_llm_gateway_semanti.Chat.Recovery.{Works, Fails}
use rust_llm_gateway_semanti.Chat.Available.{answered_if_one_works}
use rust_llm_gateway_semanti.Chat.Spared.{IsSpared, spares_refusing}
use rust_llm_gateway_semanti.Runs.Isolation.{breaker_in}
use rust_llm_gateway_semanti.Tests.Samples.{
  sample_services, sample_state, sample_config, alpha, beta, open_breaker,
}
use rust_llm_gateway_semanti.Tests.Serving.{identity, chat_request, chat_to_vec}

-- Only alpha answers, and the clock stands.
abbrev partial_outage : Env (Map Text)
partial_outage = record {
  clock = λ t. 9;
  answer = λ n req.
      if text_eq req.url (build_chat_request alpha req.body).url
      then answered 200 (some (text "hi")) (ended 0)
      else no_answer;
  during = λ n app. app;
}

abbrev initial : World (Map Text)
initial = record { app = sample_state; samples = []; sent = []; tick = 0 }

alpha-Works : (body : Text) → Works sample_services partial_outage body alpha
unfolding build_chat_request build_request trim_end_matches text_eq classify
    is_retryable_upstream_status is_non_retryable_client_error
alpha-Works body = ((text "alpha", refl), λ k. (200, text "hi", ended 0, refl, refl))

beta-Fails : (body : Text) → Fails sample_services partial_outage body beta
unfolding build_chat_request build_request trim_end_matches text_eq
beta-Fails body k = inl refl

reserved_now :
    (reserve partial_outage identity.client_id
      (estimated_tokens chat_request * token)
      (now partial_outage initial).0).1
    ≡ handle (record { reserved = estimated_tokens chat_request * token; reconciled = false })
unfolding reserve now others buckets_for get estimated_tokens Bucket.try_reserve_tpm
    Bucket.try_consume Bucket.refill Bucket.from_config Bucket.new
reserved_now = refl

answered_if_one_works_example :
    (answer : Response) × (answer.status ≡ 200)
    × ((chat_completions sample_services partial_outage chat_to_vec identity
          (ok chat_request)
          initial).1
        ≡ ok answer)
unfolding get text_eq new_breaker Breaker.new
answered_if_one_works_example =
    answered_if_one_works sample_services partial_outage alpha (λ n app. refl) (λ n app. refl)
      (new_breaker sample_config.circuit_breaker) refl (beta ∷ alpha ∷ []) (tail (head refl))
      (text "{}") (alpha-Works (text "{}"))
      (inr ((λ e. cc), beta-Fails (text "{}")), (inl refl, tt)) chat_to_vec identity chat_request
      refl (record { reserved = estimated_tokens chat_request * token; reconciled = false }) initial
      reserved_now refl refl

spares_refusing_example :
    let w' =
      (chat_completions sample_services partial_outage chat_to_vec identity
        (ok chat_request)
        initial).0 in
    IsSpared (text "beta") sample_state.sorted_providers [] w'.sent
    × (breaker_in (text "beta") w'.app ≡ open_breaker)
unfolding get text_eq
spares_refusing_example =
    spares_refusing sample_services partial_outage (text "beta") (λ n app. refl) open_breaker
      (open-Refuses partial_outage open_breaker 5 refl refl (λ k. omega arith)) (λ n app. refl)
      sample_state.sorted_providers chat_to_vec identity chat_request initial refl refl
