-- ===== src/Tests/Running.antt =====
-- The runs of the gateway at concrete inputs.
use rust_llm_gateway_semanti.Prelude.{
  ◌*◌, ◌≡◌, ◌⊎◌, refl, arith, ℕ, true, false, starts_with, strip_prefix, none, some, [], ◌∷◌,
  Option, List, Text, text,
}
use rust_llm_gateway_semanti.Prelude.Maps.{Map, get}
use rust_llm_gateway_semanti.Prelude.Utf8.{is_utf8}
use rust_llm_gateway_semanti.Prelude.Results.{Result, ok}
use rust_llm_gateway_semanti.Config.{AppConfig, LoadError, load}
use rust_llm_gateway_semanti.Config as Config
use rust_llm_gateway_semanti.Breaker.Spec.{phase}
use rust_llm_gateway_semanti.Bucket as Bucket
use rust_llm_gateway_semanti.Bucket.{ReservationHandle, token}
use rust_llm_gateway_semanti.Bucket.Refill.{Ask, spend}
use rust_llm_gateway_semanti.Bucket.Waiting.{oversized_for_ever}
use rust_llm_gateway_semanti.State as State
use rust_llm_gateway_semanti.State.{AppState, breaker_named}
use rust_llm_gateway_semanti.State.Invariant.{IsSound}
use rust_llm_gateway_semanti.Handlers.{World}
use rust_llm_gateway_semanti.Admission.{charge_rpm}
use rust_llm_gateway_semanti.Admission.Newcomers.{newcomer_passes}
use rust_llm_gateway_semanti.Failover.{finished}
use rust_llm_gateway_semanti.Attempts.{Call, body_answer}
use rust_llm_gateway_semanti.Chat.{with_cache}
use rust_llm_gateway_semanti.Chat.Replay.{fresh_response, cached_response, found_at, replayed}
use rust_llm_gateway_semanti.Gateway.{build_router}
use rust_llm_gateway_semanti.Runs.Steps.{Steps, unchanged, build_router-Steps}
use rust_llm_gateway_semanti.Runs.Invariant.{always-IsSound}
use rust_llm_gateway_semanti.Runs.Diagram.{phase_after, calls_of, breakers_follow}
use rust_llm_gateway_semanti.Tests.Samples.{
  sample_services, sample-IsDocumented, sample_config, low_bucket, alpha,
}
use rust_llm_gateway_semanti.Tests.Serving.{healthy, web, keyed}

abbrev origin : AppState (Map Text)
origin = State.new sample_services sample_config []

abbrev started : World (Map Text)
started = record { app = origin; samples = []; sent = []; tick = 100 }

abbrev served : AppState (Map Text)
served = (build_router sample_services web healthy keyed started).0.app

build_router-Steps_example : Steps sample_services origin served
build_router-Steps_example =
    build_router-Steps sample_services web healthy keyed started (λ n app. unchanged)

-- The steps of that request, for the two theorems below.
one_request : Steps sample_services origin served
one_request = build_router-Steps sample_services web healthy keyed started (λ n app. unchanged)

always-IsSound_example : IsSound origin served
always-IsSound_example =
    always-IsSound sample_services sample_config [] served (omega arith) (omega arith) one_request

breakers_follow_example :
    phase (breaker_named served.config.circuit_breaker served.circuit_breakers (text "alpha"))
    ≡ phase_after sample_config.circuit_breaker
        (calls_of sample_services (text "alpha") one_request)
breakers_follow_example =
    breakers_follow sample_services sample_config [] (omega arith) (omega arith) served
      (text "alpha") one_request

abbrev built : Result AppConfig Text
built = ok sample_config

built_loads : load built ≡ ok sample_config
unfolding load Config.validate Config.check_providers Config.check_provider Config.check_credentials
    Config.check_credential starts_with strip_prefix
built_loads = refl

newcomer_passes_example : (charge_rpm sample_config.rate_limit [] (text "c1") 5).1 ≡ Bucket.ok
newcomer_passes_example =
    newcomer_passes built sample_config [] (text "c1") 5 built_loads (unfold get in refl)

abbrev asks : List Ask
asks = record { cost = token; at = 150 } ∷ []

oversized_for_ever_example :
    (w : ℕ) × ((Bucket.try_consume (spend low_bucket asks).0 (61 * token) 200).1 ≡ Bucket.err w)
oversized_for_ever_example =
    oversized_for_ever low_bucket asks (61 * token) 200 (omega arith) (omega arith)

abbrev call : Call
call = record {
  client_id = text "c1";
  is_stream = false;
  cache_key = some (text "k");
  body_bytes = text "{}";
  request_start = 0;
}

abbrev held : ReservationHandle
held = record { reserved = 5; reconciled = false }

reply_valid : is_utf8 (text "reply") ≡ true
unfolding is_utf8
reply_valid = refl

replayed_example :
    let first =
      body_answer sample_services healthy
        (text "c1")
        (some (text "k"))
        alpha
        0
        (some (text "reply"))
        held
        started in
    let second =
      with_cache sample_services healthy call (text "m") (some (text "k")) held first.0 in
    ((left : Option ReservationHandle) × (first.1
        ≡ finished (ok (fresh_response (text "alpha") (text "reply"))) left))
    × ((found_at sample_services healthy (λ n app. refl) (text "k") first.0 ≡ none)
        ⊎ ((second.1 ≡ (ok (cached_response (text "reply")), none))
            × (second.0.sent ≡ first.0.sent)))
replayed_example =
    replayed sample_services healthy (λ n app. refl) sample-IsDocumented call (text "m") (text "k")
      (text "reply") (text "alpha") alpha held held started reply_valid refl
