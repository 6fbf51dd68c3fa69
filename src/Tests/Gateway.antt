-- ===== src/Tests/Gateway.antt =====
-- Admission and the embeddings handler at concrete inputs.
use rust_llm_gateway_semanti.Prelude.{
  ◌+◌, ◌-◌, ◌*◌, ◌≤◌, ◌≡◌, ◌⊎◌, refl, false, none, some, List, [], ◌∷◌, Text, text, text_eq, arith,
}
use rust_llm_gateway_semanti.Prelude.Maps.{Map, get}
use rust_llm_gateway_semanti.Prelude.Results.{ok}
use rust_llm_gateway_semanti.Error.{AppError, bad_request}
use rust_llm_gateway_semanti.Bucket.{ReservationHandle, RateLimitBuckets, token}
use rust_llm_gateway_semanti.Bucket.Refill.{InOrder}
use rust_llm_gateway_semanti.State.{ClientIdentity}
use rust_llm_gateway_semanti.Selector.{SelectedProvider}
use rust_llm_gateway_semanti.Stream.{ended}
use rust_llm_gateway_semanti.Handlers.{World, Env, answered, full, return}
use rust_llm_gateway_semanti.Admission.{Handler, take_rpm, api_route}
use rust_llm_gateway_semanti.Admission.Rates.{Request, asks_of, passes, passes-le-rate}
use rust_llm_gateway_semanti.Admission.Gate.{RunsAfter, handler_guarded}
use rust_llm_gateway_semanti.Embeddings.{EmbeddingCall}
use rust_llm_gateway_semanti.Tests.Samples.{
  sample_services, sample_config, sample_state, low_buckets, alpha, beta,
}

abbrev clients : Map RateLimitBuckets
clients = (text "c1", low_buckets) ∷ []

abbrev requests : List Request
requests =
    record { client_id = text "c1"; at = 150 }
    ∷ record { client_id = text "c2"; at = 160 }
    ∷ record { client_id = text "c1"; at = 170 }
    ∷ []

c1_known : get (text "c1") clients ≡ some low_buckets
unfolding get text_eq
c1_known = refl

in_order : InOrder 100 200 (asks_of (text "c1") requests)
unfolding text_eq
in_order = (omega arith, (omega arith, omega arith))

passes-le-rate_example :
    passes sample_config.rate_limit (text "c1") clients requests * token ≤ token + (200 - 100) * 60
passes-le-rate_example =
    passes-le-rate sample_config.rate_limit (text "c1") clients low_buckets 200 requests c1_known
      in_order

-- Every provider refuses the request.
abbrev refusing : Env (Map Text)
refusing = record {
  clock = λ t. t;
  answer = λ n req. answered 400 none (ended 0);
  during = λ n app. app;
}

abbrev initial : World (Map Text)
initial = record { app = sample_state; samples = []; sent = []; tick = 100 }

abbrev greeting : Text → ClientIdentity → Handler (Map Text)
greeting message identity = return (ok (record { status = 200; headers = []; body = full message }))

handler_guarded_example :
    (api_route sample_services refusing none (greeting (text "a")) initial
      ≡ api_route sample_services refusing none (greeting (text "b")) initial)
    ⊎ ((identity : ClientIdentity) × RunsAfter sample_services refusing none initial identity
        × (api_route sample_services refusing none (greeting (text "a")) initial
            ≡ greeting (text "a") identity (take_rpm refusing identity.client_id initial).0))
handler_guarded_example =
    handler_guarded sample_services refusing none (greeting (text "a")) (greeting (text "b"))
      initial

abbrev held : ReservationHandle
held = record { reserved = 5; reconciled = false }

abbrev identity : ClientIdentity
identity = record { client_id = text "c1"; tier = text "free" }

abbrev refusal : AppError
refusal = bad_request (text "upstream rejected request with 400")

abbrev call : EmbeddingCall
call = record { client_id = text "c1"; body_bytes = text "{}"; request_start = 0 }

abbrev candidates : List SelectedProvider
candidates =
    record { config = beta; breaker = text "beta" }
    ∷ record { config = alpha; breaker = text "alpha" }
    ∷ []
