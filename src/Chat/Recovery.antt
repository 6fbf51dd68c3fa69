-- ===== src/Chat/Recovery.antt =====
-- One attempt of the chat handler, at a provider that works and at one that fails.
use rust_llm_gateway_semanti.Prelude.{
  ℕ, ◌≡◌, ◌⊎◌, inl, inr, refl, ap, Bool-cases, Option, some, Text, text, [], ◌∷◌, ◌++◌,
}
use rust_llm_gateway_semanti.Prelude.Maps.{Map}
use rust_llm_gateway_semanti.Prelude.Results.{ok}
use rust_llm_gateway_semanti.Services.{Services}
use rust_llm_gateway_semanti.Bucket.{ReservationHandle}
use rust_llm_gateway_semanti.Config.{ProviderConfig}
use rust_llm_gateway_semanti.Selector.Members.{candidate_of}
use rust_llm_gateway_semanti.Client.{build_chat_request}
use rust_llm_gateway_semanti.Stream.{Arrivals, proxy_stream_passthrough}
use rust_llm_gateway_semanti.Handlers.{
  build_response, full, no_answer, answered, Response, World, Env, now, send,
}
use rust_llm_gateway_semanti.Failover.{
  Attempt, failed_over, finished, Verdict, retry, accept, classify,
}
use rust_llm_gateway_semanti.Attempts.{
  Call, body_answer, stream_answer, accepted, on_status, on_answer, try_candidate,
}

abbrev pub IsSuccess : Response → Type 0
IsSuccess r = r.status ≡ 200

module _ (services : Services) (env : Env services.Store) where
  open services use {Store, Value}

  -- The provider has a name that can stand in a header, and answers each such request with a status
  -- that is taken for a success, and a body.
  abbrev pub Works : Text → ProviderConfig → Type 0
  Works body p =
      ((name : Text) × (services.header_value p.name ≡ some name))
      × ((k : ℕ)
          → (status : ℕ) × (raw : Text) × (arrivals : Arrivals) × (env.answer k
                (build_chat_request p body)
              ≡ answered status (some raw) arrivals)
            × (classify services status ≡ accept))

  -- The provider does not answer, or with a status that is retried.
  abbrev pub Fails : Text → ProviderConfig → Type 0
  Fails body p =
      (k : ℕ)
      → (env.answer k (build_chat_request p body) ≡ no_answer)
        ⊎ ((status : ℕ) × (raw : Option Text) × (arrivals : Arrivals) × (env.answer k
                (build_chat_request p body)
              ≡ answered status raw arrivals)
            × (classify services status ≡ retry))

  built :
      (provider name body : Text) (headers : Map Text)
      → services.header_value name ≡ some provider
      → build_response services headers name body
        ≡ ok (record {
          status = 200;
          headers = headers ++ ((text "x-provider", provider) ∷ []);
          body = full body;
        })
  unfolding build_response
  built provider name body headers named = rw (named, build_response) refl

  abbrev pub Finishes : Attempt → Type 0
  Finishes a =
      (r : Response) × (left : Option ReservationHandle) × IsSuccess r × (a ≡ finished (ok r) left)

  answer-Finishes :
      (name body : Text) (headers : Map Text) (left : Option ReservationHandle)
      → ((provider : Text) × (services.header_value name ≡ some provider))
      → Finishes (finished (build_response services headers name body) left)
  answer-Finishes name body headers left (provider, named) =
      (_, left, refl, ap (λ r. finished r left) (built provider name body headers named))

  module _ (call : Call) (h : ReservationHandle) where
    body_answer-Finishes :
        (p : ProviderConfig) (raw : Text) (w : World Store)
        → ((name : Text) × (services.header_value p.name ≡ some name))
        → Finishes
            (body_answer services env call.client_id call.cache_key p call.request_start
              (some raw)
              h
              w).1
    unfolding body_answer
    body_answer-Finishes p raw w (name, named) = answer-Finishes p.name _ _ _ (name, named)

    accepted-Finishes :
        (p : ProviderConfig) (t : ℕ) (raw : Text) (arrivals : Arrivals) (w : World Store)
        → ((name : Text) × (services.header_value p.name ≡ some name))
        → Finishes (accepted services env call p t (some raw) arrivals h w).1
    unfolding accepted stream_answer proxy_stream_passthrough
    accepted-Finishes p t raw arrivals w named = elim (Bool-cases call.is_stream) [
      | inl streams ↦ rw streams (_, _, refl, refl)
      | inr reads ↦ rw reads (body_answer-Finishes p raw _ named)
    ]

    on_status-Finishes :
        (p : ProviderConfig) (t : ℕ) (v : Verdict) (status : ℕ) (raw : Text) (arrivals : Arrivals)
        (w : World Store)
        → v ≡ accept
        → ((name : Text) × (services.header_value p.name ≡ some name))
        → Finishes (on_status services env call p t v status (some raw) arrivals h w).1
    unfolding on_status
    on_status-Finishes p t v status raw arrivals w is named =
        rw is (accepted-Finishes p t raw arrivals w named)

    pub works_lem :
        (p : ProviderConfig) (w : World Store)
        → Works call.body_bytes p
        → Finishes (try_candidate services env call (candidate_of p) h w).1
    unfolding try_candidate send on_answer
    works_lem p w works =
        let (status, raw, arrivals, sent, taken) = works.1 (now env w).0.tick in
        rw sent (on_status-Finishes p (now env w).1 _ status raw arrivals _ taken works.0)

    on_status_lem :
        (p : ProviderConfig) (t : ℕ) (v : Verdict) (status : ℕ) (raw : Option Text)
        (arrivals : Arrivals) (w : World Store)
        → v ≡ retry
        → (e : Text) × ((on_status services env call p t v status raw arrivals h w).1
            ≡ failed_over e)
    unfolding on_status
    on_status_lem p t v status raw arrivals w is = rw is (_, refl)

    pub fails_lem :
        (p : ProviderConfig) (w : World Store)
        → Fails call.body_bytes p
        → (e : Text) × ((try_candidate services env call (candidate_of p) h w).1 ≡ failed_over e)
    unfolding try_candidate send on_answer
    fails_lem p w fails = elim (fails (now env w).0.tick) [
      | inl none_came ↦ rw none_came (_, refl)
      | inr (status, raw, arrivals, sent, again) ↦
          rw sent (on_status_lem p (now env w).1 _ status raw arrivals _ again)
    ]
