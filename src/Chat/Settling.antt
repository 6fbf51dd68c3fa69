-- ===== src/Chat/Settling.antt =====
-- The reservation through one attempt of the chat handler.
use rust_llm_gateway_semanti.Prelude.{
  ℕ, ◌+◌, ◌-◌, text, ◌%◌, ◌^◌, ◌≡◌, refl, subst, sym, Option, none, some, List, [], ◌∷◌, Text,
  text_eq, inl, inr, Bool-cases, Option-cases,
}
use rust_llm_gateway_semanti.Prelude.Maps.{get}
use rust_llm_gateway_semanti.Prelude.Utf8.{from_utf8_lossy}
use rust_llm_gateway_semanti.Services.{Services}
use rust_llm_gateway_semanti.Bucket.{TokenBucket, ReservationHandle}
use rust_llm_gateway_semanti.Metrics.{record_request, record_upstream_latency}
use rust_llm_gateway_semanti.ExactCache as ExactCache
use rust_llm_gateway_semanti.Config.{ProviderConfig}
use rust_llm_gateway_semanti.Selector.{SelectedProvider}
use rust_llm_gateway_semanti.Stream.{
  Arrivals, Callback, on_usage, on_stream_error, first_token, proxy_stream_passthrough,
}
use rust_llm_gateway_semanti.Stream.Usage.{usages}
use rust_llm_gateway_semanti.Handlers.{
  build_response, Sent, no_answer, answered, World, Env, emit, now, await, record_success,
  record_failure, record_latency,
}
use rust_llm_gateway_semanti.Failover.{Attempt, Outcome, Verdict, retry, reject, accept, classify}
use rust_llm_gateway_semanti.Failover.Billing.{
  IsAlone, HasTpm, IsSettling, reconcile_settles, latency_settles, latency_keeps, await_keeps,
  now_keeps, send_keeps, IsSettlingAttempt, IsSettlingOutcome,
}
use rust_llm_gateway_semanti.Attempts.{
  json, Call, stored_at, charge, charge_usage, remember, run_callbacks, stream_answer, usage_of,
  body_answer, accepted, on_status, on_answer, try_candidate,
}
use rust_llm_gateway_semanti.Client.{build_chat_request}
use rust_llm_gateway_semanti.Chat.Bill.{first_of, total, ChatOwes, stream_bill}

module _ (services : Services) (env : Env services.Store) (id : Text) (alone : IsAlone id env) where
  open services use {Store, Value}

  run_callbacks_keeps :
      (name : Text) (start : ℕ) (calls : List Callback) (b : TokenBucket) (w : World Store)
      → HasTpm id b w
      → let r = run_callbacks services env id name start calls none w in
        (r.1 ≡ none) × HasTpm id b r.0
  unfolding run_callbacks charge record_failure
  run_callbacks_keeps name start [] b w has = (refl, has)
  run_callbacks_keeps name start (on_usage p c ∷ calls) b w has =
      run_callbacks_keeps name start calls b _ (await_keeps env id alone b w has)
  run_callbacks_keeps name start (on_stream_error ∷ calls) b w has =
      run_callbacks_keeps name start calls b _
        (now_keeps env id alone b (await env w).0 (await_keeps env id alone b w has))
  run_callbacks_keeps name start (first_token at ∷ calls) b w has =
      run_callbacks_keeps name start calls b _ (await_keeps env id alone b w has)

  module _ (b : TokenBucket) (h : ReservationHandle) where
    charge_settles :
        (name : Text) (p c : ℕ) (w : World Store)
        → HasTpm id b w
        → IsSettling env id b h
            (some ((p + c) % 2 ^ 64))
            none
            (charge services env id name p c (some h) w).0
    unfolding charge
    charge_settles name p c w has = reconcile_settles env id alone b h ((p + c) % 2 ^ 64) _ has

    run_callbacks_settles :
        (name : Text) (start : ℕ) (calls : List Callback) (w : World Store)
        → HasTpm id b w
        → let r = run_callbacks services env id name start calls (some h) w in
          IsSettling env id b h (first_of (usages calls)) r.1 r.0
    unfolding run_callbacks record_failure
    run_callbacks_settles name start [] w has = (refl, refl, has)
    run_callbacks_settles name start (on_usage p c ∷ calls) w has =
        let bill = some ((p + c) % 2 ^ 64) in
        let (n, k, owes, has') = charge_settles name p c _ (await_keeps env id alone b w has) in
        let w' = (charge services env id name p c (some h) (await env w).0).0 in
        let r = run_callbacks services env id name start calls none w' in
        let (spent, kept) = run_callbacks_keeps name start calls _ w' has' in
        subst (λ left. IsSettling env id b h bill left r.0) (sym spent) (n, k, owes, kept)
    run_callbacks_settles name start (on_stream_error ∷ calls) w has =
        run_callbacks_settles name start calls _
          (now_keeps env id alone b (await env w).0 (await_keeps env id alone b w has))
    run_callbacks_settles name start (first_token at ∷ calls) w has =
        run_callbacks_settles name start calls _ (await_keeps env id alone b w has)

    abbrev IsBilled : World Store × Attempt → Type 0
    IsBilled (w, a) = IsSettlingAttempt env id b h (ChatOwes services env) a w

    abbrev IsBilledOutcome : World Store × Outcome → Type 0
    IsBilledOutcome (w, o) = IsSettlingOutcome env id b h (ChatOwes services env) o w

    stream_answer_settles :
        (p : ProviderConfig) (start : ℕ) (arrivals : Arrivals) (w : World Store)
        → HasTpm id b w
        → IsBilled (stream_answer services env id p start arrivals h w)
    unfolding stream_answer proxy_stream_passthrough
    stream_answer_settles p start arrivals w has =
        let seconds = p.stream_idle_timeout_seconds in
        let calls = (proxy_stream_passthrough services arrivals seconds).callbacks in
        let w' = (await env (record_latency env start w).0).0 in
        let r = run_callbacks services env id p.name start calls (some h) w' in
        (
          first_of (usages calls),
          stream_bill services env arrivals seconds,
          run_callbacks_settles p.name start calls w' (
              await_keeps env id alone b (record_latency env start w).0
                (latency_keeps env id alone start b w has)),
        )

    remember_keeps :
        (key : Option Text) (value : Text) (w : World Store)
        → HasTpm id b w
        → HasTpm id b (remember services env key value w).0
    unfolding remember
    remember_keeps none value w has = has
    remember_keeps (some key) value w has =
        let (w', t) = now env w in
        await_keeps env id alone b
          (stored_at (λ cache at. ExactCache.insert services cache key value at) t w')
          (now_keeps env id alone b w has)

    charge_usage_settles :
        (name : Text) (usage : Option (ℕ × ℕ)) (w : World Store)
        → HasTpm id b w
        → let r = charge_usage services env id name usage h w in
          IsSettling env id b h (total usage) r.1 r.0
    unfolding charge_usage
    charge_usage_settles name none w has = (refl, refl, has)
    charge_usage_settles name (some (p, c)) w has = charge_settles name p c w has

    built_owes :
        (name body : Text)
        → ChatOwes services env
            (build_response services (json ∷ (text "x-cache", text "MISS") ∷ []) name body)
            (total (usage_of services env body))
    unfolding build_response get text_eq
    built_owes name body = elim (Option-cases (services.header_value name)) [
      | inl bad ↦ rw (ChatOwes, bad) (inr refl)
      | inr (value, is) ↦ rw (ChatOwes, is) refl
    ]

    body_answer_settles :
        (key : Option Text) (p : ProviderConfig) (start : ℕ) (body : Option Text) (w : World Store)
        → HasTpm id b w
        → IsBilled (body_answer services env id key p start body h w)
    unfolding body_answer record_failure
    body_answer_settles key p start none w has =
        now_keeps env id alone b (await env w).0 (await_keeps env id alone b w has)
    body_answer_settles key p start (some raw) w has =
        let body = from_utf8_lossy raw in
        let w' = (remember services env key body (await env w).0).0 in
        let r = charge_usage services env id p.name (usage_of services env body) h w' in
        (
          total (usage_of services env body),
          built_owes p.name body,
          latency_settles env id alone b h (total (usage_of services env body)) r.1 start r.0 (
              charge_usage_settles p.name (usage_of services env body) w'
                (remember_keeps key body _ (await_keeps env id alone b w has))),
        )

  module _ (call : Call) (same : call.client_id ≡ id) (b : TokenBucket)
      (h : ReservationHandle) where
    accepted_settles :
        (p : ProviderConfig) (t : ℕ) (body : Option Text) (arrivals : Arrivals) (w : World Store)
        → HasTpm id b w
        → IsBilled b h (accepted services env call p t body arrivals h w)
    unfolding accepted record_success
    accepted_settles p t body arrivals w has =
        let w₁ =
          (emit (record_request p.name (text "success")) (record_success env p.name w).0).0 in
        let (w₂, u) = now env w₁ in
        let w₃ = (emit (record_upstream_latency p.name (u - t)) w₂).0 in
        let kept = now_keeps env id alone b w₁ (await_keeps env id alone b w has) in
        elim (Bool-cases call.is_stream) [
          | inl streams ↦
              rw (streams, same) (stream_answer_settles b h p call.request_start arrivals w₃ kept)
          | inr reads ↦
              rw (reads, same)
                (body_answer_settles b h call.cache_key p call.request_start body w₃ kept)
        ]

    on_status_settles :
        (p : ProviderConfig) (t : ℕ) (v : Verdict) (status : ℕ) (body : Option Text)
        (arrivals : Arrivals) (w : World Store)
        → HasTpm id b w
        → IsBilled b h (on_status services env call p t v status body arrivals h w)
    unfolding on_status record_failure record_success
    on_status_settles p t retry status body arrivals w has = now_keeps env id alone b w has
    on_status_settles p t reject status body arrivals w has =
        (none, inl refl, (refl, refl, await_keeps env id alone b w has))
    on_status_settles p t accept status body arrivals w has =
        accepted_settles p t body arrivals w has

    on_answer_settles :
        (p : ProviderConfig) (t : ℕ) (sent : Sent) (w : World Store)
        → HasTpm id b w
        → IsBilled b h (on_answer services env call p t sent h w)
    unfolding on_answer record_failure
    on_answer_settles p t no_answer w has = now_keeps env id alone b w has
    on_answer_settles p t (answered status body arrivals) w has =
        on_status_settles p t (classify services status) status body arrivals w has

    pub try_candidate_settles :
        (c : SelectedProvider) (w : World Store)
        → HasTpm id b w
        → IsBilled b h (try_candidate services env call c h w)
    unfolding try_candidate
    try_candidate_settles c w has =
        let req = build_chat_request c.config call.body_bytes in
        on_answer_settles c.config _ _ _
          (send_keeps env id alone req b (now env w).0 (now_keeps env id alone b w has))
