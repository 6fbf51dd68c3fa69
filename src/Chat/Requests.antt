-- ===== src/Chat/Requests.antt =====
-- Which requests the chat handler sends, and in which order.
use rust_llm_gateway_semanti.Prelude.{
  ℕ, ◌≡◌, inl, inr, refl, ◌∙◌, Option, none, some, List, [], ◌∷◌, Text, Bool-cases,
}
use rust_llm_gateway_semanti.Services.{Services}
use rust_llm_gateway_semanti.Bucket.{ReservationHandle}
use rust_llm_gateway_semanti.Config.{ProviderConfig}
use rust_llm_gateway_semanti.Selector.{SelectedProvider}
use rust_llm_gateway_semanti.Client.{build_chat_request}
use rust_llm_gateway_semanti.Stream.{Arrivals, Callback, on_usage, on_stream_error, first_token}
use rust_llm_gateway_semanti.Handlers.{
  Sent, no_answer, answered, World, Env, record_latency, now, await, send, record_success,
  record_failure, reconcile,
}
use rust_llm_gateway_semanti.Failover.{Verdict, retry, reject, accept, classify, failover}
use rust_llm_gateway_semanti.Failover.Order.{IsOrdered, failover-IsOrdered}
use rust_llm_gateway_semanti.Attempts.{
  Call, charge, charge_usage, remember, run_callbacks, stream_answer, body_answer, accepted,
  on_status, on_answer, try_candidate,
}

module _ (services : Services) (env : Env services.Store) where
  open services use {Store, Value}

  charge_lem :
      (client_id name : Text) (p c : ℕ) (held : Option ReservationHandle) (w : World Store)
      → (charge services env client_id name p c held w).0.sent ≡ w.sent
  unfolding charge reconcile now
  charge_lem client_id name p c none w = refl
  charge_lem client_id name p c (some h) w = refl

  run_callbacks_lem :
      (client_id name : Text) (start : ℕ) (calls : List Callback) (held : Option ReservationHandle)
      (w : World Store)
      → (run_callbacks services env client_id name start calls held w).0.sent ≡ w.sent
  unfolding run_callbacks record_failure now await
  run_callbacks_lem client_id name start [] held w = refl
  run_callbacks_lem client_id name start (on_usage p c ∷ calls) held w =
      run_callbacks_lem client_id name start calls none _
      ∙ charge_lem client_id name p c held (await env w).0
  run_callbacks_lem client_id name start (on_stream_error ∷ calls) held w =
      run_callbacks_lem client_id name start calls held _
  run_callbacks_lem client_id name start (first_token at ∷ calls) held w =
      run_callbacks_lem client_id name start calls held _

  stream_answer_lem :
      (client_id : Text) (p : ProviderConfig) (start : ℕ) (arrivals : Arrivals)
      (h : ReservationHandle) (w : World Store)
      → (stream_answer services env client_id p start arrivals h w).0.sent ≡ w.sent
  unfolding stream_answer record_latency now await
  stream_answer_lem client_id p start arrivals h w =
      run_callbacks_lem client_id p.name start _ (some h) _

  remember_lem :
      (key : Option Text) (value : Text) (w : World Store)
      → (remember services env key value w).0.sent ≡ w.sent
  unfolding remember now await
  remember_lem none value w = refl
  remember_lem (some key) value w = refl

  charge_usage_lem :
      (client_id name : Text) (usage : Option (ℕ × ℕ)) (h : ReservationHandle) (w : World Store)
      → (charge_usage services env client_id name usage h w).0.sent ≡ w.sent
  unfolding charge_usage
  charge_usage_lem client_id name none h w = refl
  charge_usage_lem client_id name (some (p, c)) h w = charge_lem client_id name p c (some h) w

  body_answer_lem :
      (client_id : Text) (key : Option Text) (p : ProviderConfig) (start : ℕ) (body : Option Text)
      (h : ReservationHandle) (w : World Store)
      → (body_answer services env client_id key p start body h w).0.sent ≡ w.sent
  unfolding body_answer record_failure record_latency now await
  body_answer_lem client_id key p start none h w = refl
  body_answer_lem client_id key p start (some b) h w =
      charge_usage_lem client_id p.name _ h _ ∙ remember_lem key _ _

  accepted_lem :
      (call : Call) (p : ProviderConfig) (t : ℕ) (body : Option Text) (arrivals : Arrivals)
      (h : ReservationHandle) (w : World Store)
      → (accepted services env call p t body arrivals h w).0.sent ≡ w.sent
  unfolding accepted record_success now
  accepted_lem call p t body arrivals h w = elim (Bool-cases call.is_stream) [
    | inl streams ↦ rw streams (stream_answer_lem _ p _ arrivals h _)
    | inr reads ↦ rw reads (body_answer_lem _ _ p _ body h _)
  ]

  on_status_lem :
      (call : Call) (p : ProviderConfig) (t : ℕ) (v : Verdict) (status : ℕ) (body : Option Text)
      (arrivals : Arrivals) (h : ReservationHandle) (w : World Store)
      → (on_status services env call p t v status body arrivals h w).0.sent ≡ w.sent
  unfolding on_status record_success record_failure now
  on_status_lem call p t retry status body arrivals h w = refl
  on_status_lem call p t reject status body arrivals h w = refl
  on_status_lem call p t accept status body arrivals h w = accepted_lem call p t body arrivals h w

  on_answer_lem :
      (call : Call) (p : ProviderConfig) (t : ℕ) (sent : Sent) (h : ReservationHandle)
      (w : World Store)
      → (on_answer services env call p t sent h w).0.sent ≡ w.sent
  unfolding on_answer record_failure now
  on_answer_lem call p t no_answer h w = refl
  on_answer_lem call p t (answered status body arrivals) h w =
      on_status_lem call p t (classify services status) status body arrivals h w

  pub try_candidate_lem :
      (call : Call) (c : SelectedProvider) (h : ReservationHandle) (w : World Store)
      → (try_candidate services env call c h w).0.sent
        ≡ build_chat_request c.config call.body_bytes ∷ w.sent
  unfolding try_candidate now send await
  try_candidate_lem call c h w = on_answer_lem call c.config _ _ h _

  -- The failover loop of the chat handler sends each candidate at most one request, in the order
  -- of the candidates and with the same body, and sends nothing else.
  pub requests_in_order :
      (call : Call) (h : ReservationHandle) (cs : List SelectedProvider) (last : Option Text)
      (w : World Store)
      → IsOrdered
          (λ c. build_chat_request c.config call.body_bytes)
          cs
          w.sent
          (failover env (λ c. try_candidate services env call c h) h cs last w).0.sent
  requests_in_order call h cs last w =
      failover-IsOrdered env _ (λ c. build_chat_request c.config call.body_bytes)
        (λ c v. try_candidate_lem call c h v) h cs last w
