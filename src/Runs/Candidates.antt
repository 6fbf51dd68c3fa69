-- ===== src/Runs/Candidates.antt =====
-- Through the attempts of the chat handler and the failover loop.
use rust_llm_gateway_semanti.Prelude.{
  ℕ, Bool-cases, inl, inr, Option, none, some, List, [], ◌∷◌, Text,
}
use rust_llm_gateway_semanti.Prelude.Utf8.{from_utf8_lossy}
use rust_llm_gateway_semanti.Services.{Services}
use rust_llm_gateway_semanti.Metrics.{record_error}
use rust_llm_gateway_semanti.Bucket.{ReservationHandle}
use rust_llm_gateway_semanti.Config.{ProviderConfig}
use rust_llm_gateway_semanti.Selector.{SelectedProvider}
use rust_llm_gateway_semanti.Stream.{Arrivals, Callback, on_usage, on_stream_error, first_token}
use rust_llm_gateway_semanti.Handlers.{Sent, no_answer, answered, World, Env, record_latency}
use rust_llm_gateway_semanti.Failover.{Attempt, Verdict, retry, reject, accept, classify}
use rust_llm_gateway_semanti.Failover.Rule.{AfterAttempt, IsLoopRule}
use rust_llm_gateway_semanti.Attempts.{
  Call, charge, charge_usage, remember, run_callbacks, stream_answer, usage_of, body_answer,
  accepted, on_status, on_answer, try_candidate,
}
use rust_llm_gateway_semanti.Runs.{IsStable}

module _ (services : Services) (env : Env services.Store) (P : World services.Store → Type 0)
    {Touched : Text → Type 0} (stable : IsStable services env P Touched) where
  open services use {Store}

  pub after_holds : (a : Attempt) (w : World Store) → P w → AfterAttempt P (λ o v. P v) a w
  after_holds (Attempt.skipped) w p = p
  after_holds (Attempt.failed_over e) w p = p
  after_holds (Attempt.finished result left) w p = p

  pub loop_holds :
      ((name : Text) → Touched name) → (h : ReservationHandle) → IsLoopRule env h P (λ o v. P v)
  loop_holds all h = record {
    allows = λ name w p. stable.allows name w (all name) p;
    selects = stable.selects;
    gives_up = λ provider error e w p. stable.emits (record_error provider error) w p;
  }

  pub latency_holds : (start : ℕ) (w : World Store) → P w → P (record_latency env start w).0
  unfolding record_latency
  latency_holds start w p = stable.emits _ _ (stable.reads w p)

  charge_holds :
      (id name : Text) (prompt completion : ℕ) (held : Option ReservationHandle) (w : World Store)
      → P w
      → P (charge services env id name prompt completion held w).0
  unfolding charge
  charge_holds id name prompt completion none w p = stable.emits _ _ (stable.emits _ w p)
  charge_holds id name prompt completion (some h) w p =
      stable.reconciles id h _ _ (stable.emits _ _ (stable.emits _ w p))

  run_callbacks_hold :
      (id name : Text) (start : ℕ) (calls : List Callback) (held : Option ReservationHandle)
      (w : World Store)
      → Touched name
      → P w
      → P (run_callbacks services env id name start calls held w).0
  unfolding run_callbacks
  run_callbacks_hold id name start [] held w ours p = p
  run_callbacks_hold id name start (on_usage prompt c ∷ calls) held w ours p =
      run_callbacks_hold id name start calls none _ ours
        (charge_holds id name prompt c held _ (stable.awaits w p))
  run_callbacks_hold id name start (on_stream_error ∷ calls) held w ours p =
      run_callbacks_hold id name start calls held _ ours
        (stable.fails name _ ours (stable.awaits w p))
  run_callbacks_hold id name start (first_token at ∷ calls) held w ours p =
      run_callbacks_hold id name start calls held _ ours (stable.emits _ _ (stable.awaits w p))

  remember_holds :
      (key : Option Text) (value : Text) (w : World Store)
      → P w
      → P (remember services env key value w).0
  unfolding remember
  remember_holds none value w p = p
  remember_holds (some key) value w p =
      stable.awaits _ (stable.stores key value _ _ (stable.reads w p))

  charge_usage_holds :
      (id name : Text) (usage : Option (ℕ × ℕ)) (h : ReservationHandle) (w : World Store)
      → P w
      → P (charge_usage services env id name usage h w).0
  unfolding charge_usage
  charge_usage_holds id name none h w p = p
  charge_usage_holds id name (some (a, c)) h w p = charge_holds id name a c (some h) w p

  module _ (call : Call) (provider : ProviderConfig) (ours : Touched provider.name)
      (h : ReservationHandle) where
    stream_answer_holds :
        (arrivals : Arrivals) (w : World Store)
        → P w
        → P (stream_answer services env call.client_id provider call.request_start arrivals h w).0
    unfolding stream_answer
    stream_answer_holds arrivals w p =
        run_callbacks_hold call.client_id provider.name call.request_start _ (some h) _ ours
          (stable.awaits _ (latency_holds call.request_start w p))

    body_answer_holds :
        (body : Option Text) (w : World Store)
        → P w
        → P
            (body_answer services env call.client_id call.cache_key provider call.request_start body
              h w).0
    unfolding body_answer
    body_answer_holds none w p =
        stable.emits _ _ (stable.fails provider.name _ ours (stable.awaits w p))
    body_answer_holds (some raw) w p = latency_holds call.request_start _ (
        charge_usage_holds call.client_id provider.name
          (usage_of services env (from_utf8_lossy raw)) h _
          (remember_holds call.cache_key (from_utf8_lossy raw) _ (stable.awaits w p)))

    accepted_holds :
        (t : ℕ) (body : Option Text) (arrivals : Arrivals) (w : World Store)
        → P w
        → P (accepted services env call provider t body arrivals h w).0
    unfolding accepted
    accepted_holds t body arrivals w p =
        let before =
          stable.emits _ _
            (stable.reads _ (stable.emits _ _ (stable.succeeds provider.name w ours p))) in
        elim (Bool-cases call.is_stream) [
          | inl streams ↦ rw streams (stream_answer_holds arrivals _ before)
          | inr reads ↦ rw reads (body_answer_holds body _ before)
        ]

    on_status_holds :
        (t : ℕ) (v : Verdict) (status : ℕ) (body : Option Text) (arrivals : Arrivals)
        (w : World Store)
        → P w
        → P (on_status services env call provider t v status body arrivals h w).0
    unfolding on_status
    on_status_holds t retry status body arrivals w p =
        stable.emits _ _ (stable.fails provider.name w ours p)
    on_status_holds t reject status body arrivals w p =
        stable.emits _ _ (stable.succeeds provider.name w ours p)
    on_status_holds t accept status body arrivals w p = accepted_holds t body arrivals w p

    on_answer_holds :
        (t : ℕ) (sent : Sent) (w : World Store)
        → P w
        → P (on_answer services env call provider t sent h w).0
    unfolding on_answer
    on_answer_holds t no_answer w p = stable.emits _ _ (stable.fails provider.name w ours p)
    on_answer_holds t (answered status body arrivals) w p =
        on_status_holds t (classify services status) status body arrivals w p

  pub try_candidate_holds :
      (call : Call) (h : ReservationHandle) (c : SelectedProvider) (w : World Store)
      → Touched c.config.name
      → P w
      → P (try_candidate services env call c h w).0
  unfolding try_candidate
  try_candidate_holds call h c w ours p =
      on_answer_holds call c.config ours h _ _ _ (stable.sends _ _ (stable.reads w p))
