-- ===== src/Chat/Slots.antt =====
-- The probe slot that a request takes is given back by the outcome that the handler records.
use rust_llm_gateway_semanti.Prelude.{
  ℕ, ◌-◌, text, ◌≡◌, ◌≢◌, refl, subst, sym, inl, inr, Option, none, some, List, [], ◌∷◌, Text,
  text_eq_refl, arith, Bool-cases,
}
use rust_llm_gateway_semanti.Prelude.Maps.{Map, get, insert, get-insert}
use rust_llm_gateway_semanti.Services.{Services}
use rust_llm_gateway_semanti.Breaker as Breaker
use rust_llm_gateway_semanti.Breaker.{CircuitBreaker, half_open}
use rust_llm_gateway_semanti.Bucket.{ReservationHandle}
use rust_llm_gateway_semanti.Metrics.{record_request, record_upstream_latency}
use rust_llm_gateway_semanti.Prelude.Utf8.{from_utf8_lossy}
use rust_llm_gateway_semanti.ExactCache as ExactCache
use rust_llm_gateway_semanti.Config.{ProviderConfig}
use rust_llm_gateway_semanti.Selector.{SelectedProvider}
use rust_llm_gateway_semanti.State.{AppState}
use rust_llm_gateway_semanti.Stream.{Arrivals, Callback, on_usage, on_stream_error, first_token}
use rust_llm_gateway_semanti.Failover.{Verdict, retry, reject, accept, classify}
use rust_llm_gateway_semanti.Handlers.{
  Sent, no_answer, answered, World, Env, emit, record_latency, others, now, await, record_success,
  record_failure, reconcile,
}
use rust_llm_gateway_semanti.Attempts.{
  Call, stored_at, usage_of, charge, charge_usage, remember, run_callbacks, stream_answer,
  body_answer, accepted, on_status, on_answer, try_candidate,
}

-- Between the steps of a run no other task touches a breaker.
abbrev pub IsQuiet : {Store : Type 0} → Env Store → Type 0
IsQuiet {Store} env =
    (n : ℕ) (app : AppState Store) → (env.during n app).circuit_breakers ≡ app.circuit_breakers

success_settles : (b : CircuitBreaker) → (Breaker.record_success b).state ≢ half_open
unfolding Breaker.record_success
success_settles b = ground arith

failure_settles : (b : CircuitBreaker) (t : ℕ) → (Breaker.record_failure b t).state ≢ half_open
unfolding Breaker.record_failure
failure_settles b t = ground arith

-- The breaker of this name has an outcome for all its probes: it is not half-open.
abbrev pub IsSettled : Text → Map CircuitBreaker → Type 0
IsSettled name m = (b : CircuitBreaker) × (get name m ≡ some b) × (b.state ≢ half_open)

insert-IsSettled :
    (name : Text) (b : CircuitBreaker) (m : Map CircuitBreaker)
    → b.state ≢ half_open
    → IsSettled name (insert name b m)
insert-IsSettled name b m settled =
    (b, rw (get-insert name name b m, text_eq_refl name) refl, settled)

module _ (services : Services) (env : Env services.Store) (quiet : IsQuiet env) where
  open services use {Store}

  abbrev Settled : Text → World Store → Type 0
  Settled name w = IsSettled name w.app.circuit_breakers

  success-Settled : (name : Text) (w : World Store) → Settled name (record_success env name w).0
  unfolding record_success
  success-Settled name w = insert-IsSettled name _ _ (success_settles _)

  failure-Settled : (name : Text) (w : World Store) → Settled name (record_failure env name w).0
  unfolding record_failure now
  failure-Settled name w = insert-IsSettled name _ _ (failure_settles _ _)

  await-Settled : (name : Text) (w : World Store) → Settled name w → Settled name (await env w).0
  unfolding await others
  await-Settled name w s = subst (λ m. IsSettled name m) (sym (quiet w.tick w.app)) s

  now-Settled : (name : Text) (w : World Store) → Settled name w → Settled name (now env w).0
  unfolding now others
  now-Settled name w s = subst (λ m. IsSettled name m) (sym (quiet w.tick w.app)) s

  charge-Settled :
      (client_id name : Text) (p c : ℕ) (held : Option ReservationHandle) (w : World Store)
      → Settled name w
      → Settled name (charge services env client_id name p c held w).0
  unfolding charge reconcile
  charge-Settled client_id name p c none w s = s
  charge-Settled client_id name p c (some h) w s = now-Settled name w s

  run_callbacks-Settled :
      (client_id name : Text) (start : ℕ) (calls : List Callback) (held : Option ReservationHandle)
      (w : World Store)
      → Settled name w
      → Settled name (run_callbacks services env client_id name start calls held w).0
  unfolding run_callbacks
  run_callbacks-Settled client_id name start [] held w s = s
  run_callbacks-Settled client_id name start (on_usage p c ∷ calls) held w s =
      run_callbacks-Settled client_id name start calls none _
        (charge-Settled client_id name p c held _ (await-Settled name w s))
  run_callbacks-Settled client_id name start (on_stream_error ∷ calls) held w s =
      run_callbacks-Settled client_id name start calls held _ (failure-Settled name _)
  run_callbacks-Settled client_id name start (first_token at ∷ calls) held w s =
      run_callbacks-Settled client_id name start calls held _ (await-Settled name w s)

  stream_answer-Settled :
      (client_id : Text) (p : ProviderConfig) (start : ℕ) (arrivals : Arrivals)
      (h : ReservationHandle) (w : World Store)
      → Settled p.name w
      → Settled p.name (stream_answer services env client_id p start arrivals h w).0
  unfolding stream_answer record_latency
  stream_answer-Settled client_id p start arrivals h w s =
      run_callbacks-Settled client_id p.name start _ (some h) _
        (await-Settled p.name (record_latency env start w).0 (now-Settled p.name w s))

  remember-Settled :
      (key : Option Text) (value name : Text) (w : World Store)
      → Settled name w
      → Settled name (remember services env key value w).0
  unfolding remember
  remember-Settled none value name w s = s
  remember-Settled (some key) value name w s =
      let (w', t) = now env w in
      await-Settled name
        (stored_at (λ cache at. ExactCache.insert services cache key value at) t w')
        (now-Settled name w s)

  charge_usage-Settled :
      (client_id name : Text) (usage : Option (ℕ × ℕ)) (h : ReservationHandle) (w : World Store)
      → Settled name w
      → Settled name (charge_usage services env client_id name usage h w).0
  unfolding charge_usage
  charge_usage-Settled client_id name none h w s = s
  charge_usage-Settled client_id name (some (p, c)) h w s =
      charge-Settled client_id name p c (some h) w s

  body_answer-Settled :
      (client_id : Text) (key : Option Text) (p : ProviderConfig) (start : ℕ) (body : Option Text)
      (h : ReservationHandle) (w : World Store)
      → Settled p.name w
      → Settled p.name (body_answer services env client_id key p start body h w).0
  unfolding body_answer record_latency
  body_answer-Settled client_id key p start none h w s = failure-Settled p.name _
  body_answer-Settled client_id key p start (some b) h w s =
      let body = from_utf8_lossy b in
      let w₁ = (remember services env key body (await env w).0).0 in
      let usage = usage_of services env body in
      now-Settled p.name (charge_usage services env client_id p.name usage h w₁).0 (
        charge_usage-Settled client_id p.name usage h w₁
          (remember-Settled key body p.name (await env w).0 (await-Settled p.name w s)))

  accepted-Settled :
      (call : Call) (p : ProviderConfig) (t : ℕ) (body : Option Text) (arrivals : Arrivals)
      (h : ReservationHandle) (w : World Store)
      → Settled p.name (accepted services env call p t body arrivals h w).0
  unfolding accepted
  accepted-Settled call p t body arrivals h w =
      let w₁ = (emit (record_request p.name (text "success")) (record_success env p.name w).0).0 in
      let (w₂, u) = now env w₁ in
      let w₃ = (emit (record_upstream_latency p.name (u - t)) w₂).0 in
      let settled = now-Settled p.name w₁ (success-Settled p.name w) in
      elim (Bool-cases call.is_stream) [
        | inl streams ↦
            rw streams
              (stream_answer-Settled call.client_id p call.request_start arrivals h w₃ settled)
        | inr reads ↦ rw reads (
            body_answer-Settled call.client_id call.cache_key p call.request_start body h w₃
              settled)
      ]

  on_status-Settled :
      (call : Call) (p : ProviderConfig) (t : ℕ) (v : Verdict) (status : ℕ) (body : Option Text)
      (arrivals : Arrivals) (h : ReservationHandle) (w : World Store)
      → Settled p.name (on_status services env call p t v status body arrivals h w).0
  unfolding on_status
  on_status-Settled call p t retry status body arrivals h w = failure-Settled p.name w
  on_status-Settled call p t reject status body arrivals h w = success-Settled p.name w
  on_status-Settled call p t accept status body arrivals h w =
      accepted-Settled call p t body arrivals h w

  on_answer-Settled :
      (call : Call) (p : ProviderConfig) (t : ℕ) (sent : Sent) (h : ReservationHandle)
      (w : World Store)
      → Settled p.name (on_answer services env call p t sent h w).0
  unfolding on_answer
  on_answer-Settled call p t no_answer h w = failure-Settled p.name w
  on_answer-Settled call p t (answered status body arrivals) h w =
      on_status-Settled call p t (classify services status) status body arrivals h w

  -- Where no other task touches a breaker meanwhile, the breaker of a candidate that was sent a
  -- request is not half-open once its answer is dealt with, be it a failed connection, any status,
  -- a body that cannot be read or a stream read to its end: an outcome was recorded for the probe
  -- slot that the request took.
  pub slot_returned :
      (call : Call) (c : SelectedProvider) (h : ReservationHandle) (w : World Store)
      → IsSettled c.config.name (try_candidate services env call c h w).0.app.circuit_breakers
  unfolding try_candidate
  slot_returned call c h w = on_answer-Settled call c.config _ _ h _
