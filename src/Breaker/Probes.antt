-- ===== src/Breaker/Probes.antt =====
-- Sequences of one kind of call: how many requests a breaker lets through, and when it trips.
use rust_llm_gateway_semanti.Prelude.{
  ℕ, zero, suc, ◌+◌, ◌≤◌, ◌<◌, ◌^◌, ◌≡◌, refl, true, false, some, List, [], ◌∷◌, arith, min, length,
  All, if◌then◌else◌, dec_lt,
}
use rust_llm_gateway_semanti.Breaker.{
  closed, open_, half_open, CircuitBreaker, allow_request, record_failure, current_state,
}
use rust_llm_gateway_semanti.Breaker.Invariant.{IsValid, allow_request-IsValid}

-- How many of the `allow_request` calls at these instants are granted.
pub grants : CircuitBreaker → List ℕ → ℕ
grants b [] = 0
grants b (now ∷ times) =
    let (b', allowed) = allow_request b now in (if allowed then 1 else 0) + grants b' times

-- The breaker after a failure at each of these instants.
pub fail_all : CircuitBreaker → List ℕ → CircuitBreaker
fail_all b [] = b
fail_all b (now ∷ times) = fail_all (record_failure b now) times

-- While the cooldown runs an open breaker refuses every request and stays as it is.
denied :
    (b : CircuitBreaker) (t now : ℕ)
    → b.state ≡ open_
    → b.last_failure ≡ some t
    → t ≤ now
    → now < t + b.cooldown
    → allow_request b now ≡ (b, false)
unfolding allow_request
denied b t now s l h k = ground arith

-- While its cooldown runs, an open breaker grants none of the requests that come, however many.
pub open_fails_fast :
    (b : CircuitBreaker) (t : ℕ) (times : List ℕ)
    → b.state ≡ open_
    → b.last_failure ≡ some t
    → All (λ now. (t ≤ now) × (now < t + b.cooldown)) times
    → grants b times ≡ 0
unfolding grants
open_fails_fast b t [] s l _ = refl
open_fails_fast b t (now ∷ times) s l ((h, k), hs) =
    rw (denied b t now s l h k) (omega (arith, open_fails_fast b t times s l hs))

-- A half-open breaker grants the slots that are left and nothing more.
granted :
    (b : CircuitBreaker) (now : ℕ)
    → IsValid b
    → b.state ≡ half_open
    → b.half_open_calls < b.half_open_max_calls
    → allow_request b now ≡ (record b { half_open_calls = b.half_open_calls + 1 }, true)
unfolding allow_request
granted b now v s h = ground arith

exhausted :
    (b : CircuitBreaker) (now : ℕ)
    → b.state ≡ half_open
    → b.half_open_max_calls ≤ b.half_open_calls
    → allow_request b now ≡ (b, false)
unfolding allow_request
exhausted b now s h = ground arith

-- A half-open breaker whose probe slots are used grants no request, however late and however many,
-- until an outcome is recorded.
half_open_exhausted :
    (b : CircuitBreaker) (times : List ℕ)
    → b.state ≡ half_open
    → b.half_open_max_calls ≤ b.half_open_calls
    → grants b times ≡ 0
unfolding grants
half_open_exhausted b [] s h = refl
half_open_exhausted b (now ∷ times) s h =
    rw (exhausted b now s h) (omega (arith, half_open_exhausted b times s h))

half_open_budget :
    (k : ℕ) (b : CircuitBreaker) (times : List ℕ)
    → IsValid b
    → b.state ≡ half_open
    → b.half_open_calls + k ≡ b.half_open_max_calls
    → grants b times ≡ min (length times) k
unfolding grants
half_open_budget k b [] v s h = omega arith
half_open_budget zero b (now ∷ times) v s h =
    omega (arith, half_open_exhausted b (now ∷ times) s (omega arith))
half_open_budget (suc k) b (now ∷ times) v s h =
    let next = record b { half_open_calls = b.half_open_calls + 1 } in
    let e = granted b now v s (omega arith) in
    let valid : IsValid next = ground (arith, e, allow_request-IsValid b now v) in
    rw e (omega (arith, half_open_budget k next times valid s (omega arith)))

opened :
    (b : CircuitBreaker) (t now : ℕ)
    → b.state ≡ open_
    → b.last_failure ≡ some t
    → t + b.cooldown ≤ now
    → allow_request b now ≡ (record b { state = half_open; half_open_calls = 0 }, true)
unfolding allow_request
opened b t now s l h = ground arith

-- When an open, valid breaker has cooled down, the request that moves it to half-open and the
-- requests after it, with no outcome recorded, get exactly one grant more than the configured
-- number of probes (or all are granted, if they are fewer).
pub probe_budget :
    (b : CircuitBreaker) (t now : ℕ) (times : List ℕ)
    → IsValid b
    → b.state ≡ open_
    → b.last_failure ≡ some t
    → t + b.cooldown ≤ now
    → grants b (now ∷ times) ≡ 1 + min (length times) b.half_open_max_calls
unfolding grants
probe_budget b t now times v s l h =
    let next = record b { state = half_open; half_open_calls = 0 } in
    let e = opened b t now s l h in
    let valid : IsValid next = ground (arith, e, allow_request-IsValid b now v) in
    rw e (omega (arith, half_open_budget b.half_open_max_calls next times valid refl (omega arith)))

-- A failure keeps an open breaker open.
fail_all_open :
    (b : CircuitBreaker) (times : List ℕ) → b.state ≡ open_ → (fail_all b times).state ≡ open_
unfolding fail_all record_failure
fail_all_open b [] s = s
fail_all_open b (now ∷ times) s = fail_all_open (record_failure b now) times (ground arith)

fail_closed :
    (b : CircuitBreaker) (now : ℕ)
    → b.state ≡ closed
    → b.failure_threshold < 2 ^ 32
    → b.failure_count + 1 < b.failure_threshold
    → ((record_failure b now).state ≡ closed)
      × ((record_failure b now).failure_count ≡ b.failure_count + 1)
      × ((record_failure b now).failure_threshold ≡ b.failure_threshold)
unfolding record_failure
fail_closed b now s w h = ground arith

fail_trips :
    (b : CircuitBreaker) (now : ℕ)
    → b.state ≡ closed
    → b.failure_count + 1 < 2 ^ 32
    → b.failure_threshold ≤ b.failure_count + 1
    → (record_failure b now).state ≡ open_
unfolding record_failure
fail_trips b now s w h = ground arith

-- A closed breaker with fewer failures than its threshold is still closed after further failures
-- that do not reach the threshold, and open after failures that do.
pub trips_at_threshold :
    (b : CircuitBreaker) (times : List ℕ)
    → b.state ≡ closed
    → b.failure_threshold < 2 ^ 32
    → b.failure_count < b.failure_threshold
    → (b.failure_count + length times < b.failure_threshold
        → current_state (fail_all b times) ≡ closed)
      × (b.failure_threshold ≤ b.failure_count + length times
          → current_state (fail_all b times) ≡ open_)
unfolding fail_all current_state
trips_at_threshold b [] s w h = (λ _. s, λ k. absurd (omega arith))
trips_at_threshold b (now ∷ times) s w h = elim (dec_lt (b.failure_count + 1) b.failure_threshold) [
  | yes below ↦
      let (s', n, th) = fail_closed b now s w below in
      let (stays, trips) =
        trips_at_threshold (record_failure b now) times s' (omega arith) (omega arith) in
      (λ k. stays (omega arith), λ k. trips (omega arith))
  | no above ↦ (
    λ k. absurd (omega arith),
    λ k.
        fail_all_open (record_failure b now) times (fail_trips b now s (omega arith) (omega arith)),
  )
]
