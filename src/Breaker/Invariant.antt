-- ===== src/Breaker/Invariant.antt =====
-- What holds of a breaker between two calls, whatever calls came before.
use rust_llm_gateway_semanti.Prelude.{ℕ, ◌≤◌, ◌<◌, ◌^◌, ◌≡◌, ◌≢◌, ◌⊎◌, none, arith}
use rust_llm_gateway_semanti.Breaker.{
  closed, half_open, CircuitBreaker, new, is_eligible, allow_request, record_success,
  record_failure,
}

pub record IsValid (b : CircuitBreaker) : Type 0 where
  pub threshold_word : b.failure_threshold < 2 ^ 32
  pub max_word : b.half_open_max_calls < 2 ^ 32
  pub max_positive : 1 ≤ b.half_open_max_calls
  pub closed_below :
      b.state ≡ closed → (b.failure_count < b.failure_threshold) ⊎ (b.failure_count ≡ 0)
  pub stamped : b.state ≢ closed → b.last_failure ≢ none
  pub calls_bounded : b.half_open_calls ≤ b.half_open_max_calls
  pub calls_idle : b.state ≢ half_open → b.half_open_calls ≡ 0

-- A fresh breaker is valid.
pub new-IsValid :
    (threshold cooldown max_calls : ℕ)
    → threshold < 2 ^ 32
    → max_calls < 2 ^ 32
    → IsValid (new threshold cooldown max_calls)
unfolding new
new-IsValid threshold cooldown max_calls h k = ground arith

pub allow_request-IsValid :
    (b : CircuitBreaker) (now : ℕ) → IsValid b → IsValid (allow_request b now).0
unfolding allow_request
allow_request-IsValid b now v = ground arith

pub record_success-IsValid : (b : CircuitBreaker) → IsValid b → IsValid (record_success b)
unfolding record_success
record_success-IsValid b v = ground arith

pub record_failure-IsValid :
    (b : CircuitBreaker) (now : ℕ) → IsValid b → IsValid (record_failure b now)
unfolding record_failure
record_failure-IsValid b now v = ground arith

-- The read-only eligibility check and the call that takes a probe slot give the same answer at the
-- same instant.
pub is_eligible-allow_request :
    (b : CircuitBreaker) (now : ℕ) → is_eligible b now ≡ (allow_request b now).1
unfolding is_eligible allow_request
is_eligible-allow_request b now = ground arith
