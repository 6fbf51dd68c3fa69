-- ===== src/Suite/Breakers.antt =====
-- The tests of src/router/circuit_breaker.rs.
use rust_llm_gateway_semanti.Prelude.{
  ℕ, zero, suc, ◌-◌, ◌≤◌, ◌<◌, ◌≡◌, refl, Bool, true, false, ◌&&◌, not, arith,
}
use rust_llm_gateway_semanti.Breaker.{
  BreakerState, closed, open_, half_open, CircuitBreaker, new, is_eligible, allow_request,
  record_success, record_failure, current_state,
}

-- The derived `PartialEq`.
unfoldable state_eq : BreakerState → BreakerState → Bool
state_eq closed closed = true
state_eq closed open_ = false
state_eq closed half_open = false
state_eq open_ closed = false
state_eq open_ open_ = true
state_eq open_ half_open = false
state_eq half_open closed = false
state_eq half_open open_ = false
state_eq half_open half_open = true

abbrev is_in : CircuitBreaker → BreakerState → Bool
unfolding state_eq current_state
is_in b s = state_eq (current_state b) s

-- `Duration::from_millis(50)`, in nanoseconds.
abbrev fifty_millis : ℕ
fifty_millis = 50000000

unfoldable fresh_breaker : CircuitBreaker
unfolding new
fresh_breaker = new 3 fifty_millis 1

-- `for _ in 0..n { b.record_failure(); }` from the `i`-th reading of the clock on.
unfoldable failures : (ℕ → ℕ) → ℕ → ℕ → CircuitBreaker → CircuitBreaker
unfolding record_failure
failures clock i zero b = b
failures clock i (suc n) b = failures clock (suc i) n (record_failure b (clock i))

-- `for _ in 0..n { assert!(b.allow_request()); }`
unfoldable all_allowed : (ℕ → ℕ) → ℕ → ℕ → CircuitBreaker → Bool
unfolding allow_request
all_allowed clock i zero b = true
all_allowed clock i (suc n) b =
    let (b', allowed) = allow_request b (clock i) in
    let rest = all_allowed clock (suc i) n b' in allowed && rest

module _ (clock : ℕ → ℕ) where
  unfoldable closed_state_allows_all_requests : Bool
  unfolding all_allowed fresh_breaker
  closed_state_allows_all_requests = all_allowed clock 0 5 fresh_breaker

  unfoldable trips_open_after_threshold_failures : Bool
  unfolding failures fresh_breaker allow_request state_eq current_state
  trips_open_after_threshold_failures =
      let b = failures clock 0 3 fresh_breaker in is_in b open_ && not (allow_request b (clock 3)).1

  unfoldable success_resets_failure_count : Bool
  unfolding fresh_breaker record_failure record_success state_eq current_state
  success_resets_failure_count =
      let b1 = record_failure fresh_breaker (clock 0) in
      let b2 = record_success (record_failure b1 (clock 1)) in
      let b3 = record_failure b2 (clock 2) in is_in b3 closed

  unfoldable half_open_after_cooldown_then_closes_on_success : Bool
  unfolding failures fresh_breaker allow_request record_success state_eq current_state
  half_open_after_cooldown_then_closes_on_success =
      let b = failures clock 0 3 fresh_breaker in
      let (b', allowed) = allow_request b (clock 3) in
      is_in b open_ && allowed && is_in b' half_open && is_in (record_success b') closed

  unfoldable half_open_reopens_on_failure : Bool
  unfolding failures fresh_breaker allow_request record_failure state_eq current_state
  half_open_reopens_on_failure =
      let b = failures clock 0 3 fresh_breaker in
      let (b', allowed) = allow_request b (clock 3) in
      allowed && is_in (record_failure b' (clock 4)) open_

  unfoldable probe_budget_not_consumed_by_eligibility_check : Bool
  unfolding failures new is_eligible allow_request state_eq current_state
  probe_budget_not_consumed_by_eligibility_check =
      let b = failures clock 0 3 (new 3 fifty_millis 1) in
      let (b', allowed) = allow_request b (clock 6) in
      is_in b open_
      && is_eligible b (clock 3)
      && is_eligible b (clock 4)
      && is_eligible b (clock 5)
      && allowed
      && is_in b' half_open

  unfoldable is_eligible_reflects_current_state_without_mutation : Bool
  unfolding failures fresh_breaker is_eligible state_eq current_state
  is_eligible_reflects_current_state_without_mutation =
      let b = failures clock 1 3 fresh_breaker in
      is_eligible fresh_breaker (clock 0)
      && not (is_eligible b (clock 4))
      && is_eligible b (clock 5)
      && is_in b open_

  closed_state_allows_all_requests_lem : closed_state_allows_all_requests ≡ true
  unfolding closed_state_allows_all_requests
  closed_state_allows_all_requests_lem = refl

  -- The test reads the clock for the refusal before the cooldown has passed.
  trips_open_after_threshold_failures_lem :
      clock 3 - clock 2 < fifty_millis → trips_open_after_threshold_failures ≡ true
  unfolding trips_open_after_threshold_failures
  trips_open_after_threshold_failures_lem early = ground arith

  success_resets_failure_count_lem : success_resets_failure_count ≡ true
  unfolding success_resets_failure_count
  success_resets_failure_count_lem = refl

  -- The sleep of 60 ms is longer than the cooldown.
  half_open_after_cooldown_then_closes_on_success_lem :
      fifty_millis ≤ clock 3 - clock 2 → half_open_after_cooldown_then_closes_on_success ≡ true
  unfolding half_open_after_cooldown_then_closes_on_success
  half_open_after_cooldown_then_closes_on_success_lem slept = ground arith

  half_open_reopens_on_failure_lem :
      fifty_millis ≤ clock 3 - clock 2 → half_open_reopens_on_failure ≡ true
  unfolding half_open_reopens_on_failure
  half_open_reopens_on_failure_lem slept = ground arith

  probe_budget_not_consumed_by_eligibility_check_lem :
      fifty_millis ≤ clock 3 - clock 2
      → clock 3 ≤ clock 4
      → clock 4 ≤ clock 5
      → clock 5 ≤ clock 6
      → probe_budget_not_consumed_by_eligibility_check ≡ true
  unfolding probe_budget_not_consumed_by_eligibility_check
  probe_budget_not_consumed_by_eligibility_check_lem slept a b c = ground arith

  is_eligible_reflects_current_state_without_mutation_lem :
      clock 4 - clock 3 < fifty_millis
      → fifty_millis ≤ clock 5 - clock 3
      → is_eligible_reflects_current_state_without_mutation ≡ true
  unfolding is_eligible_reflects_current_state_without_mutation
  is_eligible_reflects_current_state_without_mutation_lem early slept = ground arith
