-- ===== src/Breaker.antt =====
-- src/router/circuit_breaker.rs: the circuit breaker of one upstream provider.
-- Every method locks the one mutex for its whole body, so calls from several threads are a sequence
-- of calls. `Instant::now()` is the argument `now`; instants and durations are nanoseconds.
pub mod Invariant
pub mod Spec
pub mod Probes
use rust_llm_gateway_semanti.Prelude.{
  ℕ, ◌+◌, ◌-◌, ◌%◌, ◌^◌, max, Bool, true, false, Option, none, some, ltb, leb, if◌then◌else◌,
}

pub data BreakerState : Type 0 where
  closed open_ half_open : BreakerState

abbrev pub is_half_open : BreakerState → Bool
is_half_open half_open = true
is_half_open _ = false

-- The constants of `CircuitBreaker` and the fields of `BreakerInner`.
pub record CircuitBreaker : Type 0 where
  pub state : BreakerState
  pub failure_count : ℕ  -- u32
  pub last_failure : Option ℕ
  pub half_open_calls : ℕ  -- u32
  pub failure_threshold : ℕ  -- u32
  pub cooldown : ℕ
  pub half_open_max_calls : ℕ  -- u32

abbrev pub u32 : ℕ → ℕ
u32 n = n % 2 ^ 32

unfoldable pub new : ℕ → ℕ → ℕ → CircuitBreaker
new failure_threshold cooldown half_open_max_calls = record {
  state = closed;
  failure_count = 0;
  last_failure = none;
  half_open_calls = 0;
  failure_threshold = failure_threshold;
  cooldown = cooldown;
  half_open_max_calls = max half_open_max_calls 1;
}

-- `t.elapsed() >= self.cooldown`, false where no failure is recorded. `elapsed` stops at 0.
abbrev pub cooled_down : Option ℕ → ℕ → ℕ → Bool
cooled_down none cooldown now = false
cooled_down (some t) cooldown now = leb cooldown (now - t)

eligible_in : BreakerState → CircuitBreaker → ℕ → Bool
eligible_in closed b now = true
eligible_in open_ b now = cooled_down b.last_failure b.cooldown now
eligible_in half_open b now = ltb b.half_open_calls b.half_open_max_calls

unfoldable pub is_eligible : CircuitBreaker → ℕ → Bool
unfolding eligible_in
is_eligible b now = eligible_in b.state b now

allow_in : BreakerState → CircuitBreaker → ℕ → CircuitBreaker × Bool
allow_in closed b now = (b, true)
allow_in open_ b now =
    if cooled_down b.last_failure b.cooldown now
    then (record b { state = half_open; half_open_calls = 0 }, true)
    else (b, false)
allow_in half_open b now =
    if ltb b.half_open_calls b.half_open_max_calls
    then (record b { half_open_calls = u32 (b.half_open_calls + 1) }, true)
    else (b, false)

unfoldable pub allow_request : CircuitBreaker → ℕ → CircuitBreaker × Bool
unfolding allow_in
allow_request b now = allow_in b.state b now

unfoldable pub record_success : CircuitBreaker → CircuitBreaker
record_success b =
    let b' = record b { failure_count = 0 } in
    if is_half_open b.state then record b' { state = closed; half_open_calls = 0 } else b'

unfoldable pub record_failure : CircuitBreaker → ℕ → CircuitBreaker
record_failure b now =
    let b' = record b { last_failure = some now; failure_count = u32 (b.failure_count + 1) } in
    if is_half_open b.state
    then record b' { state = open_; half_open_calls = 0 }
    else if leb b'.failure_threshold b'.failure_count
    then record b' { state = open_ }
    else b'

unfoldable pub current_state : CircuitBreaker → BreakerState
current_state b = b.state
