-- ===== src/Breaker/Spec.antt =====
-- The three-state diagram that opens circuit_breaker.rs, as an abstract machine that keeps only
-- what a state needs, and the proof that the breaker implements it.
use rust_llm_gateway_semanti.Prelude.{
  ℕ, ◌+◌, ◌-◌, ◌<◌, ◌^◌, ◌≡◌, refl, Bool, true, false, Option, none, some, List, [], ◌∷◌, arith,
  ltb, leb, if◌then◌else◌, max,
}
use rust_llm_gateway_semanti.Breaker.{
  BreakerState, closed, open_, half_open, CircuitBreaker, new, allow_request, record_success,
  record_failure,
}
use rust_llm_gateway_semanti.Breaker.Invariant.{
  IsValid, new-IsValid, allow_request-IsValid, record_success-IsValid, record_failure-IsValid,
}

-- The calls that change a breaker, each at its instant.
pub data Call : Type 0 where
  allow success failure : ℕ → Call

-- `failures n` in a row while closed; open since `t`; `k` probes counted while half-open.
pub data Phase : Type 0 where
  failures : ℕ → Phase
  since : ℕ → Phase
  probes : ℕ → Phase

-- One edge of the diagram, and the answer of an `allow` (true for the other calls).
module _ (threshold cooldown max_calls : ℕ) where
  pub move : Phase → Call → Phase × Bool
  move (failures n) (allow now) = (failures n, true)
  move (failures n) (success now) = (failures 0, true)
  move (failures n) (failure now) =
      (if leb threshold (n + 1) then since now else failures (n + 1), true)
  move (since t) (allow now) = if leb cooldown (now - t) then (probes 0, true) else (since t, false)
  move (since t) (success now) = (since t, true)
  move (since t) (failure now) = (since now, true)
  move (probes k) (allow now) =
      if ltb k max_calls then (probes (k + 1), true) else (probes k, false)
  move (probes k) (success now) = (failures 0, true)
  move (probes k) (failure now) = (since now, true)

  pub moves : Phase → List Call → List Bool
  unfolding move
  moves p [] = []
  moves p (c ∷ cs) = (move p c).1 ∷ moves (move p c).0 cs

unfoldable pub step : CircuitBreaker → Call → CircuitBreaker × Bool
step b (allow now) = allow_request b now
step b (success now) = (record_success b, true)
step b (failure now) = (record_failure b now, true)

pub run : CircuitBreaker → List Call → List Bool
run b [] = []
run b (c ∷ cs) = (step b c).1 ∷ run (step b c).0 cs

abbrev stamp : Option ℕ → ℕ
stamp none = 0
stamp (some t) = t

phase_in : BreakerState → CircuitBreaker → Phase
phase_in closed b = failures b.failure_count
phase_in open_ b = since (stamp b.last_failure)
phase_in half_open b = probes b.half_open_calls

-- What the abstract machine sees of a breaker.
pub phase : CircuitBreaker → Phase
unfolding phase_in
phase b = phase_in b.state b

pub phase-new :
    (threshold cooldown max_calls : ℕ) → phase (new threshold cooldown max_calls) ≡ failures 0
unfolding new phase phase_in
phase-new threshold cooldown max_calls = refl

-- Every call keeps a breaker valid: the counters are in their bounds, a closed breaker has not
-- reached its threshold, and one that is not closed has the instant of a failure.
pub step-IsValid : (b : CircuitBreaker) (c : Call) → IsValid b → IsValid (step b c).0
unfolding step
step-IsValid b (allow now) v = allow_request-IsValid b now v
step-IsValid b (success now) v = record_success-IsValid b v
step-IsValid b (failure now) v = record_failure-IsValid b now v

step_constants :
    (b : CircuitBreaker) (c : Call)
    → ((step b c).0.failure_threshold ≡ b.failure_threshold)
      × ((step b c).0.cooldown ≡ b.cooldown)
      × ((step b c).0.half_open_max_calls ≡ b.half_open_max_calls)
unfolding step allow_request record_success record_failure
step_constants b (allow now) = ground arith
step_constants b (success now) = ground arith
step_constants b (failure now) = ground arith

-- One call on a valid breaker is one edge of the diagram, with the same answer.
pub step-move :
    (b : CircuitBreaker) (c : Call)
    → IsValid b
    → (phase (step b c).0, (step b c).1)
      ≡ move b.failure_threshold b.cooldown b.half_open_max_calls (phase b) c
unfolding step move phase allow_request record_success record_failure
step-move b (allow now) v = ground arith
step-move b (success now) v = ground arith
step-move b (failure now) v = ground arith

run-moves :
    (threshold cooldown max_calls : ℕ) (b : CircuitBreaker) (cs : List Call)
    → IsValid b
    → b.failure_threshold ≡ threshold
    → b.cooldown ≡ cooldown
    → b.half_open_max_calls ≡ max_calls
    → run b cs ≡ moves threshold cooldown max_calls (phase b) cs
unfolding run moves
run-moves threshold cooldown max_calls b [] v _ _ _ = refl
run-moves threshold cooldown max_calls b (c ∷ cs) v p q r =
    let ih =
      run-moves threshold cooldown max_calls (step b c).0 cs (step-IsValid b c v)
        (ground (arith, step_constants b c)) (ground (arith, step_constants b c))
        (ground (arith, step_constants b c)) in
    rw (← p, ← q, ← r) (ground (arith, step-move b c v, rw (← p, ← q, ← r) at ih))

-- For every threshold and probe limit below 2 ^ 32 and every sequence of `allow_request`,
-- `record_success` and `record_failure` calls, a fresh breaker gives the answers of the three-
-- state machine closed, open, half-open from its closed state.
pub run-new :
    (threshold cooldown max_calls : ℕ) (cs : List Call)
    → threshold < 2 ^ 32
    → max_calls < 2 ^ 32
    → run (new threshold cooldown max_calls) cs
      ≡ moves threshold cooldown (max max_calls 1) (failures 0) cs
unfolding new phase
run-new threshold cooldown max_calls cs h k =
    run-moves threshold cooldown (max max_calls 1) (new threshold cooldown max_calls) cs
      (new-IsValid threshold cooldown max_calls h k) refl refl refl
