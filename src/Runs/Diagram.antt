-- ===== src/Runs/Diagram.antt =====
-- The breakers of the running gateway against the three-state diagram of circuit_breaker.rs.
use rust_llm_gateway_semanti.Prelude.{
  refl, List, [], ◌∷◌, ℕ, ◌*◌, ◌<◌, ◌^◌, ◌≡◌, ap, ◌∙◌, max, Bool, Bool-cases, inl, inr, Text,
  text_eq, text_eq_iff, if◌then◌else◌,
}
use rust_llm_gateway_semanti.Prelude.Maps.{get, insert}
use rust_llm_gateway_semanti.Services.{Services}
use rust_llm_gateway_semanti.Config.{AppConfig, CircuitBreakerConfig}
use rust_llm_gateway_semanti.Breaker.{CircuitBreaker}
use rust_llm_gateway_semanti.Breaker.Spec.{
  Call, allow, success, failure, Phase, failures, move, step, phase, phase-new, step-move,
}
use rust_llm_gateway_semanti.State as State
use rust_llm_gateway_semanti.State.{AppState, second, breaker_named, breaker_for, new_breaker}
use rust_llm_gateway_semanti.State.Breakers.{breaker_named-insert, breaker_for_named}
use rust_llm_gateway_semanti.State.Invariant.{IsSound, named-IsOurs}
use rust_llm_gateway_semanti.Runs.Steps.{
  Step, allowed, succeeded, failed, made, opened, charged, reserved, reconciled, dropped, stored,
  Steps, unchanged, next,
}
use rust_llm_gateway_semanti.Runs.Invariant.{always-IsSound}

-- The phase that the calls lead to from closed without failures, the latest call first.
module _ (threshold cooldown max_calls : ℕ) where
  pub after : List Call → Phase
  after [] = failures 0
  after (c ∷ cs) = (move threshold cooldown max_calls (after cs) c).0

abbrev pub phase_after : CircuitBreakerConfig → List Call → Phase
phase_after cfg =
    after cfg.failure_threshold (cfg.cooldown_seconds * second) (max cfg.half_open_max_calls 1)

-- The calls on the breaker under a name, the latest first.
abbrev noted : Text → Text → Call → List Call → List Call
noted name j c cs = if text_eq j name then c ∷ cs else cs

module _ (services : Services) where
  open services use {Store}

  with_step :
      {app app' : AppState Store} → Text → Step services app app' → List Call → List Call
  with_step name (allowed app j t) cs = noted name j (allow t) cs
  with_step name (succeeded app j) cs = noted name j (success 0) cs
  with_step name (failed app j t) cs = noted name j (failure t) cs
  with_step name (made app j) cs = cs
  with_step name (opened app id t) cs = cs
  with_step name (charged app id t) cs = cs
  with_step name (reserved app id cost t) cs = cs
  with_step name (reconciled app id h actual t) cs = cs
  with_step name (dropped app id h t) cs = cs
  with_step name (stored app key value t) cs = cs

  -- Those that a run makes, each at its instant.
  pub calls_of : {app app' : AppState Store} → Text → Steps services app app' → List Call
  calls_of name unchanged = []
  calls_of name (next s last) = with_step name last (calls_of name s)

move_retargeted :
    (t t' c c' m m' : ℕ) (p : Phase) (call : Call)
    → t ≡ t'
    → c ≡ c'
    → m ≡ m'
    → move t c m p call ≡ move t' c' m' p call
move_retargeted t t' c c' m m' p call e f g = rw (e, f, g) refl

module _ (services : Services) (config : AppConfig) (empty_store : services.Store)
    (threshold_word : config.circuit_breaker.failure_threshold < 2 ^ 32)
    (probes_word : config.circuit_breaker.half_open_max_calls < 2 ^ 32) where
  open services use {Store}

  abbrev origin : AppState Store
  origin = State.new services config empty_store

  abbrev breaker : AppState Store → Text → CircuitBreaker
  breaker app name = breaker_named app.config.circuit_breaker app.circuit_breakers name

  called :
      (app : AppState Store) (name : Text) (c : Call) (cs : List Call)
      → IsSound origin app
      → phase (breaker app name) ≡ phase_after config.circuit_breaker cs
      → phase (step (breaker app name) c).0 ≡ phase_after config.circuit_breaker (c ∷ cs)
  unfolding State.new after
  called app name c cs sound so_far =
      let cfg = app.config.circuit_breaker in
      let ours =
        named-IsOurs cfg app.circuit_breakers name sound.threshold_word sound.probes_word
          sound.breakers in
      let t : (breaker app name).failure_threshold ≡ config.circuit_breaker.failure_threshold =
        ours.threshold ∙ ap (λ (x : AppConfig). x.circuit_breaker.failure_threshold) sound.config in
      let d : (breaker app name).cooldown ≡ config.circuit_breaker.cooldown_seconds * second =
        ours.cooldown
        ∙ ap (λ (x : AppConfig). x.circuit_breaker.cooldown_seconds * second) sound.config in
      let m : (breaker app name).half_open_max_calls
          ≡ max config.circuit_breaker.half_open_max_calls 1 =
        ours.probes
        ∙ ap (λ (x : AppConfig). max x.circuit_breaker.half_open_max_calls 1) sound.config in
      ap (λ (x : Phase × Bool). x.0)
        (step-move (breaker app name) c ours.valid
          ∙ move_retargeted _ _ _ _ _ _ _ c t d m
          ∙ ap
              (λ p.
                move config.circuit_breaker.failure_threshold
                  (config.circuit_breaker.cooldown_seconds * second)
                  (max config.circuit_breaker.half_open_max_calls 1) p c)
              so_far)

  -- A call under one name, seen from any name.
  call_seen :
      (app : AppState Store) (j name : Text) (c : Call) (cs : List Call)
      → IsSound origin app
      → phase (breaker app name) ≡ phase_after config.circuit_breaker cs
      → let b = (step (breaker app j) c).0 in
        let m = insert j b app.circuit_breakers in
        phase (breaker_named app.config.circuit_breaker m name)
        ≡ phase_after config.circuit_breaker (noted name j c cs)
  call_seen app j name c cs sound so_far =
      let cfg = app.config.circuit_breaker in
      let b = (step (breaker app j) c).0 in
      let seen = ap phase (breaker_named-insert cfg app.circuit_breakers j name b) in
      elim (Bool-cases (text_eq j name)) [
        | inl same ↦
            let e : j ≡ name = (text_eq_iff j name).0 same in
            let here =
              ap (λ n. phase (step (breaker app n) c).0) e ∙ called app name c cs sound so_far in
            rw same (rw same at seen ∙ here)
        | inr other ↦ rw other (rw other at seen ∙ so_far)
      ]

  step_seen :
      {app app' : AppState Store} (name : Text) (last : Step services app app') (cs : List Call)
      → IsSound origin app
      → phase (breaker app name) ≡ phase_after config.circuit_breaker cs
      → phase (breaker app' name)
        ≡ phase_after config.circuit_breaker (with_step services name last cs)
  unfolding step breaker_for with_step
  step_seen name (allowed app j t) cs sound so_far = call_seen app j name (allow t) cs sound so_far
  step_seen name (succeeded app j) cs sound so_far =
      call_seen app j name (success 0) cs sound so_far
  step_seen name (failed app j t) cs sound so_far = call_seen app j name (failure t) cs sound so_far
  step_seen name (made app j) cs sound so_far =
      ap phase (breaker_for_named app.config.circuit_breaker app.circuit_breakers j name) ∙ so_far
  step_seen name (opened app id t) cs sound so_far = so_far
  step_seen name (charged app id t) cs sound so_far = so_far
  step_seen name (reserved app id cost t) cs sound so_far = so_far
  step_seen name (reconciled app id h actual t) cs sound so_far = so_far
  step_seen name (dropped app id h t) cs sound so_far = so_far
  step_seen name (stored app key value t) cs sound so_far = so_far

  fresh_closed : (name : Text) → phase (breaker origin name) ≡ failures 0
  unfolding State.new get new_breaker
  fresh_closed name =
      let cfg = config.circuit_breaker in
      phase-new cfg.failure_threshold (cfg.cooldown_seconds * second) cfg.half_open_max_calls

  -- Whatever atomic steps of whatever requests follow on the start with thresholds below 2 ^ 32,
  -- the breaker under each name is in the phase to which the three-state machine of the
  -- configuration comes from closed without failures by the calls that these steps make under that
  -- name, each at its instant; the calls under other names do not count.
  pub breakers_follow :
      (app : AppState Store) (name : Text) (s : Steps services origin app)
      → phase (breaker_named app.config.circuit_breaker app.circuit_breakers name)
        ≡ phase_after config.circuit_breaker (calls_of services name s)
  unfolding calls_of after
  breakers_follow app name unchanged = fresh_closed name
  breakers_follow app name (next s last) =
      step_seen name last (calls_of services name s)
        (always-IsSound services config empty_store _ threshold_word probes_word s)
        (breakers_follow _ name s)
