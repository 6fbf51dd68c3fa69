-- ===== src/Tests/Router.antt =====
-- The circuit breaker and the selector at concrete inputs.
use rust_llm_gateway_semanti.Prelude.{◌+◌, ◌≡◌, refl, min, max, [], ◌∷◌, arith}
use rust_llm_gateway_semanti.Breaker.{new}
use rust_llm_gateway_semanti.Breaker.Invariant.{IsValid}
use rust_llm_gateway_semanti.Breaker.Spec.{allow, success, failure, failures, moves, run, run-new}
use rust_llm_gateway_semanti.Breaker.Probes.{grants, probe_budget}
use rust_llm_gateway_semanti.Tests.Samples.{open_breaker}

open_breaker-IsValid : IsValid open_breaker
open_breaker-IsValid = record {
  threshold_word = omega arith;
  max_word = omega arith;
  max_positive = omega arith;
  closed_below = λ e. cc;
  stamped = λ _ e. cc;
  calls_bounded = omega arith;
  calls_idle = λ _. refl;
}

run-new_example :
    run (new 1 10 1) (failure 0 ∷ allow 5 ∷ allow 10 ∷ success 11 ∷ [])
    ≡ moves 1 10 (max 1 1) (failures 0) (failure 0 ∷ allow 5 ∷ allow 10 ∷ success 11 ∷ [])
run-new_example =
    run-new 1 10 1 (failure 0 ∷ allow 5 ∷ allow 10 ∷ success 11 ∷ []) (omega arith) (omega arith)

probe_budget_example : grants open_breaker (15 ∷ 16 ∷ 17 ∷ 18 ∷ []) ≡ 1 + min 3 2
probe_budget_example =
    probe_budget open_breaker 5 15 (16 ∷ 17 ∷ 18 ∷ []) open_breaker-IsValid refl refl (omega arith)
