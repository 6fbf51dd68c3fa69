-- ===== src/State/Breakers.antt =====
-- Making a breaker or a bucket pair on demand is not seen by anyone who asks for it by name.
use rust_llm_gateway_semanti.Prelude.{
  ◌≡◌, refl, Text, text_eq, text_eq_iff, arith, if◌then◌else◌, Bool-cases, inl, inr,
}
use rust_llm_gateway_semanti.Prelude.Maps.{Map, insert, get-insert}
use rust_llm_gateway_semanti.Config.{CircuitBreakerConfig}
use rust_llm_gateway_semanti.Breaker.{CircuitBreaker}
use rust_llm_gateway_semanti.State.{breaker_named, breaker_for}

-- Writing a breaker under one name leaves the others.
pub breaker_named-insert :
    (cfg : CircuitBreakerConfig) (m : Map CircuitBreaker) (name j : Text) (b : CircuitBreaker)
    → breaker_named cfg (insert name b m) j ≡ (if text_eq name j then b else breaker_named cfg m j)
breaker_named-insert cfg m name j b = elim (Bool-cases (text_eq name j)) [
  | inl same ↦ rw (get-insert name j b m, same) refl
  | inr other ↦ rw (get-insert name j b m, other) refl
]

pub breaker_for_named :
    (cfg : CircuitBreakerConfig) (m : Map CircuitBreaker) (name j : Text)
    → breaker_named cfg (breaker_for cfg m name).0 j ≡ breaker_named cfg m j
unfolding breaker_for
breaker_for_named cfg m name j =
    ground (arith, breaker_named-insert cfg m name j (breaker_named cfg m name), text_eq_iff name j)

pub breaker_for_breaker :
    (cfg : CircuitBreakerConfig) (m : Map CircuitBreaker) (name : Text)
    → (breaker_for cfg m name).1 ≡ breaker_named cfg m name
unfolding breaker_for
breaker_for_breaker cfg m name = refl
