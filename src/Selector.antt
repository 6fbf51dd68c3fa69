-- ===== src/Selector.antt =====
-- src/router/selector.rs: the providers to try for a request.
pub mod Order
pub mod Members
use rust_llm_gateway_semanti.Prelude.{ℕ, suc, List, [], ◌∷◌, Text, if◌then◌else◌}
use rust_llm_gateway_semanti.Prelude.Maps.{Map}
use rust_llm_gateway_semanti.Config.{ProviderConfig, CircuitBreakerConfig}
use rust_llm_gateway_semanti.Breaker.{CircuitBreaker, is_eligible}
use rust_llm_gateway_semanti.State.{AppState, breaker_for}

-- `breaker` is the name under which the shared breaker stands.
pub record SelectedProvider : Type 0 where
  pub config : ProviderConfig
  pub breaker : Text

-- The `filter_map` over the providers. `clock i` is the instant of the `i`-th check.
module _ (cfg : CircuitBreakerConfig) (clock : ℕ → ℕ) where
  unfoldable pub select_from :
      ℕ → List ProviderConfig → Map CircuitBreaker → Map CircuitBreaker × List SelectedProvider
  select_from i [] breakers = (breakers, [])
  select_from i (p ∷ ps) breakers =
      let (breakers', b) = breaker_for cfg breakers p.name in
      let (breakers'', rest) = select_from (suc i) ps breakers' in
      (
        breakers'',
        if is_eligible b (clock i) then record { config = p; breaker = p.name } ∷ rest else rest,
      )

unfoldable pub select_ordered :
    {Store : Type 0} → AppState Store → (ℕ → ℕ) → AppState Store × List SelectedProvider
select_ordered app clock =
    let (breakers, selected) =
      select_from app.config.circuit_breaker clock 0 app.sorted_providers app.circuit_breakers in
    (record app { circuit_breakers = breakers }, selected)
