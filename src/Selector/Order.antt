-- ===== src/Selector/Order.antt =====
-- Which providers are selected, in which order, and that selecting them changes no breaker.
use rust_llm_gateway_semanti.Prelude.{
  ℕ, suc, ◌≡◌, refl, ap, ◌∙◌, List, [], ◌∷◌, map, Text, All, if◌then◌else◌, Bool-cases, inl, inr,
}
use rust_llm_gateway_semanti.Prelude.Maps.{Map}
use rust_llm_gateway_semanti.Config.{ProviderConfig, CircuitBreakerConfig}
use rust_llm_gateway_semanti.Config.Sorting.{IsSorted}
use rust_llm_gateway_semanti.Breaker.{CircuitBreaker, is_eligible}
use rust_llm_gateway_semanti.State.{AppState, breaker_named, breaker_for}
use rust_llm_gateway_semanti.State.Breakers.{breaker_for_named, breaker_for_breaker}
use rust_llm_gateway_semanti.Selector.{SelectedProvider, select_from, select_ordered}

-- The providers whose breaker is eligible, each at the instant of its check.
module _ (cfg : CircuitBreakerConfig) (clock : ℕ → ℕ) where
  pub eligible : ℕ → List ProviderConfig → Map CircuitBreaker → List ProviderConfig
  eligible i [] breakers = []
  eligible i (p ∷ ps) breakers =
      let rest = eligible (suc i) ps breakers in
      if is_eligible (breaker_named cfg breakers p.name) (clock i) then p ∷ rest else rest

  eligible_ext :
      (i : ℕ) (ps : List ProviderConfig) (m m' : Map CircuitBreaker)
      → ((name : Text) → breaker_named cfg m name ≡ breaker_named cfg m' name)
      → eligible i ps m ≡ eligible i ps m'
  unfolding eligible
  eligible_ext i [] m m' h = refl
  eligible_ext i (p ∷ ps) m m' h = rw (h p.name, eligible_ext (suc i) ps m m' h) refl

  select_from-eligible :
      (i : ℕ) (ps : List ProviderConfig) (m : Map CircuitBreaker)
      → map (λ s. s.config) (select_from cfg clock i ps m).1 ≡ eligible i ps m
  unfolding select_from eligible
  select_from-eligible i [] m = refl
  select_from-eligible i (p ∷ ps) m =
      let m' = (breaker_for cfg m p.name).0 in
      let ih =
        select_from-eligible (suc i) ps m'
        ∙ eligible_ext (suc i) ps m' m (breaker_for_named cfg m p.name) in
      elim (Bool-cases (is_eligible (breaker_named cfg m p.name) (clock i))) [
        | inl is ↦ rw (breaker_for_breaker cfg m p.name, is) (ap (λ l. p ∷ l) ih)
        | inr is_not ↦ rw (breaker_for_breaker cfg m p.name, is_not) ih
      ]

  pub select_from_named :
      (i : ℕ) (ps : List ProviderConfig) (m : Map CircuitBreaker) (name : Text)
      → breaker_named cfg (select_from cfg clock i ps m).0 name ≡ breaker_named cfg m name
  unfolding select_from
  select_from_named i [] m name = refl
  select_from_named i (p ∷ ps) m name =
      select_from_named (suc i) ps (breaker_for cfg m p.name).0 name
      ∙ breaker_for_named cfg m p.name name

  eligible-All :
      (P : ProviderConfig → Type 0) (i : ℕ) (ps : List ProviderConfig) (m : Map CircuitBreaker)
      → All P ps
      → All P (eligible i ps m)
  unfolding eligible
  eligible-All P i [] m h = tt
  eligible-All P i (p ∷ ps) m (h, hs) =
      elim (Bool-cases (is_eligible (breaker_named cfg m p.name) (clock i))) [
        | inl is ↦ rw is (h, eligible-All P (suc i) ps m hs)
        | inr is_not ↦ rw is_not (eligible-All P (suc i) ps m hs)
      ]

  eligible-IsSorted :
      (i : ℕ) (ps : List ProviderConfig) (m : Map CircuitBreaker)
      → IsSorted ps
      → IsSorted (eligible i ps m)
  unfolding eligible
  eligible-IsSorted i [] m h = tt
  eligible-IsSorted i (p ∷ ps) m (first, sorted) =
      elim (Bool-cases (is_eligible (breaker_named cfg m p.name) (clock i))) [
        | inl is ↦ rw is (eligible-All _ (suc i) ps m first, eligible-IsSorted (suc i) ps m sorted)
        | inr is_not ↦ rw is_not (eligible-IsSorted (suc i) ps m sorted)
      ]

-- From providers sorted by priority, the selected ones are those whose breaker is eligible at the
-- instant of its check, in ascending priority; selecting changes no breaker for anyone who asks
-- for it by name, and no other part of the state.
pub select_ordered_lem :
    {Store : Type 0} (app : AppState Store) (clock : ℕ → ℕ)
    → IsSorted app.sorted_providers
    → let (app', selected) = select_ordered app clock in
      let configs = map (λ (s : SelectedProvider). s.config) selected in
      let cfg = app.config.circuit_breaker in
      (configs ≡ eligible cfg clock 0 app.sorted_providers app.circuit_breakers)
      × IsSorted configs
      × ((name : Text)
          → breaker_named cfg app'.circuit_breakers name
            ≡ breaker_named cfg app.circuit_breakers name)
      × (app' ≡ record app { circuit_breakers = app'.circuit_breakers })
unfolding select_ordered
select_ordered_lem app clock sorted =
    let cfg = app.config.circuit_breaker in
    let same = select_from-eligible cfg clock 0 app.sorted_providers app.circuit_breakers in
    (
      same,
      rw same (eligible-IsSorted cfg clock 0 app.sorted_providers app.circuit_breakers sorted),
      select_from_named cfg clock 0 app.sorted_providers app.circuit_breakers,
      refl,
    )
