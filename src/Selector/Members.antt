-- ===== src/Selector/Members.antt =====
-- The candidates that the selection makes of the providers.
use mathlib.Core.List.{Memᴰ}
use rust_llm_gateway_semanti.Prelude.{
  ℕ, suc, ◌≡◌, sym, ap, ◌∙◌, true, List, [], map, ◌∷◌, All, Bool-cases, inl, inr,
}
use rust_llm_gateway_semanti.Prelude.Maps.{Map}
use rust_llm_gateway_semanti.Config.{ProviderConfig, CircuitBreakerConfig}
use rust_llm_gateway_semanti.Breaker.{CircuitBreaker, is_eligible}
use rust_llm_gateway_semanti.State.{breaker_named, breaker_for}
use rust_llm_gateway_semanti.State.Breakers.{breaker_for_named, breaker_for_breaker}
use rust_llm_gateway_semanti.Failover.Order.{IsSublist, done, kept, left_out}
use rust_llm_gateway_semanti.Selector.{SelectedProvider, select_from}

-- A provider as a candidate: its breaker is the one under its name.
abbrev pub candidate_of : ProviderConfig → SelectedProvider
candidate_of p = record { config = p; breaker = p.name }

pub trans : {A : Type 0} {xs ys zs : List A} → IsSublist xs ys → IsSublist ys zs → IsSublist xs zs
trans p done = p
trans (kept p) (kept q) = kept (trans p q)
trans (left_out p) (kept q) = left_out (trans p q)
trans p (left_out q) = left_out (trans p q)

module _ (cfg : CircuitBreakerConfig) (clock : ℕ → ℕ) where
  pub select_from-All :
      (Q : SelectedProvider → Type 0) (i : ℕ) (ps : List ProviderConfig) (m : Map CircuitBreaker)
      → All (λ p. Q (candidate_of p)) ps
      → All Q (select_from cfg clock i ps m).1
  unfolding select_from
  select_from-All Q i [] m h = tt
  select_from-All Q i (p ∷ ps) m (h, hs) =
      let (m', b) = breaker_for cfg m p.name in
      let rest = select_from-All Q (suc i) ps m' hs in
      elim (Bool-cases (is_eligible b (clock i))) [
        | inl is ↦ rw is (h, rest)
        | inr is_not ↦ rw is_not rest
      ]

  -- The candidates are some of the providers, in their order.
  pub select_from-IsSublist :
      (i : ℕ) (ps : List ProviderConfig) (m : Map CircuitBreaker)
      → IsSublist (select_from cfg clock i ps m).1 (map candidate_of ps)
  unfolding select_from
  select_from-IsSublist i [] m = done
  select_from-IsSublist i (p ∷ ps) m =
      let (m', b) = breaker_for cfg m p.name in
      let rest = select_from-IsSublist (suc i) ps m' in
      elim (Bool-cases (is_eligible b (clock i))) [
        | inl is ↦ rw is (kept rest)
        | inr is_not ↦ rw is_not (left_out rest)
      ]

  -- A provider whose breaker is eligible at every check is selected.
  pub select_from-Memᴰ :
      (p : ProviderConfig) (i : ℕ) (ps : List ProviderConfig) (m : Map CircuitBreaker)
      → ((k : ℕ) → is_eligible (breaker_named cfg m p.name) (clock k) ≡ true)
      → Memᴰ p ps
      → Memᴰ (candidate_of p) (select_from cfg clock i ps m).1
  unfolding select_from
  select_from-Memᴰ p i [] m fit there = elim there [ ]
  select_from-Memᴰ p i (q ∷ ps) m fit (Memᴰ.head same) =
      let fits : is_eligible (breaker_for cfg m q.name).1 (clock i) ≡ true =
        ap (λ c. is_eligible c (clock i)) (breaker_for_breaker cfg m q.name)
        ∙ ap (λ (c : ProviderConfig). is_eligible (breaker_named cfg m c.name) (clock i)) (sym same)
        ∙ fit i in
      rw fits (Memᴰ.head (ap candidate_of same))
  select_from-Memᴰ p i (q ∷ ps) m fit (Memᴰ.tail there) =
      let (m', b) = breaker_for cfg m q.name in
      let rest =
        select_from-Memᴰ p (suc i) ps m'
          (λ k. ap (λ c. is_eligible c (clock k)) (breaker_for_named cfg m q.name p.name) ∙ fit k)
          there in
      elim (Bool-cases (is_eligible b (clock i))) [
        | inl is ↦ rw is (Memᴰ.tail rest)
        | inr is_not ↦ rw is_not rest
      ]
