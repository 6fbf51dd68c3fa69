-- ===== src/Runs/Isolation.antt =====
-- What the steps of a run leave of the breaker under one name.
use rust_llm_gateway_semanti.Prelude.{
  List, ◌+◌, ◌≡◌, ◌≢◌, refl, ap, ◌∙◌, ℕ, Bool-cases, inl, inr, Option, none, some, Text, text_eq,
  text_eq_iff,
}
use rust_llm_gateway_semanti.Prelude.Maps.{Map, get, get_or, insert, get-insert}
use rust_llm_gateway_semanti.Services.{Services}
use rust_llm_gateway_semanti.Breaker.{CircuitBreaker}
use rust_llm_gateway_semanti.Bucket.{ReservationHandle}
use rust_llm_gateway_semanti.Config.{ProviderConfig}
use rust_llm_gateway_semanti.State.{AppState, breaker_named, new_breaker}
use rust_llm_gateway_semanti.Selector.{select_ordered}
use rust_llm_gateway_semanti.Selector.Order.{select_from_named}
use rust_llm_gateway_semanti.Handlers.{
  World, Env, others, now, await, send, allow_request, record_success, record_failure, select,
  reserve, reconcile, drop_left,
}
use rust_llm_gateway_semanti.Admission.{take_rpm}
use rust_llm_gateway_semanti.Runs.{Any, IsStable}

-- The breaker that is found under a name.
abbrev pub breaker_in : {Store : Type 0} → Text → AppState Store → CircuitBreaker
breaker_in name app = breaker_named app.config.circuit_breaker app.circuit_breakers name

-- No other task changes the breaker of this name between the steps of a run.
abbrev pub LeavesBreaker : {Store : Type 0} → Text → Env Store → Type 0
LeavesBreaker {Store} name env =
    (n : ℕ) (app : AppState Store) → breaker_in name (env.during n app) ≡ breaker_in name app

pub get-insert_other :
    {V : Type 0} (name j : Text) (v : V) (m : Map V) → name ≢ j → get j (insert name v m) ≡ get j m
get-insert_other name j v m apart = elim (Bool-cases (text_eq name j)) [
  | inl same ↦ elim (apart ((text_eq_iff name j).0 same)) [ ]
  | inr other ↦ get-insert name j v m ∙ rw other refl
]

module _ (services : Services) (env : Env services.Store) (name : Text)
    (leaves : LeavesBreaker name env) (b : CircuitBreaker) where
  open services use {Store}

  abbrev pub Stands : World Store → Type 0
  Stands w = breaker_in name w.app ≡ b

  pub others-Stands : (w : World Store) → Stands w → Stands (others env w)
  unfolding others
  others-Stands w s = leaves w.tick w.app ∙ s

  select-Stands : (w : World Store) → Stands w → Stands (select env w).0
  unfolding select select_ordered await
  select-Stands w s =
      let app = (others env w).app in
      let tick = (others env w).tick in
      select_from_named app.config.circuit_breaker (λ i. env.clock (tick + i)) 0
        app.sorted_providers app.circuit_breakers name
      ∙ others-Stands w s

  drop_left-Stands :
      (id : Text) (left : Option ReservationHandle) (w : World Store)
      → Stands w
      → Stands (drop_left env id left w).0
  unfolding drop_left now
  drop_left-Stands id none w s = s
  drop_left-Stands id (some h) w s = others-Stands w s

  changed-Stands :
      (other : Text) (c : CircuitBreaker) (w : World Store)
      → other ≢ name
      → Stands w
      → breaker_named w.app.config.circuit_breaker (insert other c w.app.circuit_breakers) name ≡ b
  changed-Stands other c w apart s =
      ap (get_or (new_breaker w.app.config.circuit_breaker))
        (get-insert_other other name c w.app.circuit_breakers apart)
      ∙ s

  -- A run that uses other breakers alone leaves this one as it is.
  pub Stands-IsStable : IsStable services env Stands (λ other. other ≢ name)
  unfolding now await send allow_request record_success record_failure reserve reconcile take_rpm
  Stands-IsStable = record {
    reads = others-Stands;
    emits = λ sample w s. s;
    awaits = others-Stands;
    sends = λ req w s. others-Stands w s;
    allows = λ other w apart s. changed-Stands other _ (others env w) apart (others-Stands w s);
    succeeds = λ other w apart s. changed-Stands other _ (others env w) apart (others-Stands w s);
    fails = λ other w apart s. changed-Stands other _ (others env w) apart (others-Stands w s);
    selects = select-Stands;
    charges = λ id w s. others-Stands w s;
    reserves = λ id cost w s. others-Stands w s;
    reconciles = λ id h actual w s. others-Stands w s;
    drops = drop_left-Stands;
    stores = λ key value t w s. s;
  }

-- No other task changes the list of the providers.
abbrev pub LeavesProviders : {Store : Type 0} → Env Store → Type 0
LeavesProviders {Store} env =
    (n : ℕ) (app : AppState Store) → (env.during n app).sorted_providers ≡ app.sorted_providers

module _ (services : Services) (env : Env services.Store) (leaves : LeavesProviders env)
    (ps : List ProviderConfig) where
  open services use {Store}

  abbrev pub Lists : World Store → Type 0
  Lists w = w.app.sorted_providers ≡ ps

  pub others-Lists : (w : World Store) → Lists w → Lists (others env w)
  unfolding others
  others-Lists w s = leaves w.tick w.app ∙ s

  drop_left-Lists :
      (id : Text) (left : Option ReservationHandle) (w : World Store)
      → Lists w
      → Lists (drop_left env id left w).0
  unfolding drop_left now
  drop_left-Lists id none w s = s
  drop_left-Lists id (some h) w s = others-Lists w s

  -- No run changes the list either.
  pub Lists-IsStable : IsStable services env Lists Any
  unfolding now await send allow_request record_success record_failure select select_ordered reserve
      reconcile take_rpm
  Lists-IsStable = record {
    reads = others-Lists;
    emits = λ sample w s. s;
    awaits = others-Lists;
    sends = λ req w s. others-Lists w s;
    allows = λ other w any s. others-Lists w s;
    succeeds = λ other w any s. others-Lists w s;
    fails = λ other w any s. others-Lists w s;
    selects = λ w s. others-Lists w s;
    charges = λ id w s. others-Lists w s;
    reserves = λ id cost w s. others-Lists w s;
    reconciles = λ id h actual w s. others-Lists w s;
    drops = drop_left-Lists;
    stores = λ key value t w s. s;
  }
