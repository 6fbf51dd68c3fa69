-- ===== src/Admission/Gate.antt =====
-- A handler under `/v1` runs only after authentication and a charge.
use rust_llm_gateway_semanti.Prelude.{◌≡◌, ◌⊎◌, inl, inr, refl, Option, some, Text}
use rust_llm_gateway_semanti.Prelude.Results.{Result, ok, err}
use rust_llm_gateway_semanti.Services.{Services}
use rust_llm_gateway_semanti.Error.{AppError}
use rust_llm_gateway_semanti.Bucket as Bucket
use rust_llm_gateway_semanti.Bucket.{Consumed}
use rust_llm_gateway_semanti.State.{ClientIdentity}
use rust_llm_gateway_semanti.Auth.{authenticate}
use rust_llm_gateway_semanti.Handlers.{World, Env}
use rust_llm_gateway_semanti.Admission.{
  Handler, take_rpm, after_charge, rate_limit_middleware, with_identity, auth_middleware, api_route,
}

module _ (services : Services) (env : Env services.Store) where
  open services use {Store}

  -- What is known where a handler runs.
  pub record RunsAfter (authorization : Option Text) (w : World Store) (identity : ClientIdentity)
      : Type 0 where
    pub known : authenticate services w.app authorization ≡ ok identity
    pub charged : (take_rpm env identity.client_id w).1 ≡ Bucket.ok

  after_charge_lem :
      (r : Consumed) (next next' : Handler Store) (v : World Store)
      → (after_charge env r next v ≡ after_charge env r next' v)
        ⊎ ((r ≡ Bucket.ok) × (after_charge env r next v ≡ next v))
  unfolding after_charge
  after_charge_lem Bucket.ok next next' v = inr (refl, refl)
  after_charge_lem (Bucket.err wait) next next' v = inl refl

  abbrev gated : (ClientIdentity → Handler Store) → ClientIdentity → Handler Store
  gated handler identity = rate_limit_middleware env (some identity) (handler identity)

  with_identity_lem :
      (r : Result ClientIdentity AppError) (handler handler' : ClientIdentity → Handler Store)
      (w : World Store)
      → (with_identity services r (gated handler) w ≡ with_identity services r (gated handler') w)
        ⊎ ((identity : ClientIdentity) × (r ≡ ok identity)
            × ((take_rpm env identity.client_id w).1 ≡ Bucket.ok)
            × (with_identity services r (gated handler) w
                ≡ handler identity (take_rpm env identity.client_id w).0))
  unfolding with_identity rate_limit_middleware
  with_identity_lem (err e) handler handler' w = inl refl
  with_identity_lem (ok identity) handler handler' w =
      let (v, r) = take_rpm env identity.client_id w in
      elim (after_charge_lem r (handler identity) (handler' identity) v) [
        | inl same ↦ inl same
        | inr (charged, runs) ↦ inr (identity, refl, charged, runs)
      ]

  -- A request under `/v1` is either answered without its handler, so that another handler would
  -- give the same answer and state, or it was authenticated, one request was granted by the
  -- client's bucket, and the answer is that of its handler in the state after that charge.
  pub handler_guarded :
      (authorization : Option Text) (handler handler' : ClientIdentity → Handler Store)
      (w : World Store)
      → (api_route services env authorization handler w
          ≡ api_route services env authorization handler' w)
        ⊎ ((identity : ClientIdentity) × RunsAfter authorization w identity
            × (api_route services env authorization handler w
                ≡ handler identity (take_rpm env identity.client_id w).0))
  unfolding api_route auth_middleware
  handler_guarded authorization handler handler' w =
      elim (with_identity_lem (authenticate services w.app authorization) handler handler' w) [
        | inl same ↦ inl same
        | inr (identity, known, charged, runs) ↦
            inr (identity, record { known = known; charged = charged }, runs)
      ]

  -- A request that is not authenticated changes nothing.
  pub unauthorized_untouched :
      (authorization : Option Text) (handler : ClientIdentity → Handler Store) (w : World Store)
      (e : AppError)
      → authenticate services w.app authorization ≡ err e
      → api_route services env authorization handler w ≡ (w, err e)
  unfolding api_route auth_middleware with_identity
  unauthorized_untouched authorization handler w e refused = rw refused refl
