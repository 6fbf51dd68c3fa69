-- ===== src/Gateway/Guard.antt =====
-- What the gateway as a whole does with a request that is not authenticated.
use rust_llm_gateway_semanti.Prelude.{
  ℕ, ◌≡◌, refl, subst, sym, Bool, true, false, Option, none, some, text, text_eq, if◌then◌else◌,
}
use rust_llm_gateway_semanti.Prelude.Results.{err}
use rust_llm_gateway_semanti.Services.{Services}
use rust_llm_gateway_semanti.Error.{AppError}
use rust_llm_gateway_semanti.Auth.{authenticate}
use rust_llm_gateway_semanti.State.{AppState, ClientIdentity}
use rust_llm_gateway_semanti.Handlers.{Response, World, Env, M, return, others, now}
use rust_llm_gateway_semanti.Admission.{Handler}
use rust_llm_gateway_semanti.Admission.Gate.{unauthorized_untouched}
use rust_llm_gateway_semanti.Gateway.{
  Request, Web, trace_middleware, healthz, prometheus_metrics, posted, api, chat_handler,
  embeddings_handler, public, routes, limited, build_router,
}

-- The shared state and the requests sent are as before.
abbrev IsUntouched : {Store A : Type 0} → World Store → World Store × A → Type 0
IsUntouched w (v, a) = (v.app ≡ w.app) × (v.sent ≡ w.sent)

if-IsUntouched :
    {Store : Type 0} (c : Bool) (m k : M Store Response) (w : World Store)
    → IsUntouched w (m w)
    → IsUntouched w (k w)
    → IsUntouched w ((if c then m else k) w)
if-IsUntouched true m k w p q = p
if-IsUntouched false m k w p q = q

module _ (services : Services) (web : Web services) (env : Env services.Store) where
  open services use {Store}

  public-IsUntouched :
      (req : Request) (m : M Store Response) (w : World Store)
      → IsUntouched w (m w)
      → IsUntouched w (public services web env req m w)
  unfolding public
  public-IsUntouched req m w untouched =
      if-IsUntouched (text_eq req.method (text "GET")) m _ w untouched (
        if-IsUntouched (text_eq req.method (text "HEAD")) _ (return (web.method_not_allowed req)) w
          untouched (refl, refl))

  module _ (req : Request) (e : AppError) where
    api-IsUntouched :
        (handler : ClientIdentity → Handler Store) (w : World Store)
        → authenticate services w.app req.authorization ≡ err e
        → IsUntouched w (api services web env req handler w)
    unfolding api
    api-IsUntouched handler w refused =
        rw
          (unauthorized_untouched services env req.authorization
            (posted services web env req handler) w e refused)
          (refl, refl)

    routes-IsUntouched :
        (w : World Store)
        → authenticate services w.app req.authorization ≡ err e
        → IsUntouched w (routes services web env req w)
    unfolding routes healthz prometheus_metrics
    routes-IsUntouched w refused =
        if-IsUntouched (text_eq req.path (text "/v1/chat/completions")) _ _ w
          (api-IsUntouched (chat_handler services web env req) w refused)
          (if-IsUntouched (text_eq req.path (text "/v1/embeddings")) _ _ w
            (api-IsUntouched (embeddings_handler services web env req) w refused)
            (if-IsUntouched (text_eq req.path (text "/healthz")) _ _ w
              (public-IsUntouched req (healthz services web) w (refl, refl))
              (if-IsUntouched (text_eq req.path (text "/metrics")) _ _ w
                (public-IsUntouched req (prometheus_metrics services web) w (refl, refl))
                (refl, refl))))

    module _ (P : AppState Store → Type 0)
        (keeps : (n : ℕ) (app : AppState Store) → P app → P (env.during n app))
        (credentials : (n : ℕ) (app : AppState Store)
          → (env.during n app).credentials ≡ app.credentials) where
      -- What the others keep holds, and nothing was sent.
      abbrev IsKept : World Store → World Store × Response → Type 0
      IsKept w (v, r) = P v.app × (v.sent ≡ w.sent)

      refused_later :
          (w : World Store)
          → authenticate services w.app req.authorization ≡ err e
          → authenticate services (now env w).0.app req.authorization ≡ err e
      unfolding now others authenticate
      refused_later w refused = rw (credentials w.tick w.app) refused

      limited-IsKept :
          (refusal : Option Response) (w : World Store)
          → authenticate services w.app req.authorization ≡ err e
          → P w.app
          → IsKept w (limited services web env refusal req w)
      unfolding limited trace_middleware now others
      limited-IsKept (some r) w refused p = (p, refl)
      limited-IsKept none w refused p =
          let w₁ = (now env w).0 in
          let (same, sent) = routes-IsUntouched w₁ (refused_later w refused) in
          (keeps _ _ (subst P (sym same) (keeps w.tick w.app p)), sent)

      -- Whatever its method, path and body, a request without a valid key sends nothing upstream
      -- and changes the shared state in no way: where the other tasks leave the credentials, every
      -- property of the state that they keep and that held before holds after.
      pub unauthenticated_untouched :
          (w : World Store)
          → authenticate services w.app req.authorization ≡ err e
          → P w.app
          → P (build_router services web env req w).0.app
            × ((build_router services web env req w).0.sent ≡ w.sent)
      unfolding build_router
      unauthenticated_untouched w refused p = limited-IsKept _ w refused p
