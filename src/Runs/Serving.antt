-- ===== src/Runs/Serving.antt =====
-- Through the middlewares and the whole gateway.
use rust_llm_gateway_semanti.Prelude.{
  Bool, true, false, Option, none, some, text, text_eq, if◌then◌else◌,
}
use rust_llm_gateway_semanti.Prelude.Results.{Result, ok, err}
use rust_llm_gateway_semanti.Services.{Services}
use rust_llm_gateway_semanti.Error.{AppError}
use rust_llm_gateway_semanti.Bucket as Bucket
use rust_llm_gateway_semanti.Bucket.{Consumed}
use rust_llm_gateway_semanti.State.{ClientIdentity}
use rust_llm_gateway_semanti.Auth.{authenticate}
use rust_llm_gateway_semanti.Handlers.{Response, World, Env, M, return}
use rust_llm_gateway_semanti.Admission.{
  Handler, after_charge, rate_limit_middleware, with_identity, auth_middleware, api_route,
}
use rust_llm_gateway_semanti.Gateway.{
  Request, Web, trace_middleware, healthz, prometheus_metrics, posted, api, chat_handler,
  embeddings_handler, public, routes, limited, build_router,
}
use rust_llm_gateway_semanti.Runs.{Any, IsStable}
use rust_llm_gateway_semanti.Runs.Chats.{chat_completions_hold}
use rust_llm_gateway_semanti.Runs.Embedding.{embeddings_hold}

-- A run keeps the property.
abbrev Keeps : {Store A : Type 0} → (World Store → Type 0) → M Store A → Type 0
Keeps {Store} P m = (w : World Store) → P w → P (m w).0

if-Keeps :
    {Store A : Type 0} (P : World Store → Type 0) (c : Bool) (m k : M Store A)
    → Keeps P m
    → Keeps P k
    → Keeps P (if c then m else k)
if-Keeps P true m k p q = p
if-Keeps P false m k p q = q

module _ (services : Services) (env : Env services.Store) (P : World services.Store → Type 0)
    (stable : IsStable services env P Any) where
  open services use {Store}

  after_charge-Keeps :
      (r : Consumed) (next : Handler Store) → Keeps P next → Keeps P (after_charge env r next)
  unfolding after_charge
  after_charge-Keeps Bucket.ok next keeps w p = keeps w p
  after_charge-Keeps (Bucket.err wait) next keeps w p = stable.emits _ w p

  with_identity-Keeps :
      (r : Result ClientIdentity AppError) (handler : ClientIdentity → Handler Store)
      → ((identity : ClientIdentity) → Keeps P (handler identity))
      → Keeps P (
          with_identity services r
            (λ identity. rate_limit_middleware env (some identity) (handler identity)))
  unfolding with_identity rate_limit_middleware
  with_identity-Keeps (err e) handler keeps w p = p
  with_identity-Keeps (ok identity) handler keeps w p =
      after_charge-Keeps _ (handler identity) (keeps identity) _
        (stable.charges identity.client_id w p)

  module _ (web : Web services) (req : Request) where
    api-Keeps :
        (handler : ClientIdentity → Handler Store)
        → ((identity : ClientIdentity) → Keeps P (handler identity))
        → Keeps P (api services web env req handler)
    unfolding api api_route auth_middleware posted
    api-Keeps handler keeps w p =
        with_identity-Keeps (authenticate services w.app req.authorization)
          (posted services web env req handler)
          (λ identity.
            if-Keeps P (text_eq req.method (text "POST")) (handler identity) (return _)
              (keeps identity) (λ v q. q))
          w p

    public-Keeps : (m : M Store Response) → Keeps P m → Keeps P (public services web env req m)
    unfolding public
    public-Keeps m keeps =
        if-Keeps P (text_eq req.method (text "GET")) m _ keeps
          (if-Keeps P (text_eq req.method (text "HEAD")) _ (return _) keeps (λ v q. q))

    chat_handler-Keeps :
        (identity : ClientIdentity) → Keeps P (chat_handler services web env req identity)
    unfolding chat_handler
    chat_handler-Keeps identity w p =
        chat_completions_hold services env P stable web.chat_to_vec identity (web.chat_payload req)
          w p

    embeddings_handler-Keeps :
        (identity : ClientIdentity) → Keeps P (embeddings_handler services web env req identity)
    unfolding embeddings_handler
    embeddings_handler-Keeps identity w p =
        embeddings_hold services env P stable web.embedding_to_vec identity
          (web.embedding_payload req) w p

    routes-Keeps : Keeps P (routes services web env req)
    unfolding routes healthz prometheus_metrics
    routes-Keeps =
        if-Keeps P (text_eq req.path (text "/v1/chat/completions")) _ _
          (api-Keeps (chat_handler services web env req) chat_handler-Keeps)
          (if-Keeps P (text_eq req.path (text "/v1/embeddings")) _ _
            (api-Keeps (embeddings_handler services web env req) embeddings_handler-Keeps)
            (if-Keeps P (text_eq req.path (text "/healthz")) _ _
              (public-Keeps (healthz services web) (λ v q. q))
              (if-Keeps P (text_eq req.path (text "/metrics")) _ _
                (public-Keeps (prometheus_metrics services web) (λ v q. q)) (λ v q. q))))

    limited-Keeps : (refusal : Option Response) → Keeps P (limited services web env refusal req)
    unfolding limited trace_middleware
    limited-Keeps (some r) w p = p
    limited-Keeps none w p = stable.emits _ _ (stable.reads _ (routes-Keeps _ (stable.reads w p)))

    -- What every elementary step keeps still holds once a request is served.
    pub build_router-Keeps : (w : World Store) → P w → P (build_router services web env req w).0
    unfolding build_router
    build_router-Keeps w p = limited-Keeps _ w p
