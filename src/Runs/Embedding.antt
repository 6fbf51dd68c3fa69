-- ===== src/Runs/Embedding.antt =====
-- Through the embeddings handler.
use rust_llm_gateway_semanti.Prelude.{ℕ, Bool, true, false, Option, none, some, Text}
use rust_llm_gateway_semanti.Prelude.Results.{Result, ok, err}
use rust_llm_gateway_semanti.Services.{Services}
use rust_llm_gateway_semanti.Bucket.{ReservationHandle, Reserved, handle, refused}
use rust_llm_gateway_semanti.Config.{ProviderConfig}
use rust_llm_gateway_semanti.State.{ClientIdentity}
use rust_llm_gateway_semanti.Selector.{SelectedProvider}
use rust_llm_gateway_semanti.Types.{EmbeddingRequest}
use rust_llm_gateway_semanti.Handlers.{Sent, no_answer, answered, World, Env}
use rust_llm_gateway_semanti.Failover.{Verdict, retry, reject, accept, classify}
use rust_llm_gateway_semanti.Failover.Rule.{dispatch_after}
use rust_llm_gateway_semanti.Embeddings.{
  EmbeddingCall, total_of, charge_total, read_body, on_other, on_verdict, on_sent, embed_with,
  embed_call, embed_payload, embed_reserved, embeddings, estimate_embedding_tokens,
}
use rust_llm_gateway_semanti.Runs.{Any, IsStable}
use rust_llm_gateway_semanti.Runs.Candidates.{after_holds, loop_holds, latency_holds}

module _ (services : Services) (env : Env services.Store) (P : World services.Store → Type 0)
    (stable : IsStable services env P Any) where
  open services use {Store, Value}

  charge_total_holds :
      (id name : Text) (total : Option ℕ) (h : ReservationHandle) (w : World Store)
      → P w
      → P (charge_total services env id name total h w).0
  unfolding charge_total
  charge_total_holds id name none h w p = p
  charge_total_holds id name (some n) h w p = stable.reconciles id h _ _ (stable.emits _ w p)

  module _ (call : EmbeddingCall) (provider : ProviderConfig) (h : ReservationHandle) where
    read_body_holds :
        (body : Option Text) (w : World Store)
        → P w
        → P (read_body services env call provider body h w).0
    unfolding read_body
    read_body_holds none w p = stable.emits _ _ (stable.fails provider.name w tt p)
    read_body_holds (some body) w p =
        latency_holds services env P stable call.request_start _
          (charge_total_holds call.client_id provider.name (total_of services env body) h w p)

    on_other_holds :
        (t : ℕ) (success : Bool) (status : ℕ) (body : Option Text) (w : World Store)
        → P w
        → P (on_other services env call provider t success status body h w).0
    unfolding on_other
    on_other_holds t false status body w p = stable.emits _ _ (stable.fails provider.name w tt p)
    on_other_holds t true status body w p = read_body_holds body _ (
        stable.awaits _ (
          stable.emits _ _
            (stable.reads _ (stable.emits _ _ (stable.succeeds provider.name w tt p)))))

    on_verdict_holds :
        (t : ℕ) (v : Verdict) (status : ℕ) (body : Option Text) (w : World Store)
        → P w
        → P (on_verdict services env call provider t v status body h w).0
    unfolding on_verdict
    on_verdict_holds t retry status body w p = stable.emits _ _ (stable.fails provider.name w tt p)
    on_verdict_holds t reject status body w p =
        stable.emits _ _ (stable.succeeds provider.name w tt p)
    on_verdict_holds t accept status body w p = on_other_holds t _ status body w p

    on_sent_holds :
        (t : ℕ) (sent : Sent) (w : World Store)
        → P w
        → P (on_sent services env call provider t sent h w).0
    unfolding on_sent
    on_sent_holds t no_answer w p = stable.emits _ _ (stable.fails provider.name w tt p)
    on_sent_holds t (answered status body arrivals) w p =
        on_verdict_holds t (classify services status) status body w p

  embed_with_holds :
      (call : EmbeddingCall) (h : ReservationHandle) (c : SelectedProvider) (w : World Store)
      → P w
      → P (embed_with services env call c h w).0
  unfolding embed_with
  embed_with_holds call h c w p =
      on_sent_holds call c.config h _ _ _ (stable.sends _ _ (stable.reads w p))

  embed_payload_holds :
      (identity : ClientIdentity) (start : ℕ) (r : Result Text Text) (h : ReservationHandle)
      (w : World Store)
      → P w
      → P (embed_payload services env identity start r h w).0
  unfolding embed_payload embed_call
  embed_payload_holds identity start (err e) h w p = p
  embed_payload_holds identity start (ok bytes) h w p =
      dispatch_after env h P (λ o v. P v) (loop_holds services env P stable (λ name. tt) h)
        (λ c. embed_with services env _ c h)
        (λ c v q. after_holds services env P stable _ _ (embed_with_holds _ h c v q)) _ w p

  module _ (serialize : EmbeddingRequest Value → Result Text Text) where
    embed_reserved_holds :
        (identity : ClientIdentity) (payload : EmbeddingRequest Value) (start : ℕ) (r : Reserved)
        (w : World Store)
        → P w
        → P (embed_reserved services env serialize identity payload start r w).0
    unfolding embed_reserved
    embed_reserved_holds identity payload start (refused wait) w p = stable.emits _ w p
    embed_reserved_holds identity payload start (handle h) w p =
        stable.drops identity.client_id _ _
          (embed_payload_holds identity start (serialize payload) h w p)

    pub embeddings_hold :
        (identity : ClientIdentity) (payload : Result (EmbeddingRequest Value) Text)
        (w : World Store)
        → P w
        → P (embeddings services env serialize identity payload w).0
    unfolding embeddings
    embeddings_hold identity (err e) w p = p
    embeddings_hold identity (ok payload) w p = embed_reserved_holds identity payload _ _ _ (
        stable.reserves identity.client_id (estimate_embedding_tokens payload.input) _
          (stable.reads w p))
