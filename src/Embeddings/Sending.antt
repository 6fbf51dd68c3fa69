-- ===== src/Embeddings/Sending.antt =====
-- Which requests the embeddings handler sends, and in which order.
use rust_llm_gateway_semanti.Prelude.{
  ℕ, ◌≡◌, refl, Bool, true, false, Option, none, some, List, ◌∷◌, Text,
}
use rust_llm_gateway_semanti.Services.{Services}
use rust_llm_gateway_semanti.Bucket.{ReservationHandle}
use rust_llm_gateway_semanti.Config.{ProviderConfig}
use rust_llm_gateway_semanti.Selector.{SelectedProvider}
use rust_llm_gateway_semanti.Client.{build_embeddings_request}
use rust_llm_gateway_semanti.Handlers.{
  Sent, no_answer, answered, World, Env, now, await, send, record_success, record_failure,
  record_latency, reconcile,
}
use rust_llm_gateway_semanti.Failover.{Verdict, retry, reject, accept, failover}
use rust_llm_gateway_semanti.Failover.Order.{IsOrdered, failover-IsOrdered}
use rust_llm_gateway_semanti.Embeddings.{
  EmbeddingCall, charge_total, read_body, on_other, on_verdict, on_sent, embed_with,
}

module _ (services : Services) (env : Env services.Store) where
  open services use {Store}

  charge_total_lem :
      (client_id name : Text) (total : Option ℕ) (h : ReservationHandle) (w : World Store)
      → (charge_total services env client_id name total h w).0.sent ≡ w.sent
  unfolding charge_total reconcile now
  charge_total_lem client_id name none h w = refl
  charge_total_lem client_id name (some n) h w = refl

  read_body_lem :
      (call : EmbeddingCall) (p : ProviderConfig) (body : Option Text) (h : ReservationHandle)
      (w : World Store)
      → (read_body services env call p body h w).0.sent ≡ w.sent
  unfolding read_body record_failure record_latency now
  read_body_lem call p none h w = refl
  read_body_lem call p (some b) h w = charge_total_lem call.client_id p.name _ h w

  on_other_lem :
      (call : EmbeddingCall) (p : ProviderConfig) (t : ℕ) (success : Bool) (status : ℕ)
      (body : Option Text) (h : ReservationHandle) (w : World Store)
      → (on_other services env call p t success status body h w).0.sent ≡ w.sent
  unfolding on_other record_success record_failure now await
  on_other_lem call p t true status body h w = read_body_lem call p body h _
  on_other_lem call p t false status body h w = refl

  on_verdict_lem :
      (call : EmbeddingCall) (p : ProviderConfig) (t : ℕ) (v : Verdict) (status : ℕ)
      (body : Option Text) (h : ReservationHandle) (w : World Store)
      → (on_verdict services env call p t v status body h w).0.sent ≡ w.sent
  unfolding on_verdict record_success record_failure now
  on_verdict_lem call p t retry status body h w = refl
  on_verdict_lem call p t reject status body h w = refl
  on_verdict_lem call p t accept status body h w = on_other_lem call p t _ status body h w

  on_sent_lem :
      (call : EmbeddingCall) (p : ProviderConfig) (t : ℕ) (sent : Sent) (h : ReservationHandle)
      (w : World Store)
      → (on_sent services env call p t sent h w).0.sent ≡ w.sent
  unfolding on_sent record_failure now
  on_sent_lem call p t no_answer h w = refl
  on_sent_lem call p t (answered status body arrivals) h w =
      on_verdict_lem call p t _ status body h w

  embed_with_lem :
      (call : EmbeddingCall) (h : ReservationHandle) (c : SelectedProvider) (w : World Store)
      → (embed_with services env call c h w).0.sent
        ≡ build_embeddings_request c.config call.body_bytes ∷ w.sent
  unfolding embed_with now send await
  embed_with_lem call h c w = on_sent_lem call c.config _ _ h _

  -- The failover loop of the embeddings handler sends each candidate at most one request, in the
  -- order of the candidates and with the same body, and sends nothing else.
  pub embeddings_in_order :
      (call : EmbeddingCall) (h : ReservationHandle) (cs : List SelectedProvider)
      (last : Option Text) (w : World Store)
      → IsOrdered
          (λ c. build_embeddings_request c.config call.body_bytes)
          cs
          w.sent
          (failover env (λ c. embed_with services env call c h) h cs last w).0.sent
  embeddings_in_order call h cs last w =
      failover-IsOrdered env _ (λ c. build_embeddings_request c.config call.body_bytes)
        (λ c v. embed_with_lem call h c v) h cs last w
