-- ===== src/Embeddings/Billing.antt =====
-- What an embeddings request is billed.
use rust_llm_gateway_semanti.Prelude.{
  ℕ, suc, ◌-◌, text, subst, ◌≡◌, ◌⊎◌, inl, inr, Option-cases, [], ◌∷◌, refl, Bool, true, false,
  Option, none, some, Text,
}
use rust_llm_gateway_semanti.Prelude.Results.{Result, ok, err}
use rust_llm_gateway_semanti.Services.{Services}
use rust_llm_gateway_semanti.Error.{AppError}
use rust_llm_gateway_semanti.Bucket as Bucket
use rust_llm_gateway_semanti.Bucket.{TokenBucket, ReservationHandle, Reserved, handle}
use rust_llm_gateway_semanti.Metrics.{record_request, record_upstream_latency}
use rust_llm_gateway_semanti.Config.{ProviderConfig}
use rust_llm_gateway_semanti.State.{ClientIdentity}
use rust_llm_gateway_semanti.Selector.{SelectedProvider}
use rust_llm_gateway_semanti.Client.{build_embeddings_request}
use rust_llm_gateway_semanti.Types.{EmbeddingRequest}
use rust_llm_gateway_semanti.Handlers.{
  build_response, header_failure, Sent, no_answer, answered, full, streamed, Response, World, Env,
  emit, await, others, now, record_success, record_failure,
}
use rust_llm_gateway_semanti.Failover.{Attempt, Verdict, retry, reject, accept}
use rust_llm_gateway_semanti.Failover.Rule.{dispatch_after}
use rust_llm_gateway_semanti.Failover.Billing.{
  IsAlone, HasTpm, settle, IsSettling, drop_left_settles, reconcile_settles, latency_settles,
  reserve_grants, await_keeps, now_keeps, send_keeps, tpm_of, tpm_of-now, fresh_handle,
  IsSettlingAttempt, IsSettlingOutcome, settling_rule,
}
use rust_llm_gateway_semanti.Embeddings.{
  EmbeddingCall, total_of, charge_total, read_body, on_other, on_verdict, on_sent, embed_with,
  embed_call, embed_payload, embed_reserved, embeddings, estimate_embedding_tokens,
}

-- What an answer owes, in tokens: the usage of its body, if it has one.
abbrev pub embedding_bill : (services : Services) → Env services.Store → Response → Option ℕ
embedding_bill services env r = elim r.body [
  | full body ↦ total_of services env body
  | streamed outputs ↦ none
]

-- An error owes nothing, unless it is that of the builder, which comes after the usage of the body
-- was charged.
abbrev pub EmbeddingOwes :
    (services : Services) → Env services.Store → Result Response AppError → Option ℕ → Type 0
EmbeddingOwes services env (ok r) bill = bill ≡ embedding_bill services env r
EmbeddingOwes services env (err e) bill = (bill ≡ none) ⊎ (e ≡ header_failure services)

module _ (services : Services) (env : Env services.Store) where
  open services use {Store, Value}

  module _ (call : EmbeddingCall) (alone : IsAlone call.client_id env) (b : TokenBucket)
      (h : ReservationHandle) where
    abbrev IsBilled : World Store × Attempt → Type 0
    IsBilled (w, a) = IsSettlingAttempt env call.client_id b h (EmbeddingOwes services env) a w

    charge_total_settles :
        (name : Text) (total : Option ℕ) (w : World Store)
        → HasTpm call.client_id b w
        → let r = charge_total services env call.client_id name total h w in
          IsSettling env call.client_id b h total r.1 r.0
    unfolding charge_total
    charge_total_settles name none w has = (refl, refl, has)
    charge_total_settles name (some n) w has =
        reconcile_settles env call.client_id alone b h n _ has

    built_owes :
        (name body : Text)
        → EmbeddingOwes services env
            (build_response services
              ((text "content-type", text "application/json") ∷ [])
              name
              body)
            (total_of services env body)
    unfolding build_response
    built_owes name body = elim (Option-cases (services.header_value name)) [
      | inl bad ↦ rw (EmbeddingOwes, bad) (inr refl)
      | inr (value, is) ↦ rw (EmbeddingOwes, is) refl
    ]

    read_body_settles :
        (p : ProviderConfig) (body : Option Text) (w : World Store)
        → HasTpm call.client_id b w
        → IsBilled (read_body services env call p body h w)
    unfolding read_body record_failure
    read_body_settles p none w has =
        (none, inl refl, (refl, refl, now_keeps env call.client_id alone b w has))
    read_body_settles p (some body) w has =
        let r = charge_total services env call.client_id p.name (total_of services env body) h w in
        (
          total_of services env body,
          built_owes p.name body,
          latency_settles env call.client_id alone b h (total_of services env body) r.1
              call.request_start r.0
              (charge_total_settles p.name (total_of services env body) w has),
        )

    on_other_settles :
        (p : ProviderConfig) (t : ℕ) (success : Bool) (status : ℕ) (body : Option Text)
        (w : World Store)
        → HasTpm call.client_id b w
        → IsBilled (on_other services env call p t success status body h w)
    unfolding on_other record_failure record_success
    on_other_settles p t false status body w has = now_keeps env call.client_id alone b w has
    on_other_settles p t true status body w has =
        let w₁ =
          (emit (record_request p.name (text "success")) (record_success env p.name w).0).0 in
        let (w₂, u) = now env w₁ in
        let w₃ = (emit (record_upstream_latency p.name (u - t)) w₂).0 in
        let kept =
          now_keeps env call.client_id alone b w₁ (await_keeps env call.client_id alone b w has) in
        read_body_settles p body (await env w₃).0 (await_keeps env call.client_id alone b w₃ kept)

    on_verdict_settles :
        (p : ProviderConfig) (t : ℕ) (v : Verdict) (status : ℕ) (body : Option Text)
        (w : World Store)
        → HasTpm call.client_id b w
        → IsBilled (on_verdict services env call p t v status body h w)
    unfolding on_verdict record_failure record_success
    on_verdict_settles p t retry status body w has = now_keeps env call.client_id alone b w has
    on_verdict_settles p t reject status body w has =
        (none, inl refl, (refl, refl, await_keeps env call.client_id alone b w has))
    on_verdict_settles p t accept status body w has = on_other_settles p t _ status body w has

    on_sent_settles :
        (p : ProviderConfig) (t : ℕ) (sent : Sent) (w : World Store)
        → HasTpm call.client_id b w
        → IsBilled (on_sent services env call p t sent h w)
    unfolding on_sent record_failure
    on_sent_settles p t no_answer w has = now_keeps env call.client_id alone b w has
    on_sent_settles p t (answered status body arrivals) w has =
        on_verdict_settles p t _ status body w has

    embed_with_settles :
        (c : SelectedProvider) (w : World Store)
        → HasTpm call.client_id b w
        → IsBilled (embed_with services env call c h w)
    unfolding embed_with
    embed_with_settles c w has =
        let req = build_embeddings_request c.config call.body_bytes in
        on_sent_settles c.config _ _ _ (
          send_keeps env call.client_id alone req b (now env w).0
            (now_keeps env call.client_id alone b w has))

  module _ (identity : ClientIdentity) (alone : IsAlone identity.client_id env) where
    embed_payload_settles :
        (start : ℕ) (r : Result Text Text) (b : TokenBucket) (h : ReservationHandle)
        (w : World Store)
        → HasTpm identity.client_id b w
        → let o = embed_payload services env identity start r h w in
          IsSettlingOutcome env identity.client_id b h (EmbeddingOwes services env) o.1 o.0
    unfolding embed_payload embed_call
    embed_payload_settles start (err e) b h w has = (none, inl refl, (refl, refl, has))
    embed_payload_settles start (ok bytes) b h w has =
        dispatch_after env h (HasTpm identity.client_id b) _
          (settling_rule env identity.client_id alone b h (EmbeddingOwes services env)
            (λ e. inl refl))
          _
          (embed_with_settles
            (record { client_id = identity.client_id; body_bytes = bytes; request_start = start })
            alone b h)
          _ w has

    embed_reserved_settles :
        (serialize : EmbeddingRequest Value → Result Text Text) (payload : EmbeddingRequest Value)
        (start : ℕ) (r : Reserved) (b : TokenBucket) (h : ReservationHandle) (w : World Store)
        → r ≡ handle h
        → HasTpm identity.client_id b w
        → let o = embed_reserved services env serialize identity payload start r w in
          (bill : Option ℕ) × EmbeddingOwes services env o.1 bill
          × ((k : ℕ) × HasTpm identity.client_id (settle b h bill (env.clock k)) o.0)
    unfolding embed_reserved
    embed_reserved_settles serialize payload start r b h w granted has =
        let o = embed_payload services env identity start (serialize payload) h w in
        let (bill, owes, settling) = embed_payload_settles start (serialize payload) b h w has in
        rw granted
          (bill, owes, drop_left_settles env identity.client_id alone b h bill o.1.1 o.0 settling)

    -- Where no other task touches the client's buckets or the configuration meanwhile, an
    -- embeddings request whose reservation is granted leaves the client's TPM bucket as the
    -- reservation settled exactly once, at some reading of the clock: reconciled with the total
    -- tokens that the body of the answer names, and dropped if the answer is an error, but for the
    -- failure of the response builder, after which either may be, or names none.
    pub embedding_settlement :
        (serialize : EmbeddingRequest Value → Result Text Text) (payload : EmbeddingRequest Value)
        (w : World Store)
        → let t = env.clock (suc w.tick) in
          let cost = estimate_embedding_tokens payload.input in
          let before = tpm_of identity.client_id w t in
          (Bucket.try_consume before cost t).1 ≡ Bucket.ok
          → let r = embeddings services env serialize identity (ok payload) w in
            let held = (Bucket.try_consume before cost t).0 in
            (bill : Option ℕ) × EmbeddingOwes services env r.1 bill
            × ((k : ℕ) × HasTpm identity.client_id
                  (settle held (fresh_handle cost) bill (env.clock k))
                  r.0)
    unfolding embeddings now others
    embedding_settlement serialize payload w =
        let id = identity.client_id in
        let cost = estimate_embedding_tokens payload.input in
        let t = env.clock (suc w.tick) in
        let r = embeddings services env serialize identity (ok payload) w in
        subst
          (λ before.
            (Bucket.try_consume before cost t).1 ≡ Bucket.ok
            → (bill : Option ℕ) × EmbeddingOwes services env r.1 bill
              × ((k : ℕ) × HasTpm id
                    (settle (Bucket.try_consume before cost t).0 (fresh_handle cost) bill
                      (env.clock k))
                    r.0))
          (tpm_of-now env id alone w t)
          (λ granted.
            let (held, has) = reserve_grants env id alone cost (now env w).0 granted in
            embed_reserved_settles serialize payload (env.clock w.tick) _ _ (fresh_handle cost) _
              held has)
