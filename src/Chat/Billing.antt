-- ===== src/Chat/Billing.antt =====
-- What a chat completion is billed, once its answer is read to its end.
use rust_llm_gateway_semanti.Prelude.{
  text, ℕ, suc, subst, ◌*◌, ◌≡◌, inl, refl, Option, none, some, Text, text_eq,
}
use rust_llm_gateway_semanti.Prelude.Maps.{get}
use rust_llm_gateway_semanti.Prelude.Results.{Result, ok, err}
use rust_llm_gateway_semanti.Services.{Services}
use rust_llm_gateway_semanti.Bucket as Bucket
use rust_llm_gateway_semanti.Bucket.{
  TokenBucket, RateLimitBuckets, ReservationHandle, Reserved, handle, refused, token,
}
use rust_llm_gateway_semanti.State.{ClientIdentity}
use rust_llm_gateway_semanti.Types.{ChatCompletionRequest}
use rust_llm_gateway_semanti.Handlers.{World, Env, emit, reconcile, others, now}
use rust_llm_gateway_semanti.Metrics.{record_cache_hit}
use rust_llm_gateway_semanti.Failover.{Outcome}
use rust_llm_gateway_semanti.Failover.Rule.{dispatch_after}
use rust_llm_gateway_semanti.Failover.Billing.{
  IsAlone, HasTpm, settle, drop_left_settles, reconcile_settles, reserve_grants, await_keeps,
  now_keeps, latency_settles, tpm_of, tpm_of-now, fresh_handle, IsSettlingOutcome, settling_rule,
}
use rust_llm_gateway_semanti.Attempts.{Call}
use rust_llm_gateway_semanti.Chat.{
  dispatch_call, lookup, cached_answer, after_lookup, with_cache, call_of, with_payload, admitted,
  after_reserve, chat_completions, with_usage, estimated_tokens,
}
use rust_llm_gateway_semanti.Chat.Bill.{ChatOwes}
use rust_llm_gateway_semanti.Chat.Settling.{try_candidate_settles}

module _ (services : Services) (env : Env services.Store) (id : Text) (alone : IsAlone id env) where
  open services use {Store, Value}

  module _ (call : Call) (same : call.client_id ≡ id) (b : TokenBucket)
      (h : ReservationHandle) where
    abbrev IsBilledOutcome : World Store × Outcome → Type 0
    IsBilledOutcome (w, o) = IsSettlingOutcome env id b h (ChatOwes services env) o w

    dispatch_call_settles :
        (w : World Store) → HasTpm id b w → IsBilledOutcome (dispatch_call services env call h w)
    unfolding dispatch_call
    dispatch_call_settles w has =
        dispatch_after env h (HasTpm id b) _
          (settling_rule env id alone b h (ChatOwes services env) (λ e. inl refl)) _
          (try_candidate_settles services env id alone call same b h) _ w has

    after_lookup_settles :
        (model : Text) (found : Option Text) (w : World Store)
        → HasTpm id b w
        → IsBilledOutcome (after_lookup services env call model found h w)
    unfolding after_lookup cached_answer get text_eq
    after_lookup_settles model (some cached) w has =
        let v = (emit (record_cache_hit (text "exact")) (reconcile env id h 0 w).0).0 in
        rw same (
          some 0,
          refl,
          latency_settles env id alone b h (some 0) none call.request_start v
              (reconcile_settles env id alone b h 0 w has),
        )
    after_lookup_settles model none w has = dispatch_call_settles _ has

    with_cache_settles :
        (model : Text) (key : Option Text) (w : World Store)
        → HasTpm id b w
        → IsBilledOutcome (with_cache services env call model key h w)
    unfolding with_cache lookup
    with_cache_settles model none w has = dispatch_call_settles w has
    with_cache_settles model (some key) w has =
        after_lookup_settles model _ _
          (await_keeps env id alone b (now env w).0 (now_keeps env id alone b w has))

module _ (services : Services) (env : Env services.Store) (identity : ClientIdentity)
    (alone : IsAlone identity.client_id env) where
  open services use {Store, Value}

  module _ (b : TokenBucket) (h : ReservationHandle) where
    with_payload_settles :
        (payload : ChatCompletionRequest Value) (start : ℕ) (r : Result Text Text) (w : World Store)
        → HasTpm identity.client_id b w
        → let o = with_payload services env identity payload start r h w in
          IsSettlingOutcome env identity.client_id b h (ChatOwes services env) o.1 o.0
    unfolding with_payload call_of
    with_payload_settles payload start (err e) w has = (none, inl refl, (refl, refl, has))
    with_payload_settles payload start (ok prompt) w has =
        with_cache_settles services env identity.client_id alone
          (call_of services env identity payload start prompt) refl b h payload.model _ w has

    after_reserve_settles :
        (serialize : ChatCompletionRequest Value → Result Text Text)
        (payload : ChatCompletionRequest Value) (start : ℕ) (r : Reserved) (w : World Store)
        → r ≡ handle h
        → HasTpm identity.client_id b w
        → let o = after_reserve services env serialize identity payload start r w in
          (bill : Option ℕ) × ChatOwes services env o.1 bill
          × ((k : ℕ) × HasTpm identity.client_id (settle b h bill (env.clock k)) o.0)
    unfolding after_reserve admitted
    after_reserve_settles serialize payload start r w granted has =
        let payload' = with_usage payload in
        let o = admitted services env serialize identity payload' start h w in
        let (bill, owes, settling) =
          with_payload_settles payload' start (serialize payload') w has in
        rw granted
          (bill, owes, drop_left_settles env identity.client_id alone b h bill o.1.1 o.0 settling)

  -- Where no other task touches the client's buckets or the configuration meanwhile, a chat
  -- request whose reservation is granted leaves the client's TPM bucket as the reservation settled
  -- exactly once, at some reading of the clock: dropped if the answer is an error, but for the
  -- failure of the response builder, after which either may be, or names no usage, and otherwise
  -- reconciled with what the answer itself says, nothing for one from the cache, the usage of its
  -- body, or of the first event with one among the bytes that the stream delivers.
  pub chat_settlement :
      (serialize : ChatCompletionRequest Value → Result Text Text)
      (payload : ChatCompletionRequest Value) (w : World Store)
      → let t = env.clock (suc w.tick) in
        let cost = estimated_tokens payload * token in
        let before = tpm_of identity.client_id w t in
        (Bucket.try_consume before cost t).1 ≡ Bucket.ok
        → let r = chat_completions services env serialize identity (ok payload) w in
          let held = (Bucket.try_consume before cost t).0 in
          (bill : Option ℕ) × ChatOwes services env r.1 bill
          × ((k : ℕ) × HasTpm identity.client_id
                (settle held (fresh_handle cost) bill (env.clock k))
                r.0)
  unfolding chat_completions now others
  chat_settlement serialize payload w =
      let id = identity.client_id in
      let cost = estimated_tokens payload * token in
      let t = env.clock (suc w.tick) in
      let r = chat_completions services env serialize identity (ok payload) w in
      subst
        (λ before.
          (Bucket.try_consume before cost t).1 ≡ Bucket.ok
          → (bill : Option ℕ) × ChatOwes services env r.1 bill
            × ((k : ℕ) × HasTpm id
                  (settle (Bucket.try_consume before cost t).0 (fresh_handle cost) bill
                    (env.clock k))
                  r.0))
        (tpm_of-now env id alone w t)
        (λ granted.
          let (held, has) = reserve_grants env id alone cost (now env w).0 granted in
          after_reserve_settles _ (fresh_handle cost) serialize payload (env.clock w.tick) _ _ held
            has)
