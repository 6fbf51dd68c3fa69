-- ===== src/Runs/Chats.antt =====
-- Through the chat handler.
use rust_llm_gateway_semanti.Prelude.{ℕ, ◌*◌, Option, none, some, Text}
use rust_llm_gateway_semanti.Prelude.Results.{Result, ok, err}
use rust_llm_gateway_semanti.Services.{Services}
use rust_llm_gateway_semanti.Bucket.{token, ReservationHandle, Reserved, handle, refused}
use rust_llm_gateway_semanti.State.{ClientIdentity}
use rust_llm_gateway_semanti.Types.{ChatCompletionRequest}
use rust_llm_gateway_semanti.Handlers.{World, Env}
use rust_llm_gateway_semanti.Failover.Rule.{dispatch_after}
use rust_llm_gateway_semanti.Attempts.{Call, try_candidate}
use rust_llm_gateway_semanti.Chat.{
  dispatch_call, lookup, cached_answer, after_lookup, with_cache, with_payload, admitted,
  after_reserve, chat_completions, estimated_tokens, with_usage,
}
use rust_llm_gateway_semanti.Runs.{Any, IsStable}
use rust_llm_gateway_semanti.Runs.Candidates.{
  after_holds, loop_holds, latency_holds, try_candidate_holds,
}

module _ (services : Services) (env : Env services.Store) (P : World services.Store → Type 0)
    (stable : IsStable services env P Any) where
  open services use {Store, Value}

  dispatch_call_holds :
      (call : Call) (h : ReservationHandle) (w : World Store)
      → P w
      → P (dispatch_call services env call h w).0
  unfolding dispatch_call
  dispatch_call_holds call h w p =
      dispatch_after env h P (λ o v. P v) (loop_holds services env P stable (λ name. tt) h)
        (λ c. try_candidate services env call c h)
        (λ c v q.
          after_holds services env P stable _ _
            (try_candidate_holds services env P stable call h c v tt q))
        _ w p

  after_lookup_holds :
      (call : Call) (model : Text) (found : Option Text) (h : ReservationHandle) (w : World Store)
      → P w
      → P (after_lookup services env call model found h w).0
  unfolding after_lookup cached_answer
  after_lookup_holds call model (some cached) h w p = stable.emits _ _ (
      latency_holds services env P stable call.request_start _
        (stable.emits _ _ (stable.reconciles call.client_id h 0 w p)))
  after_lookup_holds call model none h w p = dispatch_call_holds call h _ (stable.emits _ w p)

  with_cache_holds :
      (call : Call) (model : Text) (key : Option Text) (h : ReservationHandle) (w : World Store)
      → P w
      → P (with_cache services env call model key h w).0
  unfolding with_cache lookup
  with_cache_holds call model none h w p = dispatch_call_holds call h w p
  with_cache_holds call model (some key) h w p =
      after_lookup_holds call model _ h _ (stable.awaits _ (stable.reads w p))

  with_payload_holds :
      (identity : ClientIdentity) (payload : ChatCompletionRequest Value) (start : ℕ)
      (r : Result Text Text) (h : ReservationHandle) (w : World Store)
      → P w
      → P (with_payload services env identity payload start r h w).0
  unfolding with_payload
  with_payload_holds identity payload start (err e) h w p = p
  with_payload_holds identity payload start (ok prompt) h w p = with_cache_holds _ _ _ h w p

  module _ (serialize : ChatCompletionRequest Value → Result Text Text) where
    after_reserve_holds :
        (identity : ClientIdentity) (payload : ChatCompletionRequest Value) (start : ℕ)
        (r : Reserved) (w : World Store)
        → P w
        → P (after_reserve services env serialize identity payload start r w).0
    unfolding after_reserve admitted
    after_reserve_holds identity payload start (refused wait) w p = stable.emits _ w p
    after_reserve_holds identity payload start (handle h) w p =
        let payload' = with_usage payload in
        stable.drops identity.client_id _ _
          (with_payload_holds identity payload' start (serialize payload') h w p)

    pub chat_completions_hold :
        (identity : ClientIdentity) (payload : Result (ChatCompletionRequest Value) Text)
        (w : World Store)
        → P w
        → P (chat_completions services env serialize identity payload w).0
    unfolding chat_completions
    chat_completions_hold identity (err e) w p = p
    chat_completions_hold identity (ok payload) w p =
        after_reserve_holds identity payload _ _ _ (
          stable.reserves identity.client_id (estimated_tokens payload * token) _
            (stable.reads w p))
