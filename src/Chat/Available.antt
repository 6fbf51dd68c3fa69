-- ===== src/Chat/Available.antt =====
-- A chat request where one provider works and the others fail.
use mathlib.Core.List.{Memᴰ}
use rust_llm_gateway_semanti.Prelude.{
  text, ℕ, ◌+◌, ◌*◌, ◌≡◌, ◌≢◌, ◌⊎◌, inl, inr, refl, sym, subst, ap, ◌∙◌, Option, none, some, List,
  [], ◌∷◌, Text, All, All-map,
}
use rust_llm_gateway_semanti.Prelude.Results.{Result, ok}
use rust_llm_gateway_semanti.Services.{Services}
use rust_llm_gateway_semanti.Metrics.{record_cache_miss}
use rust_llm_gateway_semanti.Bucket.{token, ReservationHandle, Reserved, handle}
use rust_llm_gateway_semanti.Breaker.{CircuitBreaker, closed, is_eligible}
use rust_llm_gateway_semanti.Config.{ProviderConfig}
use rust_llm_gateway_semanti.State.{ClientIdentity}
use rust_llm_gateway_semanti.Selector.{SelectedProvider, select_ordered}
use rust_llm_gateway_semanti.Selector.Members.{candidate_of, select_from-All, select_from-Memᴰ}
use rust_llm_gateway_semanti.Types.{ChatCompletionRequest}
use rust_llm_gateway_semanti.Handlers.{
  Response, World, Env, emit, others, now, await, select, reserve,
}
use rust_llm_gateway_semanti.Failover.{Outcome, dispatch, dispatch_to}
use rust_llm_gateway_semanti.Failover.Recovery.{
  Succeeds, IsFine, failover-Succeeds, closed-Admits, is_eligible-closed,
}
use rust_llm_gateway_semanti.Attempts.{Call, try_candidate}
use rust_llm_gateway_semanti.Chat.{
  dispatch_call, lookup, cached_answer, after_lookup, with_cache, with_payload, admitted,
  after_reserve, chat_completions, estimated_tokens, with_usage, call_of,
}
use rust_llm_gateway_semanti.Chat.Recovery.{IsSuccess, Finishes, Works, Fails, works_lem, fails_lem}
use rust_llm_gateway_semanti.Runs.{IsStable}
use rust_llm_gateway_semanti.Runs.Candidates.{try_candidate_holds}
use rust_llm_gateway_semanti.Runs.Isolation.{
  breaker_in, LeavesBreaker, Stands, others-Stands, Stands-IsStable, LeavesProviders, Lists,
  others-Lists, Lists-IsStable,
}

module _ (services : Services) (env : Env services.Store) (p : ProviderConfig)
    (leaves : LeavesBreaker p.name env) (fixed : LeavesProviders env) (b : CircuitBreaker)
    (is_closed : b.state ≡ closed) (ps : List ProviderConfig) (listed : Memᴰ p ps) where
  open services use {Store, Value}

  abbrev StandsHere : World Store → Type 0
  StandsHere = Stands services env p.name leaves b

  abbrev ListsHere : World Store → Type 0
  ListsHere = Lists services env fixed ps

  select-All :
      (Q : SelectedProvider → Type 0) (w : World Store)
      → ListsHere w
      → All (λ q. Q (candidate_of q)) ps
      → All Q (select env w).1
  unfolding select select_ordered await
  select-All Q w s all =
      let same = others-Lists services env fixed ps w s in
      select_from-All _ _ Q 0 _ _ (subst (All (λ q. Q (candidate_of q))) (sym same) all)

  select-Memᴰ :
      (w : World Store) → StandsHere w → ListsHere w → Memᴰ (candidate_of p) (select env w).1
  unfolding select select_ordered await
  select-Memᴰ w s l =
      let w' = others env w in
      let same = others-Lists services env fixed ps w l in
      let found = others-Stands services env p.name leaves b w s in
      select_from-Memᴰ w'.app.config.circuit_breaker (λ i. env.clock (w'.tick + i)) p 0
        w'.app.sorted_providers w'.app.circuit_breakers
        (λ k.
          ap (λ c. is_eligible c (env.clock (w'.tick + k))) found
          ∙ is_eligible-closed b (env.clock (w'.tick + k)) is_closed)
        (subst (Memᴰ p) (sym same) listed)

  module _ (body : Text) (works : Works services env body p)
      (rest : All
        (λ (q : ProviderConfig). (q ≡ p) ⊎ ((q.name ≢ p.name) × Fails services env body q))
        ps) where
    module _ (call : Call) (same : call.body_bytes ≡ body) (h : ReservationHandle) where
      abbrev stable : IsStable services env StandsHere (λ other. other ≢ p.name)
      stable = Stands-IsStable services env p.name leaves b

      works_here :
          (w : World Store)
          → Finishes services env (try_candidate services env call (candidate_of p) h w).1
      works_here w = works_lem services env call h p w (rw same works)

      isolated :
          (c : SelectedProvider) (w : World Store)
          → c.config.name ≢ p.name
          → StandsHere w
          → StandsHere (try_candidate services env call c h w).0
      isolated c w apart s = try_candidate_holds services env StandsHere stable call h c w apart s

      abbrev FineHere : SelectedProvider → Type 0
      FineHere =
          IsFine env p.name leaves b (closed-Admits env b is_closed) IsSuccess
            (λ c. try_candidate services env call c h) (candidate_of p) refl works_here
            stable.allows isolated

      fine_lem :
          (q : ProviderConfig)
          → (q ≡ p) ⊎ ((q.name ≢ p.name) × Fails services env body q)
          → FineHere (candidate_of q)
      fine_lem q (inl is) = inl (ap candidate_of is)
      fine_lem q (inr (apart, fails)) =
          inr (apart, refl, λ w. fails_lem services env call h q w (rw same fails))

      dispatch_to-Succeeds :
          (none_available : Text) (cs : List SelectedProvider) (w : World Store)
          → All FineHere cs
          → Memᴰ (candidate_of p) cs
          → StandsHere w
          → Succeeds IsSuccess
              (dispatch_to env (λ c. try_candidate services env call c h) none_available h cs w)
      unfolding dispatch_to
      dispatch_to-Succeeds none_available [] w all there s = elim there [ ]
      dispatch_to-Succeeds none_available (c ∷ cs) w all there s =
          failover-Succeeds env p.name leaves b (closed-Admits env b is_closed) IsSuccess
            (λ c. try_candidate services env call c h) (candidate_of p) refl works_here
            stable.allows isolated h (c ∷ cs) none w all there s

      dispatch_call-Succeeds :
          (w : World Store)
          → StandsHere w
          → ListsHere w
          → Succeeds IsSuccess (dispatch_call services env call h w)
      unfolding dispatch_call dispatch
      dispatch_call-Succeeds w s l =
          dispatch_to-Succeeds _ (select env w).1 (select env w).0
            (select-All FineHere w l (All-map fine_lem ps rest)) (select-Memᴰ w s l)
            (stable.selects w s)

      after_lookup-Succeeds :
          (model : Text) (found : Option Text) (w : World Store)
          → StandsHere w
          → ListsHere w
          → Succeeds IsSuccess (after_lookup services env call model found h w)
      unfolding after_lookup cached_answer
      after_lookup-Succeeds model (some cached) w s l = (_, none, refl, refl)
      after_lookup-Succeeds model none w s l =
          dispatch_call-Succeeds (emit (record_cache_miss (text "exact")) w).0 s l

      with_cache-Succeeds :
          (model : Text) (key : Option Text) (w : World Store)
          → StandsHere w
          → ListsHere w
          → Succeeds IsSuccess (with_cache services env call model key h w)
      unfolding with_cache lookup now await
      with_cache-Succeeds model none w s l = dispatch_call-Succeeds w s l
      with_cache-Succeeds model (some key) w s l =
          let all = Lists-IsStable services env fixed ps in
          let (w₁, t) = now env w in
          after_lookup-Succeeds model _ (await env w₁).0 (stable.awaits w₁ (stable.reads w s))
            (all.awaits w₁ (all.reads w l))

    with_payload-Succeeds :
        (identity : ClientIdentity) (payload : ChatCompletionRequest Value) (start : ℕ)
        (r : Result Text Text) (h : ReservationHandle) (w : World Store)
        → r ≡ ok body
        → StandsHere w
        → ListsHere w
        → Succeeds IsSuccess (with_payload services env identity payload start r h w)
    unfolding with_payload call_of
    with_payload-Succeeds identity payload start r h w serialized s l =
        let call = call_of services env identity payload start body in
        rw serialized (with_cache-Succeeds call refl h payload.model call.cache_key w s l)

    module _ (serialize : ChatCompletionRequest Value → Result Text Text)
        (identity : ClientIdentity) (payload : ChatCompletionRequest Value)
        (serialized : serialize (with_usage payload) ≡ ok body) where
      after_reserve-IsSuccess :
          (start : ℕ) (r : Reserved) (h : ReservationHandle) (w : World Store)
          → r ≡ handle h
          → StandsHere w
          → ListsHere w
          → (answer : Response) × IsSuccess answer
            × ((after_reserve services env serialize identity payload start r w).1 ≡ ok answer)
      unfolding after_reserve admitted
      after_reserve-IsSuccess start r h w granted s l =
          let (answer, left, success, is) =
            with_payload-Succeeds identity (with_usage payload) start
              (serialize (with_usage payload)) h w serialized s l in
          rw granted (answer, success, ap (λ (o : Outcome). o.0) is)

      -- Where other tasks leave the breaker of one listed provider and the list itself, a chat
      -- request that is serialised and whose reservation is granted is answered with status 200 if
      -- that breaker is closed, the provider has a name that can stand in a header and answers
      -- such requests with a body and a status that is taken for a success, and every other
      -- provider has another name and gives no answer or a status that is retried.
      pub answered_if_one_works :
          (h : ReservationHandle) (w : World Store)
          → (reserve env identity.client_id (estimated_tokens payload * token) (now env w).0).1
            ≡ handle h
          → breaker_in p.name w.app ≡ b
          → w.app.sorted_providers ≡ ps
          → (answer : Response) × (answer.status ≡ 200)
            × ((chat_completions services env serialize identity (ok payload) w).1 ≡ ok answer)
      unfolding chat_completions
      answered_if_one_works h w granted s l =
          let stable = Stands-IsStable services env p.name leaves b in
          let all = Lists-IsStable services env fixed ps in
          let start = (now env w).0 in
          let cost = estimated_tokens payload * token in
          let (w', r) = reserve env identity.client_id cost start in
          after_reserve-IsSuccess (now env w).1 r h w' granted
            (stable.reserves identity.client_id cost start (stable.reads w s))
            (all.reserves identity.client_id cost start (all.reads w l))
