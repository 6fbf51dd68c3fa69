-- ===== src/Chat/Spared.antt =====
-- A provider whose breaker refuses, through a chat request.
use rust_llm_gateway_semanti.Prelude.{
  text, ℕ, ◌*◌, ◌≡◌, ◌≢◌, refl, ap, ◌∙◌, Option, none, some, List, [], ◌∷◌, Text, All, All-every,
  map, subst,
}
use rust_llm_gateway_semanti.Prelude.Results.{Result, ok, err}
use rust_llm_gateway_semanti.Services.{Services}
use rust_llm_gateway_semanti.Metrics.{record_cache_miss}
use rust_llm_gateway_semanti.Bucket.{token, ReservationHandle, Reserved, handle, refused}
use rust_llm_gateway_semanti.Breaker.{CircuitBreaker}
use rust_llm_gateway_semanti.Config.{ProviderConfig}
use rust_llm_gateway_semanti.State.{ClientIdentity}
use rust_llm_gateway_semanti.Selector.{SelectedProvider, select_ordered}
use rust_llm_gateway_semanti.Selector.Members.{
  candidate_of, trans, select_from-All, select_from-IsSublist,
}
use rust_llm_gateway_semanti.Types.{ChatCompletionRequest}
use rust_llm_gateway_semanti.Client.{OutboundRequest, build_chat_request}
use rust_llm_gateway_semanti.Handlers.{
  World, Env, emit, others, now, await, select, reserve, reconcile, drop_left, record_latency,
}
use rust_llm_gateway_semanti.Failover.{dispatch, dispatch_to}
use rust_llm_gateway_semanti.Failover.Order.{IsSublist, none_kept, with_requests}
use rust_llm_gateway_semanti.Failover.Spared.{Refuses, failover-IsSparing}
use rust_llm_gateway_semanti.Attempts.{Call, try_candidate}
use rust_llm_gateway_semanti.Chat.{
  dispatch_call, lookup, cached_answer, after_lookup, with_cache, with_payload, admitted,
  after_reserve, chat_completions, estimated_tokens, with_usage, call_of,
}
use rust_llm_gateway_semanti.Chat.Requests.{try_candidate_lem}
use rust_llm_gateway_semanti.Runs.Candidates.{try_candidate_holds}
use rust_llm_gateway_semanti.Runs.Isolation.{
  breaker_in, LeavesBreaker, Stands, others-Stands, Stands-IsStable, LeavesProviders, Lists,
  others-Lists,
}

-- The requests that were added are, all with one body, those for some of the providers, in their
-- order, and each of these has another name.
abbrev pub IsSpared :
    Text → List ProviderConfig → List OutboundRequest → List OutboundRequest → Type 0
IsSpared name ps before after =
    (body : Text) × (tried : List SelectedProvider) × IsSublist tried (map candidate_of ps)
    × All (λ (c : SelectedProvider). c.config.name ≢ name) tried
    × (after ≡ with_requests (λ c. build_chat_request c.config body) tried before)

module _ (services : Services) (env : Env services.Store) (name : Text)
    (leaves : LeavesBreaker name env) (b : CircuitBreaker) (refuses : Refuses env b)
    (fixed : LeavesProviders env) (ps : List ProviderConfig) where
  open services use {Store, Value}

  abbrev StandsHere : World Store → Type 0
  StandsHere = Stands services env name leaves b

  abbrev Starts : World Store → Type 0
  Starts w = StandsHere w × Lists services env fixed ps w

  others-Starts : (w : World Store) → Starts w → Starts (others env w)
  others-Starts w (s, lists) =
      (others-Stands services env name leaves b w s, others-Lists services env fixed ps w lists)

  -- How a step of the handler ends.
  abbrev IsSparedBy : World Store → World Store → Type 0
  IsSparedBy w v = IsSpared name ps w.sent v.sent × StandsHere v

  select-IsSublist :
      (w : World Store)
      → Lists services env fixed ps w
      → IsSublist (select env w).1 (map candidate_of ps)
  unfolding select select_ordered await
  select-IsSublist w lists =
      subst (λ qs. IsSublist (select env w).1 (map candidate_of qs))
        (others-Lists services env fixed ps w lists) (select_from-IsSublist _ _ _ _ _)

  none_yet : (w w' v : World Store) → w'.sent ≡ w.sent → IsSparedBy w' v → IsSparedBy w v
  none_yet w w' v same ((body, tried, sub, apart, sent), s) =
      let request = λ (c : SelectedProvider). build_chat_request c.config body in
      ((body, tried, sub, apart, sent ∙ ap (with_requests request tried) same), s)

  select-named :
      (w : World Store) → All (λ (c : SelectedProvider). c.breaker ≡ c.config.name) (select env w).1
  unfolding select select_ordered await
  select-named w =
      select_from-All _ _ _ 0 _ _
        (All-every (λ (p : ProviderConfig). p.name ≡ p.name) (λ p. refl) _)

  sent-select : (w : World Store) → (select env w).0.sent ≡ w.sent
  unfolding select select_ordered await others
  sent-select w = refl

  module _ (call : Call) (h : ReservationHandle) where
    dispatch_to-IsSparedBy :
        (none_available : Text) (cs : List SelectedProvider) (w : World Store)
        → All (λ (c : SelectedProvider). c.breaker ≡ c.config.name) cs
        → IsSublist cs (map candidate_of ps)
        → StandsHere w
        → IsSparedBy w
            (dispatch_to env (λ c. try_candidate services env call c h) none_available h cs w).0
    unfolding dispatch_to
    dispatch_to-IsSparedBy none_available [] w named some_of s =
        (([], [], none_kept _, tt, refl), s)
    dispatch_to-IsSparedBy none_available (c ∷ cs) w named some_of s =
        let stable = Stands-IsStable services env name leaves b in
        let ((tried, sub, apart, sent), after) =
          failover-IsSparing env name leaves b (λ c. try_candidate services env call c h)
            (λ c. build_chat_request c.config call.body_bytes)
            (λ c v. try_candidate_lem services env call c h v) stable.allows
            (λ c v apart q. try_candidate_holds services env StandsHere stable call h c v apart q) h
            (c ∷ cs) none w refuses named s in
        ((call.body_bytes, tried, trans sub some_of, apart, sent), after)

    dispatch_call-IsSparedBy :
        (w : World Store) → Starts w → IsSparedBy w (dispatch_call services env call h w).0
    unfolding dispatch_call dispatch
    dispatch_call-IsSparedBy w (s, lists) =
        let stable = Stands-IsStable services env name leaves b in
        let (w', cs) = select env w in
        none_yet w w' (dispatch_call services env call h w).0 (sent-select w) (
          dispatch_to-IsSparedBy _ cs w' (select-named w) (select-IsSublist w lists)
            (stable.selects w s))

    after_lookup-IsSparedBy :
        (model : Text) (found : Option Text) (w : World Store)
        → Starts w
        → IsSparedBy w (after_lookup services env call model found h w).0
    unfolding after_lookup cached_answer reconcile record_latency now others
    after_lookup-IsSparedBy model (some cached) w (s, lists) =
        let w' = (reconcile env call.client_id h 0 w).0 in
        (
          ([], [], none_kept _, tt, refl),
          others-Stands services env name leaves b w'
              (others-Stands services env name leaves b w s),
        )
    after_lookup-IsSparedBy model none w s =
        dispatch_call-IsSparedBy (emit (record_cache_miss (text "exact")) w).0 s

    with_cache-IsSparedBy :
        (model : Text) (key : Option Text) (w : World Store)
        → Starts w
        → IsSparedBy w (with_cache services env call model key h w).0
    unfolding with_cache lookup now await others
    with_cache-IsSparedBy model none w s = dispatch_call-IsSparedBy w s
    with_cache-IsSparedBy model (some key) w s =
        let w₁ = others env w in
        let w₂ = others env w₁ in
        none_yet w w₂ (with_cache services env call model (some key) h w).0 refl
          (after_lookup-IsSparedBy model _ w₂ (others-Starts w₁ (others-Starts w s)))

  with_payload-IsSparedBy :
      (identity : ClientIdentity) (payload : ChatCompletionRequest Value) (start : ℕ)
      (r : Result Text Text) (h : ReservationHandle) (w : World Store)
      → Starts w
      → IsSparedBy w (with_payload services env identity payload start r h w).0
  unfolding with_payload
  with_payload-IsSparedBy identity payload start (err e) h w (s, lists) =
      (([], [], none_kept _, tt, refl), s)
  with_payload-IsSparedBy identity payload start (ok prompt) h w s =
      with_cache-IsSparedBy (call_of services env identity payload start prompt) h payload.model _ w
        s

  sent-drop_left :
      (id : Text) (left : Option ReservationHandle) (w : World Store)
      → (drop_left env id left w).0.sent ≡ w.sent
  unfolding drop_left now others
  sent-drop_left id none w = refl
  sent-drop_left id (some h) w = refl

  module _ (serialize : ChatCompletionRequest Value → Result Text Text) (identity : ClientIdentity)
      (payload : ChatCompletionRequest Value) where
    after_reserve-IsSparedBy :
        (start : ℕ) (r : Reserved) (w : World Store)
        → Starts w
        → IsSparedBy w (after_reserve services env serialize identity payload start r w).0
    unfolding after_reserve admitted
    after_reserve-IsSparedBy start (refused wait) w (s, lists) =
        (([], [], none_kept _, tt, refl), s)
    after_reserve-IsSparedBy start (handle h) w s =
        let payload' = with_usage payload in
        let (v, o) = with_payload services env identity payload' start (serialize payload') h w in
        let stable = Stands-IsStable services env name leaves b in
        let ((body, tried, sub, apart, sent), after) =
          with_payload-IsSparedBy identity payload' start (serialize payload') h w s in
        (
          (body, tried, sub, apart, sent-drop_left identity.client_id o.1 v ∙ sent),
          stable.drops identity.client_id o.1 v after,
        )

    -- Where no other task changes the list of the providers or the breaker of one provider
    -- meanwhile, and that breaker refuses at every reading of the clock, as an open one does that
    -- has not cooled down, a chat request leaves that breaker as it was, and what it sends are
    -- requests for some of the listed providers, each of another name, in their order, at most one
    -- each, with one body.
    pub spares_refusing :
        (w : World Store)
        → w.app.sorted_providers ≡ ps
        → breaker_in name w.app ≡ b
        → let w' = (chat_completions services env serialize identity (ok payload) w).0 in
          IsSpared name ps w.sent w'.sent × (breaker_in name w'.app ≡ b)
    unfolding chat_completions reserve now others
    spares_refusing w lists s =
        let stable = Stands-IsStable services env name leaves b in
        let start = (now env w).0 in
        let cost = estimated_tokens payload * token in
        let (w', r) = reserve env identity.client_id cost start in
        let lists' =
          others-Lists services env fixed ps start (others-Lists services env fixed ps w lists) in
        none_yet w w' (chat_completions services env serialize identity (ok payload) w).0 refl (
          after_reserve-IsSparedBy (env.clock w.tick) r w'
            (stable.reserves identity.client_id cost start (stable.reads w s), lists'))
