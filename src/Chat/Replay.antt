-- ===== src/Chat/Replay.antt =====
-- What the cache answers after a body was answered and stored.
use rust_llm_gateway_semanti.Prelude.{
  ℕ, suc, ◌≡◌, ◌⊎◌, inl, inr, refl, sym, ap, ◌∙◌, true, Option, none, some, [], ◌∷◌, Text, text,
}
use rust_llm_gateway_semanti.Prelude.Utf8.{is_utf8, from_utf8_lossy}
use rust_llm_gateway_semanti.Prelude.Utf8.Lossless.{lossless}
use rust_llm_gateway_semanti.Prelude.Results.{ok}
use rust_llm_gateway_semanti.Services.{Services, IsDocumented}
use rust_llm_gateway_semanti.Bucket.{ReservationHandle}
use rust_llm_gateway_semanti.ExactCache as ExactCache
use rust_llm_gateway_semanti.Config.{ProviderConfig}
use rust_llm_gateway_semanti.State.{AppState}
use rust_llm_gateway_semanti.Handlers.{
  full, build_response, Response, World, Env, others, now, await, record_latency, reconcile,
}
use rust_llm_gateway_semanti.Failover.{finished}
use rust_llm_gateway_semanti.Attempts.{
  Call, json, charge, charge_usage, remember, usage_of, body_answer,
}
use rust_llm_gateway_semanti.Chat.{lookup, cached_answer, after_lookup, with_cache}

-- No other task touches the exact cache between the steps of a run.
abbrev pub LeavesCache : {Store : Type 0} → Env Store → Type 0
LeavesCache {Store} env =
    (n : ℕ) (app : AppState Store) → (env.during n app).exact_cache ≡ app.exact_cache

-- The answer with a body, and the answer with one from the cache.
abbrev pub fresh_response : Text → Text → Response
fresh_response provider body = record {
  status = 200;
  headers = json ∷ (text "x-cache", text "MISS") ∷ (text "x-provider", provider) ∷ [];
  body = full body;
}

abbrev pub cached_response : Text → Response
cached_response body = record {
  status = 200;
  headers = json ∷ (text "x-cache", text "HIT") ∷ [];
  body = full body;
}

module _ (services : Services) (env : Env services.Store) (quiet : LeavesCache env) where
  open services use {Store, store_get, store_insert}

  charge_usage_cache :
      (id name : Text) (usage : Option (ℕ × ℕ)) (h : ReservationHandle) (w : World Store)
      → (charge_usage services env id name usage h w).0.app.exact_cache ≡ w.app.exact_cache
  unfolding charge_usage charge reconcile now others
  charge_usage_cache id name none h w = refl
  charge_usage_cache id name (some (p, c)) h w = quiet w.tick w.app

  remember_cache :
      (key value : Text) (w : World Store)
      → (remember services env (some key) value w).0.app.exact_cache
        ≡ store_insert w.app.exact_cache key value (env.clock w.tick)
  unfolding remember now await others ExactCache.insert
  remember_cache key value w =
      quiet _ _ ∙ ap (λ c. store_insert c key value (env.clock w.tick)) (quiet w.tick w.app)

  built :
      (provider name body : Text)
      → services.header_value name ≡ some provider
      → build_response services (json ∷ (text "x-cache", text "MISS") ∷ []) name body
        ≡ ok (fresh_response provider body)
  unfolding build_response
  built provider name body named = rw (named, build_response) refl

  module _ (id key raw : Text) (p : ProviderConfig) (start : ℕ) (h : ReservationHandle)
      (w : World Store) where
    body_answer_cache :
        is_utf8 raw ≡ true
        → (body_answer services env id (some key) p start (some raw) h w).0.app.exact_cache
          ≡ store_insert w.app.exact_cache key raw (env.clock (suc w.tick))
    unfolding body_answer await record_latency now others
    body_answer_cache valid =
        let body = from_utf8_lossy raw in
        let w₁ = (await env w).0 in
        let w₂ = (remember services env (some key) body w₁).0 in
        let w₃ = (charge_usage services env id p.name (usage_of services env body) h w₂).0 in
        quiet w₃.tick w₃.app
        ∙ charge_usage_cache id p.name (usage_of services env body) h w₂
        ∙ remember_cache key body w₁
        ∙ ap (λ c. store_insert c key body (env.clock (suc w.tick))) (quiet w.tick w.app)
        ∙ ap (λ v. store_insert w.app.exact_cache key v (env.clock (suc w.tick)))
            (lossless raw valid)

    first_answer :
        (provider : Text)
        → is_utf8 raw ≡ true
        → services.header_value p.name ≡ some provider
        → (left : Option ReservationHandle) × ((body_answer services env id
              (some key)
              p
              start
              (some raw)
              h
              w).1
            ≡ finished (ok (fresh_response provider raw)) left)
    unfolding body_answer
    first_answer provider valid named =
        let body = from_utf8_lossy raw in
        let w₁ = (remember services env (some key) body (await env w).0).0 in
        let left = (charge_usage services env id p.name (usage_of services env body) h w₁).1 in
        (
          left,
          ap (λ r. finished r left) (built provider p.name body named)
              ∙ ap (λ b. finished (ok (fresh_response provider b)) left) (lossless raw valid),
        )

  found_answer :
      (call : Call) (model body : Text) (found : Option Text) (h : ReservationHandle)
      (w : World Store)
      → found ≡ some body
      → (after_lookup services env call model found h w).1 ≡ (ok (cached_response body), none)
  unfolding after_lookup cached_answer
  found_answer call model body found h w is_there = rw is_there refl

  -- A cached body is answered without a request to a provider.
  found_sends :
      (call : Call) (model body : Text) (found : Option Text) (h : ReservationHandle)
      (w : World Store)
      → found ≡ some body
      → (after_lookup services env call model found h w).0.sent ≡ w.sent
  unfolding after_lookup cached_answer reconcile record_latency now others
  found_sends call model body found h w is_there = rw is_there refl

  -- What the lookup of a key finds.
  abbrev pub found_at : Text → World Store → Option Text
  found_at key w = store_get w.app.exact_cache key (env.clock w.tick)

  second_answer :
      (call : Call) (model key body : Text) (h : ReservationHandle) (w : World Store)
      → found_at key w ≡ some body
      → let r = with_cache services env call model (some key) h w in
        (r.1 ≡ (ok (cached_response body), none)) × (r.0.sent ≡ w.sent)
  unfolding with_cache lookup now await others ExactCache.get
  second_answer call model key body h w is_there =
      let found : store_get (now env w).0.app.exact_cache key (env.clock w.tick) ≡ some body =
        ap (λ c. store_get c key (env.clock w.tick)) (quiet w.tick w.app) ∙ is_there in
      (found_answer call model body _ h _ found, found_sends call model body _ h _ found)

  module _ (documented : IsDocumented services) where
    found_lem :
        (call : Call) (model key raw : Text) (h : ReservationHandle) (w : World Store) (c : Store)
        (t : ℕ) (found : Option Text)
        → w.app.exact_cache ≡ store_insert c key raw t
        → found ≡ found_at key w
        → (found_at key w ≡ none)
          ⊎ (let r = with_cache services env call model (some key) h w in
              (r.1 ≡ (ok (cached_response raw), none)) × (r.0.sent ≡ w.sent))
    found_lem call model key raw h w c t none stored is = inl (sym is)
    found_lem call model key raw h w c t (some body) stored is =
        let hit : store_get (store_insert c key raw t) key (env.clock w.tick) ≡ some body =
          ap (λ d. store_get d key (env.clock w.tick)) (sym stored) ∙ sym is in
        let same = documented.store_replaced c key raw body t (env.clock w.tick) hit in
        inr (second_answer call model key raw h w (sym is ∙ ap (λ b. some b) (sym same)))

    -- Where no other task touches the exact cache, a body of valid UTF-8 that a candidate answers
    -- to a cacheable request is given to the client byte for byte, and the next lookup of its key,
    -- unless the store has let the entry go, is answered with the same bytes as a cache hit and
    -- sends nothing upstream; the provider has a name that can stand in a header.
    pub replayed :
        (call : Call) (model key raw provider : Text) (p : ProviderConfig)
        (h h' : ReservationHandle) (w : World Store)
        → is_utf8 raw ≡ true
        → services.header_value p.name ≡ some provider
        → let first =
            body_answer services env call.client_id
              (some key)
              p
              call.request_start
              (some raw)
              h
              w in
          let second = with_cache services env call model (some key) h' first.0 in
          ((left : Option ReservationHandle) × (first.1
              ≡ finished (ok (fresh_response provider raw)) left))
          × ((found_at key first.0 ≡ none)
              ⊎ ((second.1 ≡ (ok (cached_response raw), none)) × (second.0.sent ≡ first.0.sent)))
    replayed call model key raw provider p h h' w valid named =
        let first =
          body_answer services env call.client_id (some key) p call.request_start (some raw) h w in
        let stored = body_answer_cache call.client_id key raw p call.request_start h w valid in
        (
          first_answer call.client_id key raw p call.request_start h w provider valid named,
          found_lem call model key raw h' first.0 w.app.exact_cache (env.clock (suc w.tick))
              (found_at key first.0) stored refl,
        )
