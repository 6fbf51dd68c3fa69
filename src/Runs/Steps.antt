-- ===== src/Runs/Steps.antt =====
-- The changes of the shared state as a relation: one constructor for each change that is made at once,
-- under a lock or in a map entry. The tasks that serve requests at the same time interleave them.
use rust_llm_gateway_semanti.Prelude.{ℕ, suc, List, [], ◌∷◌, ◌+◌, Option, none, some, Text}
use rust_llm_gateway_semanti.Prelude.Maps.{insert}
use rust_llm_gateway_semanti.Services.{Services}
use rust_llm_gateway_semanti.Breaker as Breaker
use rust_llm_gateway_semanti.Bucket as Bucket
use rust_llm_gateway_semanti.Bucket.{ReservationHandle}
use rust_llm_gateway_semanti.ExactCache as ExactCache
use rust_llm_gateway_semanti.State.{AppState, breaker_named, breaker_for, buckets_for}
use rust_llm_gateway_semanti.Selector.{select_from, select_ordered}
use rust_llm_gateway_semanti.Config.{ProviderConfig}
use rust_llm_gateway_semanti.Handlers.{
  World, Env, others, now, await, send, allow_request, record_success, record_failure, select,
  reserve, reconcile, drop_left,
}
use rust_llm_gateway_semanti.Admission.{take_rpm, charge_rpm}
use rust_llm_gateway_semanti.Gateway.{Request, Web, build_router}
use rust_llm_gateway_semanti.Runs.{Any, IsStable}
use rust_llm_gateway_semanti.Runs.Serving.{build_router-Keeps}

module _ (services : Services) where
  open services use {Store}

  abbrev breaker : AppState Store → Text → Breaker.CircuitBreaker
  breaker app name = breaker_named app.config.circuit_breaker app.circuit_breakers name

  abbrev pub with_breaker : AppState Store → Text → Breaker.CircuitBreaker → AppState Store
  with_breaker app name b = record app { circuit_breakers = insert name b app.circuit_breakers }

  abbrev pub with_tpm :
      AppState Store → Text → ℕ → (Bucket.TokenBucket → Bucket.TokenBucket) → AppState Store
  with_tpm app id t change =
      let bs = (buckets_for app.config.rate_limit app.rate_limiter id t).1 in
      record app { rate_limiter = insert id (record bs { tpm = change bs.tpm }) app.rate_limiter }

  abbrev pub with_reserved : AppState Store → Text → ℕ → ℕ → AppState Store
  with_reserved app id cost t =
      let (m, bs) = buckets_for app.config.rate_limit app.rate_limiter id t in
      record app { rate_limiter = insert id (Bucket.try_reserve_tpm bs cost t).0 m }

  pub data Step : AppState Store → AppState Store → Type 0 where
    allowed :
        (app : AppState Store) (name : Text) (t : ℕ)
        → Step app (with_breaker app name (Breaker.allow_request (breaker app name) t).0)
    succeeded :
        (app : AppState Store) (name : Text)
        → Step app (with_breaker app name (Breaker.record_success (breaker app name)))
    failed :
        (app : AppState Store) (name : Text) (t : ℕ)
        → Step app (with_breaker app name (Breaker.record_failure (breaker app name) t))
    -- `breaker_for`: a breaker is made where there is none.
    made :
        (app : AppState Store) (name : Text) → Step app (with_breaker app name (breaker app name))
    -- `get_rate_limit_buckets`, which a task may do some time before it takes from the buckets.
    opened :
        (app : AppState Store) (id : Text) (t : ℕ)
        → Step app (record app {
          rate_limiter = (buckets_for app.config.rate_limit app.rate_limiter id t).0;
        })
    charged :
        (app : AppState Store) (id : Text) (t : ℕ)
        → Step app (record app {
          rate_limiter = (charge_rpm app.config.rate_limit app.rate_limiter id t).0;
        })
    reserved :
        (app : AppState Store) (id : Text) (cost t : ℕ) → Step app (with_reserved app id cost t)
    reconciled :
        (app : AppState Store) (id : Text) (h : ReservationHandle) (actual t : ℕ)
        → Step app (with_tpm app id t (λ b. Bucket.reconcile b h actual t))
    dropped :
        (app : AppState Store) (id : Text) (h : ReservationHandle) (t : ℕ)
        → Step app (with_tpm app id t (λ b. Bucket.drop_handle b h t))
    stored :
        (app : AppState Store) (key value : Text) (t : ℕ)
        → Step app
            (record app { exact_cache = ExactCache.insert services app.exact_cache key value t })

  pub data Steps (start : AppState Store) : AppState Store → Type 0 where
    unchanged : Steps start start
    next : {app app' : AppState Store} → Steps start app → Step app app' → Steps start app'

  pub append : {a b c : AppState Store} → Steps a b → Steps b c → Steps a c
  append s unchanged = s
  append s (next t step) = next (append s t) step

  -- The other tasks take such steps too.
  abbrev pub IsInterleaved : Env Store → Type 0
  IsInterleaved env = (n : ℕ) (app : AppState Store) → Steps app (env.during n app)

  module _ (env : Env Store) (interleaved : IsInterleaved env) (start : AppState Store) where
    others-Steps : (w : World Store) → Steps start w.app → Steps start (others env w).app
    unfolding others
    others-Steps w s = append s (interleaved w.tick w.app)

    drop_left-Steps :
        (id : Text) (left : Option ReservationHandle) (w : World Store)
        → Steps start w.app
        → Steps start (drop_left env id left w).0.app
    unfolding drop_left now
    drop_left-Steps id none w s = s
    drop_left-Steps id (some h) w s =
        next (others-Steps w s) (dropped (others env w).app id h (env.clock w.tick))

    select_from-Steps :
        (clock : ℕ → ℕ) (i : ℕ) (ps : List ProviderConfig) (app : AppState Store)
        → Steps start app
        → Steps start (record app {
          circuit_breakers =
              (select_from app.config.circuit_breaker clock i ps app.circuit_breakers).0;
        })
    unfolding select_from breaker_for
    select_from-Steps clock i [] app s = s
    select_from-Steps clock i (p ∷ ps) app s =
        select_from-Steps clock (suc i) ps _ (next s (made app p.name))

    select-Steps : (w : World Store) → Steps start w.app → Steps start (select env w).0.app
    unfolding select select_ordered await
    select-Steps w s =
        let w' = others env w in
        select_from-Steps (λ i. env.clock (w'.tick + i)) 0 w'.app.sorted_providers w'.app
          (others-Steps w s)

    Steps-IsStable : IsStable services env (λ w. Steps start w.app) Any
    unfolding now await send allow_request record_success record_failure reserve reconcile take_rpm
    Steps-IsStable = record {
      reads = λ w s. others-Steps w s;
      emits = λ sample w s. s;
      awaits = λ w s. others-Steps w s;
      sends = λ req w s. others-Steps w s;
      allows = λ name w any s.
          next (others-Steps w s) (allowed (others env w).app name (env.clock w.tick));
      succeeds = λ name w any s. next (others-Steps w s) (succeeded (others env w).app name);
      fails = λ name w any s.
          next (others-Steps w s) (failed (others env w).app name (env.clock w.tick));
      selects = select-Steps;
      charges =
          λ id w s. next (others-Steps w s) (charged (others env w).app id (env.clock w.tick));
      reserves = λ id cost w s.
          next (others-Steps w s) (reserved (others env w).app id cost (env.clock w.tick));
      reconciles = λ id h actual w s.
          next (others-Steps w s) (reconciled (others env w).app id h actual (env.clock w.tick));
      drops = drop_left-Steps;
      stores = λ key value t w s. next s (stored w.app key value t);
    }

  -- Where the other tasks change the shared state only by the atomic steps of the relation Step,
  -- all that serving a request changes, whatever the request, the answers of the providers and the
  -- interleaving, is a sequence of such steps.
  pub build_router-Steps :
      (web : Web services) (env : Env Store) (req : Request) (w : World Store)
      → IsInterleaved env
      → Steps w.app (build_router services web env req w).0.app
  build_router-Steps web env req w interleaved =
      build_router-Keeps services env (λ v. Steps w.app v.app)
        (Steps-IsStable env interleaved w.app) web req w unchanged
