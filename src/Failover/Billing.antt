-- ===== src/Failover/Billing.antt =====
-- The reservation and its settlement through the failover loop.
use rust_llm_gateway_semanti.Prelude.{
  ℕ, ◌*◌, ◌≡◌, refl, subst, sym, ◌∙◌, ap, false, Option, none, some, ◌∷◌, Text, text_eq_refl,
}
use rust_llm_gateway_semanti.Prelude.Maps.{get, get_or, get-insert}
use rust_llm_gateway_semanti.Prelude.Results.{Result, err}
use rust_llm_gateway_semanti.Error.{AppError}
use rust_llm_gateway_semanti.Bucket as Bucket
use rust_llm_gateway_semanti.Bucket.{
  TokenBucket, RateLimitBuckets, ReservationHandle, handle, token,
}
use rust_llm_gateway_semanti.Bucket.Reservation.{try_reserve_tpm-granted}
use rust_llm_gateway_semanti.Config.{AppConfig}
use rust_llm_gateway_semanti.State.{AppState, buckets_for}
use rust_llm_gateway_semanti.Selector.{select_ordered}
use rust_llm_gateway_semanti.Handlers.{
  Response, World, Env, others, now, await, send, allow_request, record_latency, select, reserve,
  reconcile, drop_left, with_tpm,
}
use rust_llm_gateway_semanti.Client.{OutboundRequest}
use rust_llm_gateway_semanti.Failover.Rule.{AfterAttempt, IsLoopRule}
use rust_llm_gateway_semanti.Failover.{Attempt, Outcome}

-- No other task touches the buckets of this client between the steps of a run, nor the rates.
abbrev pub IsAlone : {Store : Type 0} → Text → Env Store → Type 0
IsAlone {Store} id env =
    (n : ℕ) (app : AppState Store)
    → (get id (env.during n app).rate_limiter ≡ get id app.rate_limiter)
      × ((env.during n app).config ≡ app.config)

-- The TPM bucket of the client.
abbrev pub HasTpm : {Store : Type 0} → Text → TokenBucket → World Store → Type 0
HasTpm id b w = (bs : RateLimitBuckets) × (get id w.app.rate_limiter ≡ some bs) × (bs.tpm ≡ b)

-- What becomes of a bucket once the reservation is settled: without a bill all of it goes back.
abbrev pub settle : TokenBucket → ReservationHandle → Option ℕ → ℕ → TokenBucket
settle b h none t = Bucket.drop_handle b h t
settle b h (some n) t = Bucket.reconcile b h (n * token) t

tpm-HasTpm :
    {Store : Type 0} (env : Env Store) (id : Text) (f : TokenBucket → TokenBucket) (t : ℕ)
    (b : TokenBucket) (w : World Store)
    → HasTpm id b w
    → HasTpm id (f b) (with_tpm env id (λ bs. f bs.tpm) t w)
unfolding buckets_for
tpm-HasTpm env id f t b w (bs, found, same) =
    let cfg = w.app.config.rate_limit in
    let bs' = (buckets_for cfg w.app.rate_limiter id t).1 in
    let changed = record bs' { tpm = f bs'.tpm } in
    let kept : bs' ≡ bs =
      ap (get_or (Bucket.from_config cfg.default_rpm cfg.default_tpm t)) found in
    (
      changed,
      rw (get-insert id id changed w.app.rate_limiter, text_eq_refl id) refl,
      ap (λ (x : RateLimitBuckets). f x.tpm) kept ∙ ap f same,
    )

-- The TPM bucket that a client has at an instant, a new one if it has none yet.
abbrev pub tpm_of : {Store : Type 0} → Text → World Store → ℕ → TokenBucket
tpm_of id w t = (buckets_for w.app.config.rate_limit w.app.rate_limiter id t).1.tpm

abbrev pub fresh_handle : ℕ → ReservationHandle
fresh_handle cost = record { reserved = cost; reconciled = false }

-- A reservation that the bucket grants, in the state in which it is taken.
grants_in :
    {Store : Type 0} (env : Env Store) (id : Text) (cost : ℕ) (w : World Store)
    → let t = env.clock w.tick in
      (Bucket.try_consume (tpm_of id (now env w).0 t) cost t).1 ≡ Bucket.ok
      → ((reserve env id cost w).1 ≡ handle (fresh_handle cost))
        × HasTpm id
            (Bucket.try_consume (tpm_of id (now env w).0 t) cost t).0
            (reserve env id cost w).0
unfolding reserve now others buckets_for
grants_in env id cost w granted =
    let app = (now env w).0.app in
    let t = env.clock w.tick in
    let (buckets, bs) = buckets_for app.config.rate_limit app.rate_limiter id t in
    let changed = record bs { tpm = (Bucket.try_consume bs.tpm cost t).0 } in
    rw
      (try_reserve_tpm-granted bs cost t granted, get-insert id id changed buckets, text_eq_refl id)
      (refl, (changed, refl, refl))

module _ {Store : Type 0} (env : Env Store) (id : Text) (alone : IsAlone id env) where
  pub await_keeps :
      (b : TokenBucket) (w : World Store) → HasTpm id b w → HasTpm id b (await env w).0
  unfolding await others
  await_keeps b w (bs, found, same) = (bs, (alone w.tick w.app).0 ∙ found, same)

  pub now_keeps : (b : TokenBucket) (w : World Store) → HasTpm id b w → HasTpm id b (now env w).0
  unfolding now others
  now_keeps b w (bs, found, same) = (bs, (alone w.tick w.app).0 ∙ found, same)

  pub latency_keeps :
      (start : ℕ) (b : TokenBucket) (w : World Store)
      → HasTpm id b w
      → HasTpm id b (record_latency env start w).0
  unfolding record_latency
  latency_keeps start b w has = now_keeps b w has

  pub send_keeps :
      (req : OutboundRequest) (b : TokenBucket) (w : World Store)
      → HasTpm id b w
      → HasTpm id b (send env req w).0
  unfolding send
  send_keeps req b w has = await_keeps b (record w { sent = req ∷ w.sent }) has

  pub tpm_of-now : (w : World Store) (t : ℕ) → tpm_of id (now env w).0 t ≡ tpm_of id w t
  unfolding now others buckets_for
  tpm_of-now w t =
      let (found, same) = alone w.tick w.app in
      let bucket = λ (c : AppConfig) (o : Option RateLimitBuckets).
        (get_or (Bucket.from_config c.rate_limit.default_rpm c.rate_limit.default_tpm t) o).tpm in
      ap (λ c. bucket c (get id (now env w).0.app.rate_limiter)) same
      ∙ ap (bucket w.app.config) found

  -- A reservation that the bucket grants.
  pub reserve_grants :
      (cost : ℕ) (w : World Store)
      → let t = env.clock w.tick in
        (Bucket.try_consume (tpm_of id w t) cost t).1 ≡ Bucket.ok
        → ((reserve env id cost w).1 ≡ handle (fresh_handle cost))
          × HasTpm id (Bucket.try_consume (tpm_of id w t) cost t).0 (reserve env id cost w).0
  reserve_grants cost w =
      let t = env.clock w.tick in
      subst
        (λ b.
          (Bucket.try_consume b cost t).1 ≡ Bucket.ok
          → ((reserve env id cost w).1 ≡ handle (fresh_handle cost))
            × HasTpm id (Bucket.try_consume b cost t).0 (reserve env id cost w).0)
        (tpm_of-now w t) (grants_in env id cost w)

-- The bucket once a run gives up `left`: still as reserved, with no bill; or settled by a bill.
abbrev pub IsSettling :
    {Store : Type 0}
    → Env Store
    → Text
    → TokenBucket
    → ReservationHandle
    → Option ℕ
    → Option ReservationHandle
    → World Store
    → Type 0
IsSettling env id b h bill none w =
    (n : ℕ) × (k : ℕ) × (bill ≡ some n) × HasTpm id (settle b h (some n) (env.clock k)) w
IsSettling env id b h bill (some g) w = (g ≡ h) × (bill ≡ none) × HasTpm id b w

-- `Owes` says which bills an answer may have.
module _ {Store : Type 0} (env : Env Store) (id : Text) (b : TokenBucket) (h : ReservationHandle)
    (Owes : Result Response AppError → Option ℕ → Type 0) where
  abbrev pub IsSettlingOutcome : Outcome → World Store → Type 0
  IsSettlingOutcome (result, left) w =
      (bill : Option ℕ) × Owes result bill × IsSettling env id b h bill left w

  abbrev pub IsSettlingAttempt : Attempt → World Store → Type 0
  IsSettlingAttempt = AfterAttempt (HasTpm id b) IsSettlingOutcome

module _ {Store : Type 0} (env : Env Store) (id : Text) (alone : IsAlone id env) (b : TokenBucket)
    (h : ReservationHandle) where
  pub drop_left_settles :
      (bill : Option ℕ) (left : Option ReservationHandle) (w : World Store)
      → IsSettling env id b h bill left w
      → (k : ℕ) × HasTpm id (settle b h bill (env.clock k)) (drop_left env id left w).0
  unfolding drop_left now
  drop_left_settles bill none w (n, k, owes, has) =
      (k, subst (λ o. HasTpm id (settle b h o (env.clock k)) w) (sym owes) has)
  drop_left_settles bill (some g) w (same, owes, has) = (
    w.tick,
    subst (λ o. HasTpm id (settle b h o (env.clock w.tick)) (drop_left env id (some g) w).0)
        (sym owes)
        (subst
          (λ (k : ReservationHandle).
            HasTpm id (Bucket.drop_handle b k (env.clock w.tick)) (drop_left env id (some g) w).0)
          same
          (tpm-HasTpm env id (λ x. Bucket.drop_handle x g (env.clock w.tick)) (env.clock w.tick) b
            (now env w).0 (now_keeps env id alone b w has))),
  )

  pub reconcile_settles :
      (n : ℕ) (w : World Store)
      → HasTpm id b w
      → IsSettling env id b h (some n) none (reconcile env id h (n * token) w).0
  unfolding reconcile now
  reconcile_settles n w has = (
    n,
    w.tick,
    refl,
    tpm-HasTpm env id (λ x. Bucket.reconcile x h (n * token) (env.clock w.tick)) (env.clock w.tick)
        b (now env w).0 (now_keeps env id alone b w has),
  )

  pub latency_settles :
      (bill : Option ℕ) (left : Option ReservationHandle) (start : ℕ) (w : World Store)
      → IsSettling env id b h bill left w
      → IsSettling env id b h bill left (record_latency env start w).0
  unfolding record_latency
  latency_settles bill none start w (n, k, owes, has) = (n, k, owes, now_keeps env id alone _ w has)
  latency_settles bill (some g) start w (same, owes, has) =
      (same, owes, now_keeps env id alone b w has)

  module _ (Owes : Result Response AppError → Option ℕ → Type 0)
      (free : (e : AppError) → Owes (err e) none) where
    pub settling_rule : IsLoopRule env h (HasTpm id b) (IsSettlingOutcome env id b h Owes)
    unfolding allow_request select select_ordered
    settling_rule = record {
      allows = λ name w has. now_keeps env id alone b w has;
      selects = λ w has. await_keeps env id alone b w has;
      gives_up = λ provider error e w has. (none, free e, (refl, refl, has));
    }
