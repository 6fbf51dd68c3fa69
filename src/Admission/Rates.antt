-- ===== src/Admission/Rates.antt =====
-- How many requests of a client pass the rate limit, among the requests of all clients.
use rust_llm_gateway_semanti.Prelude.{
  ℕ, ◌+◌, ◌-◌, ◌*◌, ◌≤◌, ◌≡◌, refl, sym, subst, ap, inl, inr, false, some, List, [], ◌∷◌, Text,
  text_eq, text_eq_iff, text_eq_refl, arith, if◌then◌else◌, Bool-cases,
}
use rust_llm_gateway_semanti.Prelude.Maps.{Map, get, insert, get-insert}
use rust_llm_gateway_semanti.Config.{RateLimitConfig}
use rust_llm_gateway_semanti.Bucket.{RateLimitBuckets, Consumed, ok, err, try_consume, token}
use rust_llm_gateway_semanti.Bucket.Refill.{Ask, paid, spend, InOrder, spend-le-rate}
use rust_llm_gateway_semanti.State.{buckets_for}
use rust_llm_gateway_semanti.Admission.{charge_rpm}

-- A request of a client at an instant.
pub record Request : Type 0 where
  pub client_id : Text
  pub at : ℕ

abbrev pub passed : Consumed → ℕ
passed ok = 1
passed (err _) = 0

-- The charges that the client makes of its bucket.
abbrev pub asks_of : Text → List Request → List Ask
asks_of k [] = []
asks_of k (q ∷ qs) =
    if text_eq q.client_id k
    then record { at = q.at; cost = token } ∷ asks_of k qs
    else asks_of k qs

module _ (cfg : RateLimitConfig) where
  -- How many requests of client `k` pass, the requests of all clients taken in order.
  unfoldable pub passes : Text → Map RateLimitBuckets → List Request → ℕ
  passes k buckets [] = 0
  passes k buckets (q ∷ qs) =
      let (buckets', r) = charge_rpm cfg buckets q.client_id q.at in
      (if text_eq q.client_id k then passed r else 0) + passes k buckets' qs

  paid-passed : (r : Consumed) → paid r token ≡ passed r * token
  paid-passed ok = omega arith
  paid-passed (err w) = omega arith

  -- A charge of another client leaves the buckets of this one.
  charge_rpm-other :
      (k j : Text) (buckets : Map RateLimitBuckets) (t : ℕ) (bs : RateLimitBuckets)
      → text_eq j k ≡ false
      → get k buckets ≡ some bs
      → get k (charge_rpm cfg buckets j t).0 ≡ some bs
  unfolding charge_rpm buckets_for
  charge_rpm-other k j buckets t bs differ known =
      rw (get-insert j k _ (insert j _ buckets), differ, get-insert j k _ buckets, differ) known

  -- A charge of this client is one of its bucket.
  charge_rpm-own :
      (k : Text) (buckets : Map RateLimitBuckets) (t : ℕ) (bs : RateLimitBuckets)
      → get k buckets ≡ some bs
      → (get k (charge_rpm cfg buckets k t).0
          ≡ some (record bs { rpm = (try_consume bs.rpm token t).0 }))
        × ((charge_rpm cfg buckets k t).1 ≡ (try_consume bs.rpm token t).1)
  unfolding charge_rpm buckets_for
  charge_rpm-own k buckets t bs known =
      (rw (get-insert k k _ (insert k _ buckets), text_eq_refl k, known) refl, rw known refl)

  -- The passes of a client are what its bucket grants to its own requests.
  passes-spend :
      (k : Text) (buckets : Map RateLimitBuckets) (bs : RateLimitBuckets) (qs : List Request)
      → get k buckets ≡ some bs
      → passes k buckets qs * token ≡ (spend bs.rpm (asks_of k qs)).1
  unfolding passes spend
  passes-spend k buckets bs [] known = refl
  passes-spend k buckets bs (q ∷ qs) known = elim (Bool-cases (text_eq q.client_id k)) [
    | inr other ↦
        let kept = charge_rpm-other k q.client_id buckets q.at bs other known in
        rw other (omega (arith, passes-spend k _ bs qs kept))
    | inl same ↦
        let id = (text_eq_iff q.client_id k).0 same in
        let known' = subst (λ j. get j buckets ≡ some bs) (sym id) known in
        let (kept, answer) = charge_rpm-own q.client_id buckets q.at bs known' in
        let buckets' = (charge_rpm cfg buckets q.client_id q.at).0 in
        let (b, r) = try_consume bs.rpm token q.at in
        let kept' = subst (λ j. get j buckets' ≡ some (record bs { rpm = b })) id kept in
        let ih = passes-spend k buckets' (record bs { rpm = b }) qs kept' in
        rw same (omega (arith, ih, paid-passed r, ap passed answer))
  ]

  -- Among the requests of all clients, in any interleaving, those of a client whose buckets exist
  -- that pass the request limit are at most what its bucket held at the start and what its rate
  -- adds up to the end, whatever the other clients do.
  pub passes-le-rate :
      (k : Text) (buckets : Map RateLimitBuckets) (bs : RateLimitBuckets) (end : ℕ)
      (qs : List Request)
      → get k buckets ≡ some bs
      → InOrder bs.rpm.last_refill end (asks_of k qs)
      → passes k buckets qs * token
        ≤ bs.rpm.tokens + (end - bs.rpm.last_refill) * bs.rpm.refill_rate
  passes-le-rate k buckets bs end qs known order =
      rw (passes-spend k buckets bs qs known) (spend-le-rate bs.rpm end (asks_of k qs) order)
