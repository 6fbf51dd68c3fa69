-- ===== src/Bucket/Refill.antt =====
-- The bounds of a bucket, and what refilling it does over time.
use rust_llm_gateway_semanti.Prelude.{ap, ℕ, ◌+◌, ◌-◌, ◌*◌, ◌≤◌, ◌≡◌, min, arith, List, [], ◌∷◌}
use native.Mathlib.Nat.{mul-le-mul_right}
use rust_llm_gateway_semanti.Bucket.{
  max_elapsed, TokenBucket, new, refill, try_consume, Consumed, ok, err, refund, retry_after,
}

abbrev pub IsBounded : TokenBucket → Type 0
IsBounded b = b.tokens ≤ b.capacity

pub new-IsBounded : (capacity rate now : ℕ) → IsBounded (new capacity rate now)
unfolding new
new-IsBounded capacity rate now = omega arith

pub refill-IsBounded : (b : TokenBucket) (now : ℕ) → IsBounded b → IsBounded (refill b now)
unfolding refill
refill-IsBounded b now h = ground arith

pub try_consume-IsBounded :
    (b : TokenBucket) (cost now : ℕ) → IsBounded b → IsBounded (try_consume b cost now).0
unfolding try_consume refill retry_after
try_consume-IsBounded b cost now h = ground arith

pub refund-IsBounded : (b : TokenBucket) (n now : ℕ) → IsBounded (refund b n now)
unfolding refund refill
refund-IsBounded b n now = ground arith

pub refill_constants :
    (b : TokenBucket) (now : ℕ)
    → ((refill b now).capacity ≡ b.capacity) × ((refill b now).refill_rate ≡ b.refill_rate)
unfolding refill
refill_constants b now = ground arith

-- The tokens after a refill, on both branches.
pub refill_tokens :
    (b : TokenBucket) (now : ℕ)
    → IsBounded b
    → (refill b now).tokens
      ≡ min (b.tokens + min (now - b.last_refill) max_elapsed * b.refill_rate) b.capacity
unfolding refill
refill_tokens b now h = ground arith

-- The clock of a bucket never runs ahead of the calls.
pub refill_clock :
    (b : TokenBucket) (now : ℕ) → b.last_refill ≤ now → ((refill b now).last_refill ≡ now)
unfolding refill
refill_clock b now h = ground arith

elapsed_le : (l n r m : ℕ) → l ≤ n → min (n - l) m * r + l * r ≤ n * r
elapsed_le l n r m h =
    let fits : min (n - l) m + l ≤ n = omega arith in omega (arith, mul-le-mul_right r fits)

refill_gain :
    (b : TokenBucket) (now : ℕ)
    → b.last_refill ≤ now
    → (refill b now).tokens + b.last_refill * b.refill_rate ≤ b.tokens + now * b.refill_rate
unfolding refill
refill_gain b now h = ground (arith, elapsed_le b.last_refill now b.refill_rate max_elapsed)

-- A request for tokens, and the instant at which it comes.
pub record Ask : Type 0 where
  pub cost : ℕ
  pub at : ℕ

abbrev pub paid : Consumed → ℕ → ℕ
paid ok cost = cost
paid (err _) cost = 0

-- The total that a bucket grants to a sequence of requests, and the bucket after them.
unfoldable pub spend : TokenBucket → List Ask → TokenBucket × ℕ
spend b [] = (b, 0)
spend b (a ∷ asks) =
    let (b', r) = try_consume b a.cost a.at in
    let (b'', total) = spend b' asks in (b'', paid r a.cost + total)

-- The instants do not go back, and end by `end`.
abbrev pub InOrder : ℕ → ℕ → List Ask → Type 0
InOrder start end [] = start ≤ end
InOrder start end (a ∷ asks) = (start ≤ a.at) × InOrder a.at end asks

try_consume_pays :
    (b : TokenBucket) (cost now : ℕ)
    → b.last_refill ≤ now
    → ((try_consume b cost now).0.last_refill ≡ now)
      × ((try_consume b cost now).0.refill_rate ≡ b.refill_rate)
      × ((try_consume b cost now).0.tokens + paid (try_consume b cost now).1 cost
          ≡ (refill b now).tokens)
unfolding try_consume refill retry_after
try_consume_pays b cost now h = ground arith

spend_account :
    (b : TokenBucket) (end : ℕ) (asks : List Ask)
    → InOrder b.last_refill end asks
    → (spend b asks).1 + (spend b asks).0.tokens + b.last_refill * b.refill_rate
      ≤ b.tokens + end * b.refill_rate
unfolding spend
spend_account b end [] h = omega (arith, mul-le-mul_right b.refill_rate h)
spend_account b end (a ∷ asks) (h, hs) =
    let b' = (try_consume b a.cost a.at).0 in
    let (clock, rate, pays) = try_consume_pays b a.cost a.at h in
    let ih = spend_account b' end asks (rw clock hs) in
    let ih' = rw (clock, rate) at ih in omega (arith, ih', pays, refill_gain b a.at h)

InOrder-le : {start end : ℕ} (asks : List Ask) → InOrder start end asks → start ≤ end
InOrder-le [] h = h
InOrder-le (a ∷ asks) (h, hs) = omega (arith, InOrder-le asks hs)

-- Whatever requests come in order of time up to an instant, a bucket grants in total no more than
-- it held at the start and what its rate adds up to that instant.
pub spend-le-rate :
    (b : TokenBucket) (end : ℕ) (asks : List Ask)
    → InOrder b.last_refill end asks
    → (spend b asks).1 ≤ b.tokens + (end - b.last_refill) * b.refill_rate
spend-le-rate b end asks h =
    let gap : end ≡ b.last_refill + (end - b.last_refill) = omega (arith, InOrder-le asks h) in
    omega (arith, spend_account b end asks h, ap (λ (t : ℕ). t * b.refill_rate) gap)
