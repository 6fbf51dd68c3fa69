-- ===== src/Bucket/Waiting.antt =====
-- What `Err(retry_after)` promises to a client that is refused.
use rust_llm_gateway_semanti.Prelude.{
  refl, ◌∙◌, List, [], ◌∷◌, ap, ℕ, ◌+◌, ◌-◌, ◌*◌, ◌≤◌, ◌<◌, ◌≡◌, min, max, arith,
}
use native.Mathlib.Nat.{le_trans, lt-div-mul-add, div-lt_iff_lt-mul, mul-le-mul_right}
use rust_llm_gateway_semanti.Bucket.{
  max_elapsed, second, token, u64_max, TokenBucket, refill, div_ceil, retry_after, try_consume, ok,
  err,
}
use rust_llm_gateway_semanti.Bucket.Refill.{
  Ask, spend, try_consume-IsBounded, IsBounded, refill_constants, refill_clock, refill_tokens,
  refill-IsBounded,
}

div_ceil_bound : (a d : ℕ) → 0 < d → a ≤ div_ceil a d * d
div_ceil_bound a d h = omega (arith, lt-div-mul-add {a = a + (d - 1)} h)

div_ceil_le : (a d k : ℕ) → 0 < d → a ≤ k * d → div_ceil a d ≤ k
div_ceil_le a d k h l =
    let below : a + (d - 1) < (k + 1) * d = omega arith in
    omega (arith, (div-lt_iff_lt-mul {k = d} {x = a + (d - 1)} {y = k + 1} h).1 below)

pub retry_after_pos : (d rate : ℕ) → 1 ≤ retry_after d rate
unfolding retry_after
retry_after_pos d rate = ground arith

-- A wait below the largest value was not cut by the saturating cast.
wait_uncut : (c : ℕ) → max (min c u64_max) 1 < u64_max → c ≤ max (min c u64_max) 1
wait_uncut c h = omega arith

retry_after_lem :
    (d rate : ℕ) → 0 < rate → retry_after d rate ≡ max (min (div_ceil d (rate * second)) u64_max) 1
unfolding retry_after
retry_after_lem d rate h = ground arith

-- The seconds cover the deficit, unless the cast saturates.
retry_after_covers :
    (d rate : ℕ)
    → 0 < rate
    → retry_after d rate < u64_max
    → d ≤ retry_after d rate * (rate * second)
retry_after_covers d rate h k =
    let c = div_ceil d (rate * second) in
    let e = retry_after_lem d rate h in
    let c_le : c ≤ retry_after d rate = rw e (wait_uncut c (rw (← e) k)) in
    le_trans (div_ceil_bound d (rate * second) (omega arith))
      (mul-le-mul_right (rate * second) c_le)

-- The state and the wait that a refusal leaves.
refusal :
    (b : TokenBucket) (cost now w : ℕ)
    → (try_consume b cost now).1 ≡ err w
    → ((try_consume b cost now).0 ≡ refill b now)
      × ((refill b now).tokens < cost)
      × (retry_after (cost - (refill b now).tokens) b.refill_rate ≡ w)
unfolding try_consume refill retry_after
refusal b cost now w e = ground arith

consume_when_enough :
    (b : TokenBucket) (cost now : ℕ)
    → cost ≤ (refill b now).tokens
    → (try_consume b cost now).1 ≡ ok
unfolding try_consume refill retry_after
consume_when_enough b cost now h = ground arith

-- For a bucket within its capacity and with a positive rate, a request that fits the capacity and
-- was refused with a wait of less than 3600 seconds is granted if it is repeated a second or more
-- after that wait, with no other request in between.
pub waiting_suffices :
    (b : TokenBucket) (cost now later w : ℕ)
    → IsBounded b
    → 0 < b.refill_rate
    → cost ≤ b.capacity
    → b.last_refill ≤ now
    → (try_consume b cost now).1 ≡ err w
    → w < 3600
    → now + (w + 1) * second ≤ later
    → (try_consume (try_consume b cost now).0 cost later).1 ≡ ok
waiting_suffices b cost now later w bounded pos fits clock e short wait =
    let (same, few, told) = refusal b cost now w e in
    let (cap, rate) = refill_constants b now in
    let c = refill b now in
    let covers = retry_after_covers (cost - c.tokens) b.refill_rate pos (rw told (omega arith)) in
    let covers' = rw told at covers in
    let elapsed = min (later - c.last_refill) max_elapsed in
    let long : w * second ≤ elapsed = omega (arith, refill_clock b now clock) in
    let full = refill_tokens c later (refill-IsBounded b now bounded) in
    let enough : cost ≤ (refill c later).tokens = omega (
      arith,
      full,
      ap (λ (r : ℕ). elapsed * r) rate,
      cap,
      covers',
      mul-le-mul_right b.refill_rate long,
    ) in
    rw same (consume_when_enough c cost later enough)

-- A request larger than the capacity of a bucket is refused at every instant, whatever the bucket
-- holds.
pub oversized_refused :
    (b : TokenBucket) (cost now : ℕ)
    → IsBounded b
    → b.capacity < cost
    → (w : ℕ) × ((try_consume b cost now).1 ≡ err w)
unfolding try_consume refill retry_after
oversized_refused b cost now bounded h =
    (retry_after (cost - (refill b now).tokens) b.refill_rate, ground arith)

consume_capacity :
    (b : TokenBucket) (cost now : ℕ) → (try_consume b cost now).0.capacity ≡ b.capacity
unfolding try_consume refill retry_after
consume_capacity b cost now = ground arith

spend-IsBounded :
    (b : TokenBucket) (asks : List Ask)
    → IsBounded b
    → IsBounded (spend b asks).0 × ((spend b asks).0.capacity ≡ b.capacity)
unfolding spend
spend-IsBounded b [] bounded = (bounded, refl)
spend-IsBounded b (a ∷ asks) bounded =
    let b' = (try_consume b a.cost a.at).0 in
    let (bounded', same) = spend-IsBounded b' asks (try_consume-IsBounded b a.cost a.at bounded) in
    (bounded', same ∙ consume_capacity b a.cost a.at)

-- A cost above the capacity of a bucket that is within its capacity is refused at every instant,
-- whatever requests came before, and each refusal names a time to wait.
pub oversized_for_ever :
    (b : TokenBucket) (asks : List Ask) (cost now : ℕ)
    → IsBounded b
    → b.capacity < cost
    → (w : ℕ) × ((try_consume (spend b asks).0 cost now).1 ≡ err w)
oversized_for_ever b asks cost now bounded h =
    let (bounded', same) = spend-IsBounded b asks bounded in
    oversized_refused (spend b asks).0 cost now bounded' (omega (arith, h, same))

wait_short : (c w : ℕ) → c ≤ 60 → max (min c u64_max) 1 ≡ w → w ≤ 60
wait_short c w h e = omega arith

-- A bucket of one minute's tokens, as `from_config` makes it.
abbrev pub IsMinute : TokenBucket → Type 0
IsMinute b = b.capacity ≡ b.refill_rate * token

-- A bucket whose capacity is one minute of its rate names a wait of one to sixty seconds when it
-- refuses a request that fits its capacity.
pub minute_wait :
    (b : TokenBucket) (cost now w : ℕ)
    → IsMinute b
    → 0 < b.refill_rate
    → cost ≤ b.capacity
    → (try_consume b cost now).1 ≡ err w
    → (1 ≤ w) × (w ≤ 60)
minute_wait b cost now w minute pos fits e =
    let (_, few, told) = refusal b cost now w e in
    let d = cost - (refill b now).tokens in
    let c : div_ceil d (b.refill_rate * second) ≤ 60 =
      div_ceil_le d (b.refill_rate * second) 60 (omega arith) (omega arith) in
    let form = retry_after_lem d b.refill_rate pos in
    (
      omega (arith, retry_after_pos d b.refill_rate),
      wait_short (div_ceil d (b.refill_rate * second)) w c (rw form at told),
    )
