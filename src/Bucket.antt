-- ===== src/Bucket.antt =====
-- src/middleware/rate_limit.rs: the token bucket, the bucket pair of a client, the reservation.
-- The `f64` amounts are exact multiples of `token / 60_000_000_000`: with instants in nanoseconds and
-- a rate that is a whole number of tokens a minute, every sum, product and comparison of the source
-- is then exact on ℕ. What `f64` rounds is not modelled. `Instant::now()` is the argument `now`.
pub mod Refill
pub mod Waiting
pub mod Reservation
use rust_llm_gateway_semanti.Prelude.{
  ℕ, ◌+◌, ◌-◌, ◌*◌, ◌/◌, ◌^◌, min, max, Bool, true, false, ltb, leb, if◌then◌else◌,
}

-- Amounts in one token, and nanoseconds in one second and in the longest refill (3600.0 seconds).
abbrev pub token : ℕ
token = 60000000000

abbrev pub second : ℕ
second = 1000000000

abbrev pub max_elapsed : ℕ
max_elapsed = 3600000000000

abbrev pub u64_max : ℕ
u64_max = 2 ^ 64 - 1

-- `refill_per_sec` is kept as the amount that a nanosecond adds, which is the rate in tokens a minute.
pub record TokenBucket : Type 0 where
  pub capacity : ℕ
  pub refill_rate : ℕ
  pub tokens : ℕ
  pub last_refill : ℕ

unfoldable pub new : ℕ → ℕ → ℕ → TokenBucket
new capacity refill_rate now = record {
  capacity = max capacity 0;
  refill_rate = max refill_rate 0;
  tokens = capacity;
  last_refill = now;
}

-- `refill_locked`. `duration_since` stops at 0.
unfoldable pub refill : TokenBucket → ℕ → TokenBucket
refill b now =
    let elapsed = min (now - b.last_refill) max_elapsed in
    if ltb 0 elapsed
    then record b {
      tokens = min (b.tokens + elapsed * b.refill_rate) b.capacity;
      last_refill = now;
    }
    else b

abbrev pub div_ceil : ℕ → ℕ → ℕ
div_ceil a d = (a + (d - 1)) / d

-- The seconds in `Err(retry_after)`: the deficit over the rate, rounded up; `as u64` saturates.
unfoldable pub retry_after : ℕ → ℕ → ℕ
retry_after deficit refill_rate =
    let wait =
      if ltb 0 refill_rate
      then min (div_ceil deficit (refill_rate * second)) u64_max
      else u64_max in
    max wait 1

pub data Consumed : Type 0 where
  ok : Consumed
  err : ℕ → Consumed

unfoldable pub try_consume : TokenBucket → ℕ → ℕ → TokenBucket × Consumed
try_consume b cost now =
    let b' = refill b now in
    if leb cost b'.tokens
    then (record b' { tokens = b'.tokens - cost }, ok)
    else (b', err (retry_after (cost - b'.tokens) b'.refill_rate))

unfoldable pub refund : TokenBucket → ℕ → ℕ → TokenBucket
refund b n now = let b' = refill b now in record b' { tokens = min (b'.tokens + n) b'.capacity }

unfoldable pub available_tokens : TokenBucket → ℕ → TokenBucket × ℕ
available_tokens b now = let b' = refill b now in (b', b'.tokens)

pub record RateLimitBuckets : Type 0 where
  pub rpm : TokenBucket
  pub tpm : TokenBucket

-- Whole tokens a minute: capacity `rpm as f64`, rate `rpm as f64 / 60.0` a second.
unfoldable pub from_config : ℕ → ℕ → ℕ → RateLimitBuckets
unfolding new
from_config rpm tpm now = record {
  rpm = new (rpm * token) rpm now;
  tpm = new (tpm * token) tpm now;
}

-- The handle holds the TPM bucket by `Arc`: the bucket that it changes is a parameter below.
pub record ReservationHandle : Type 0 where
  pub reserved : ℕ
  pub reconciled : Bool

pub data Reserved : Type 0 where
  handle : ReservationHandle → Reserved
  refused : ℕ → Reserved

abbrev reserved_by : ℕ → TokenBucket × Consumed → TokenBucket × Reserved
reserved_by cost (b, ok) = (b, handle (record { reserved = cost; reconciled = false }))
reserved_by cost (b, err wait) = (b, refused wait)

unfoldable pub try_reserve_tpm : RateLimitBuckets → ℕ → ℕ → RateLimitBuckets × Reserved
try_reserve_tpm bs estimated_cost now =
    let (b, r) = reserved_by estimated_cost (try_consume bs.tpm estimated_cost now) in
    (record bs { tpm = b }, r)

-- `Drop::drop`.
unfoldable pub drop_handle : TokenBucket → ReservationHandle → ℕ → TokenBucket
drop_handle b h now = if h.reconciled then b else refund b h.reserved now

-- `reconcile(mut self, ..)`: at its end the handle is dropped, with `reconciled` set.
unfoldable pub reconcile : TokenBucket → ReservationHandle → ℕ → ℕ → TokenBucket
reconcile b h actual_cost now =
    let h' = record h { reconciled = true } in
    let b' =
      if ltb actual_cost h.reserved
      then refund b (h.reserved - actual_cost) now
      else if ltb h.reserved actual_cost
      then (try_consume b (actual_cost - h.reserved) now).0
      else b in
    drop_handle b' h' now
