-- ===== src/Suite/Buckets.antt =====
-- The tests of src/middleware/rate_limit.rs. A bucket of no refill, which the rates of a configuration
-- do not give, is one of rate 0.
use rust_llm_gateway_semanti.Prelude.{
  ℕ, zero, suc, ◌+◌, ◌-◌, ◌*◌, ◌≡◌, refl, Bool, true, false, ◌&&◌, ltb, leb, ◌==◌, if◌then◌else◌,
  arith,
}
use rust_llm_gateway_semanti.Bucket as Bucket
use rust_llm_gateway_semanti.Bucket.{
  token, TokenBucket, Consumed, ok, err, try_consume, refund, available_tokens, refill, retry_after,
}

abbrev is_ok : Consumed → Bool
is_ok ok = true
is_ok (err wait) = false

-- A test of what `unwrap_err` gives, which panics on `Ok`.
abbrev is_err_with : (ℕ → Bool) → Consumed → Bool
is_err_with test ok = false
is_err_with test (err wait) = test wait

-- `for _ in 0..n { assert!(bucket.try_consume(1.0).is_ok()); }` from the `i`-th reading on, with the
-- bucket after it.
unfoldable all_consumed : (ℕ → ℕ) → ℕ → ℕ → TokenBucket → TokenBucket × Bool
unfolding try_consume
all_consumed clock i zero b = (b, true)
all_consumed clock i (suc n) b =
    let (b', r) = try_consume b token (clock i) in
    let (last, rest) = all_consumed clock (suc i) n b' in (last, is_ok r && rest)

-- `1e-9`
abbrev nano_tokens : ℕ
nano_tokens = 60

abbrev millisecond : ℕ
millisecond = 1000000

module _ (clock : ℕ → ℕ) where
  unfoldable consumes_until_empty : Bool
  unfolding all_consumed Bucket.new try_consume
  consumes_until_empty =
      let (b, three) = all_consumed clock 1 3 (Bucket.new (3 * token) 0 (clock 0)) in
      let (_, r) = try_consume b token (clock 4) in three && is_err_with (λ wait. leb 1 wait) r

  unfoldable refills_over_time : Bool
  unfolding all_consumed Bucket.new available_tokens
  refills_over_time =
      let (b, ten) = all_consumed clock 1 10 (Bucket.new (10 * token) (100 * 60) (clock 0)) in
      let (b', drained) = available_tokens b (clock 11) in
      let (_, available) = available_tokens b' (clock 12) in
      ten && ltb (2 * drained) token && leb (4 * token) available && leb available (6 * token)

  unfoldable refund_clamps_to_capacity : Bool
  unfolding Bucket.new refund available_tokens
  refund_clamps_to_capacity =
      let b = refund (Bucket.new (5 * token) 0 (clock 0)) (100 * token) (clock 1) in
      let (_, available) = available_tokens b (clock 2) in
      ltb ((available - 5 * token) + (5 * token - available)) nano_tokens

  unfoldable retry_after_is_at_least_1_second : Bool
  unfolding Bucket.new try_consume
  retry_after_is_at_least_1_second =
      is_err_with (λ wait. wait == 1) (try_consume (Bucket.new 0 60 (clock 0)) token (clock 1)).1

  consumes_until_empty_lem : consumes_until_empty ≡ true
  unfolding consumes_until_empty refill retry_after
  consumes_until_empty_lem = ground arith

  refund_clamps_to_capacity_lem : refund_clamps_to_capacity ≡ true
  unfolding refund_clamps_to_capacity refill
  refund_clamps_to_capacity_lem = ground arith

  retry_after_is_at_least_1_second_lem : retry_after_is_at_least_1_second ≡ true
  unfolding retry_after_is_at_least_1_second refill retry_after
  retry_after_is_at_least_1_second_lem = ground arith

-- Readings that are equal up to the sleep of 50 ms.
abbrev asleep : ℕ → ℕ
asleep i = if ltb i 12 then 0 else 50 * millisecond

refills_over_time_lem : refills_over_time asleep ≡ true
unfolding refills_over_time refill
refills_over_time_lem = refl
