-- ===== src/Bucket/Reservation.antt =====
-- A reservation is charged what the request used, or given back.
use rust_llm_gateway_semanti.Prelude.{
  refl, ap, ℕ, ◌-◌, ◌≤◌, ◌<◌, ◌≡◌, ◌⊎◌, inl, inr, dec_le, arith, leb, if◌then◌else◌, false,
}
use rust_llm_gateway_semanti.Bucket.{
  Consumed, Reserved, reserved_by, TokenBucket, refill, RateLimitBuckets, ReservationHandle, handle,
  try_consume, refund, retry_after, try_reserve_tpm, drop_handle, reconcile, ok, err,
}
use rust_llm_gateway_semanti.Bucket.Refill.{IsBounded, refill-IsBounded, refill_clock}

-- The two branches of `try_consume`, over the bucket that the refill leaves.
pub try_consume_cases :
    (b : TokenBucket) (cost now : ℕ)
    → ((cost ≤ (refill b now).tokens)
        × (try_consume b cost now
            ≡ (record (refill b now) { tokens = (refill b now).tokens - cost }, ok)))
      ⊎ (((refill b now).tokens < cost)
          × (try_consume b cost now ≡ (
            refill b now,
            err (retry_after (cost - (refill b now).tokens) (refill b now).refill_rate),
          )))
unfolding try_consume
try_consume_cases b cost now = elim (dec_le cost (refill b now).tokens) [
  | yes h ↦ inl (h, ground arith)
  | no h ↦ inr (omega arith, ground arith)
]

-- What a reservation that is granted leaves, and what it hands out.
pub try_reserve_tpm_lem :
    (bs : RateLimitBuckets) (cost now : ℕ) (h : ReservationHandle)
    → (try_reserve_tpm bs cost now).1 ≡ handle h
    → (h ≡ record { reserved = cost; reconciled = false })
      × (cost ≤ (refill bs.tpm now).tokens)
      × ((try_reserve_tpm bs cost now).0 ≡ record bs {
        tpm = record (refill bs.tpm now) { tokens = (refill bs.tpm now).tokens - cost };
      })
unfolding try_reserve_tpm
try_reserve_tpm_lem bs cost now h e = elim (try_consume_cases bs.tpm cost now) [
  | inl (fits, granted) ↦ (cc granted, fits, rw granted)
  | inr (few, denied) ↦ absurd (cc denied)
]

refund_back :
    (c : TokenBucket) (cost later : ℕ)
    → IsBounded c
    → cost ≤ c.tokens
    → refund (record c { tokens = c.tokens - cost }) cost later ≡ refill c later
unfolding refund refill
refund_back c cost later bounded fits = ground arith

reconcile_held :
    (c : TokenBucket) (cost actual now : ℕ)
    → IsBounded c
    → cost ≤ c.tokens
    → c.last_refill ≡ now
    → (reconcile
        (record c { tokens = c.tokens - cost })
        (record { reserved = cost; reconciled = false })
        actual
        now).tokens
      ≡ (if leb actual c.tokens then c.tokens - actual else c.tokens - cost)
unfolding reconcile refund try_consume refill drop_handle
reconcile_held c cost actual now bounded fits clock = ground arith

-- For a bucket within its capacity, dropping the handle of a granted reservation at any later
-- instant leaves the bucket as it would be had nothing been reserved.
pub drop_restores :
    (bs : RateLimitBuckets) (cost now later : ℕ) (h : ReservationHandle)
    → IsBounded bs.tpm
    → bs.tpm.last_refill ≤ now
    → now ≤ later
    → (try_reserve_tpm bs cost now).1 ≡ handle h
    → drop_handle (try_reserve_tpm bs cost now).0.tpm h later ≡ refill (refill bs.tpm now) later
unfolding drop_handle
drop_restores bs cost now later h bounded clock order e =
    let (given, fits, left) = try_reserve_tpm_lem bs cost now h e in
    rw (given, left)
      (refund_back (refill bs.tpm now) cost later (refill-IsBounded bs.tpm now bounded) fits)

-- At the instant of a granted reservation `reconcile` leaves exactly the actual cost charged if
-- the bucket can pay it, and otherwise only the reserved cost.
pub reconcile_charges :
    (bs : RateLimitBuckets) (cost actual now : ℕ) (h : ReservationHandle)
    → IsBounded bs.tpm
    → bs.tpm.last_refill ≤ now
    → (try_reserve_tpm bs cost now).1 ≡ handle h
    → let held = (refill bs.tpm now).tokens in
      (reconcile (try_reserve_tpm bs cost now).0.tpm h actual now).tokens
      ≡ (if leb actual held then held - actual else held - cost)
reconcile_charges bs cost actual now h bounded clock e =
    let (given, fits, left) = try_reserve_tpm_lem bs cost now h e in
    rw (given, left)
      (reconcile_held (refill bs.tpm now) cost actual now (refill-IsBounded bs.tpm now bounded) fits
        (refill_clock bs.tpm now clock))

reserved_by_granted :
    (cost : ℕ) (p : TokenBucket × Consumed)
    → p.1 ≡ ok
    → reserved_by cost p ≡ (p.0, handle (record { reserved = cost; reconciled = false }))
reserved_by_granted cost (b, ok) granted = refl
reserved_by_granted cost (b, err wait) granted = cc granted

-- A cost that the bucket grants is reserved by a handle that is not settled yet.
pub try_reserve_tpm-granted :
    (bs : RateLimitBuckets) (cost t : ℕ)
    → (try_consume bs.tpm cost t).1 ≡ ok
    → try_reserve_tpm bs cost t ≡ (
      record bs { tpm = (try_consume bs.tpm cost t).0 },
      handle (record { reserved = cost; reconciled = false }),
    )
unfolding try_reserve_tpm
try_reserve_tpm-granted bs cost t granted =
    ap (λ (x : TokenBucket × Reserved). (record bs { tpm = x.0 }, x.1))
      (reserved_by_granted cost (try_consume bs.tpm cost t) granted)

reserved_by_bucket : (cost : ℕ) (p : TokenBucket × Consumed) → (reserved_by cost p).0 ≡ p.0
reserved_by_bucket cost (b, ok) = refl
reserved_by_bucket cost (b, err wait) = refl

-- A reservation leaves what `try_consume` leaves of the TPM bucket, granted or not.
pub try_reserve_tpm_buckets :
    (bs : RateLimitBuckets) (cost t : ℕ)
    → (try_reserve_tpm bs cost t).0 ≡ record bs { tpm = (try_consume bs.tpm cost t).0 }
unfolding try_reserve_tpm
try_reserve_tpm_buckets bs cost t =
    ap (λ (b : TokenBucket). record bs { tpm = b })
      (reserved_by_bucket cost (try_consume bs.tpm cost t))
