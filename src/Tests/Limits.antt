-- ===== src/Tests/Limits.antt =====
-- The token bucket and its reservations at concrete inputs.
use rust_llm_gateway_semanti.Prelude.{
  ◌+◌, ◌-◌, ◌*◌, ◌≤◌, ◌≡◌, refl, false, List, [], ◌∷◌, arith, leb, if◌then◌else◌,
}
use rust_llm_gateway_semanti.Bucket.{
  token, second, ok, err, try_consume, refill, retry_after, handle, ReservationHandle,
  try_reserve_tpm, drop_handle, reconcile,
}
use rust_llm_gateway_semanti.Bucket.Refill.{Ask, spend, spend-le-rate}
use rust_llm_gateway_semanti.Bucket.Waiting.{waiting_suffices}
use rust_llm_gateway_semanti.Bucket.Reservation.{drop_restores, reconcile_charges}
use rust_llm_gateway_semanti.Tests.Samples.{low_bucket, low_buckets}

refused_now : (try_consume low_bucket (3 * token) 100).1 ≡ err 2
unfolding try_consume refill retry_after
refused_now = refl

waiting_suffices_example :
    (try_consume (try_consume low_bucket (3 * token) 100).0 (3 * token) (100 + 3 * second)).1 ≡ ok
waiting_suffices_example =
    waiting_suffices low_bucket (3 * token) 100 (100 + 3 * second) 2 (omega arith) (omega arith)
      (omega arith) (omega arith) refused_now (omega arith) (omega arith)

abbrev held : ReservationHandle
held = record { reserved = token; reconciled = false }

reserved_now : (try_reserve_tpm low_buckets token 100).1 ≡ handle held
unfolding try_reserve_tpm try_consume refill
reserved_now = refl

drop_restores_example :
    drop_handle (try_reserve_tpm low_buckets token 100).0.tpm held 200
    ≡ refill (refill low_bucket 100) 200
drop_restores_example =
    drop_restores low_buckets token 100 200 held (omega arith) (omega arith) (omega arith)
      reserved_now

reconcile_charges_example :
    (reconcile (try_reserve_tpm low_buckets token 100).0.tpm held 7 100).tokens ≡ (
      if leb 7 (refill low_bucket 100).tokens
      then (refill low_bucket 100).tokens - 7
      else (refill low_bucket 100).tokens - token)
reconcile_charges_example =
    reconcile_charges low_buckets token 7 100 held (omega arith) (omega arith) reserved_now

abbrev asks : List Ask
asks = record { at = 150; cost = token } ∷ record { at = 200; cost = 9 } ∷ []

spend-le-rate_example : (spend low_bucket asks).1 ≤ token + (300 - 100) * 60
spend-le-rate_example = spend-le-rate low_bucket 300 asks (omega arith, (omega arith, omega arith))
