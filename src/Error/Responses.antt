-- ===== src/Error/Responses.antt =====
-- What a client learns from an error.
use rust_llm_gateway_semanti.Prelude.{ℕ, ◌<◌, ◌^◌, ◌≡◌, refl, some, [], ◌∷◌, Text, text, arith}
use rust_llm_gateway_semanti.Prelude.Decimal.{
  to_decimal, value_from, value-to_decimal, to_decimal-AreDigits, AreDigits,
}
use rust_llm_gateway_semanti.Services.{Services, IsDocumented, IsVisible}
use rust_llm_gateway_semanti.Error.{
  AppError, unauthorized, rate_limited, upstream, bad_request, internal, into_response,
}

IsVisible-digits : (s : Text) → AreDigits s → IsVisible s
IsVisible-digits [] h = tt
IsVisible-digits (c ∷ s) (d, h) = (omega arith, IsVisible-digits s h)

module _ (services : Services) (documented : IsDocumented services) where
  -- An error response has an extra header only for a rate-limited error, whose status is 429 and
  -- whose body and header carry the same wait, in decimal in the header.
  pub retry_after_agrees :
      (e : AppError) (name value : Text)
      → (into_response services e).headers ≡ (name, value) ∷ []
      → (wait : ℕ) × (e ≡ rate_limited wait)
        × ((into_response services e).status ≡ 429)
        × ((into_response services e).body.retry_after ≡ some wait)
        × (wait < 2 ^ 64 → value_from 0 value ≡ wait)
  unfolding into_response
  retry_after_agrees unauthorized name value h = cc
  retry_after_agrees (rate_limited wait) name value h =
      let shown =
        documented.header_value_visible (to_decimal wait)
          (IsVisible-digits (to_decimal wait) (to_decimal-AreDigits wait)) in
      (wait, refl, refl, refl, λ k. ground (arith, shown, value-to_decimal wait k))
  retry_after_agrees (upstream m) name value h = cc
  retry_after_agrees (bad_request m) name value h = cc
  retry_after_agrees (internal m) name value h = cc

  pub rate_limited_header :
      (wait : ℕ)
      → (into_response services (rate_limited wait)).headers
        ≡ (text "retry-after", to_decimal wait) ∷ []
  unfolding into_response
  rate_limited_header wait =
      rw
        (documented.header_value_visible (to_decimal wait)
          (IsVisible-digits (to_decimal wait) (to_decimal-AreDigits wait)))
        refl

-- The messages of upstream and internal failures do not reach the client.
pub no_leak :
    (services : Services) (m m' : Text)
    → (into_response services (upstream m) ≡ into_response services (upstream m'))
      × (into_response services (internal m) ≡ into_response services (internal m'))
unfolding into_response
no_leak services m m' = (refl, refl)
