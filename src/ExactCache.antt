-- ===== src/ExactCache.antt =====
-- src/cache/exact.rs: the exact-match cache over the store of moka.
pub mod Keys
pub mod Hits
use rust_llm_gateway_semanti.Prelude.{ℕ, Option, none, some, ◌∷◌, ◌++◌, Text, text, if◌then◌else◌}
use rust_llm_gateway_semanti.Prelude.Floats.{Float, float_lt, float_zero}
use rust_llm_gateway_semanti.Services.{Services}

module _ (services : Services) where
  open services use {sha256_hex, Store, store_get, store_insert}

  -- The hasher is fed the model, a zero byte and the payload.
  unfoldable pub compute_key : Text → Text → Float → Option Text
  compute_key model prompt_payload temperature =
      if float_lt float_zero temperature
      then none
      else some (text "exact:" ++ sha256_hex (model ++ 0 ∷ prompt_payload))

  unfoldable pub get : Store → Text → ℕ → Option Text
  get cache key now = store_get cache key now

  unfoldable pub insert : Store → Text → Text → ℕ → Store
  insert cache key value now = store_insert cache key value now
