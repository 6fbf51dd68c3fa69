-- ===== src/Services.antt =====
-- What the gateway calls and does not implement: SHA-256 (sha2), JSON values (serde_json), the
-- exact-match store (moka) and the classes of a status code (http). Each is an operation of this
-- record; what is known of them stands in `IsDocumented`.
use rust_llm_gateway_semanti.Prelude.{
  ℕ, ◌≤◌, ◌<◌, ◌≡◌, ◌↔◌, ◌⊎◌, Bool, true, Option, some, List, Text, All,
}

pub record Services : Type 1 where
  -- `format!("{:x}", Sha256::digest(..))`
  pub sha256_hex : Text → Text
  -- `serde_json::Value`, `from_str`, `get`, `as_array`, `as_u64`, `as_str`
  pub Value : Type 0
  pub from_str : Text → Option Value
  pub field : Value → Text → Option Value
  pub as_array : Value → Option (List Value)
  pub as_u64 : Value → Option ℕ
  pub as_str : Value → Option Text
  -- `moka::future::Cache`: `get` and `insert` at an instant
  pub Store : Type 0
  pub store_get : Store → Text → ℕ → Option Text
  pub store_insert : Store → Text → Text → ℕ → Store
  -- `StatusCode::{is_success, is_client_error, is_server_error}`, of the code as a number
  pub is_success : ℕ → Bool
  pub is_client_error : ℕ → Bool
  pub is_server_error : ℕ → Bool
  -- `Display` of a `StatusCode`
  pub status_text : ℕ → Text
  -- `HeaderValue::from_str` and `HeaderValue::to_str`, of the value as bytes
  pub header_value : Text → Option Text
  pub to_str : Text → Option Text
  -- `Display` of the `http::Error` for a value that `HeaderValue::from_str` refuses
  pub header_error : Text

-- The visible ASCII characters.
abbrev pub IsVisible : Text → Type 0
IsVisible = All (λ c. (32 ≤ c) × (c < 127))

pub record IsDocumented (s : Services) : Type 0 where
  -- An entry may be evicted or expire; one that is found was stored under that key.
  pub store_hit :
      (c : s.Store) (k j v w : Text) (t u : ℕ)
      → s.store_get (s.store_insert c k v t) j u ≡ some w
      → ((k ≡ j) × (v ≡ w)) ⊎ (s.store_get c j u ≡ some w)
  -- An insertion replaces what was stored under the key.
  pub store_replaced :
      (c : s.Store) (k v w : Text) (t u : ℕ)
      → s.store_get (s.store_insert c k v t) k u ≡ some w
      → v ≡ w
  pub success_iff : (code : ℕ) → (s.is_success code ≡ true) ↔ ((200 ≤ code) × (code < 300))
  pub client_error_iff :
      (code : ℕ) → (s.is_client_error code ≡ true) ↔ ((400 ≤ code) × (code < 500))
  pub server_error_iff :
      (code : ℕ) → (s.is_server_error code ≡ true) ↔ ((500 ≤ code) × (code < 600))
  pub header_value_visible : (v : Text) → IsVisible v → s.header_value v ≡ some v
  pub to_str_visible : (v : Text) → IsVisible v → s.to_str v ≡ some v
  pub to_str_same : (v t : Text) → s.to_str v ≡ some t → t ≡ v
