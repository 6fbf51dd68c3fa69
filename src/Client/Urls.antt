-- ===== src/Client/Urls.antt =====
-- The address and the credentials of an outbound request.
use rust_llm_gateway_semanti.Prelude.{
  ℕ, suc, ◌≡◌, ◌≢◌, refl, some, [], ◌∷◌, ◌++◌, Text, arith, ◌↔◌, replicate, zero,
}
use rust_llm_gateway_semanti.Config.{ProviderConfig}
use rust_llm_gateway_semanti.Client.{trim_end_matches, build_chat_request, build_embeddings_request}

trim_end-append :
    (c : ℕ) (s : Text) (n : ℕ) → trim_end_matches c (s ++ replicate n c) ≡ trim_end_matches c s
unfolding trim_end_matches
trim_end-append c [] zero = refl
trim_end-append c [] (suc n) = ground (arith, trim_end-append c [] n)
trim_end-append c (b ∷ s) n = ground (arith, trim_end-append c s n)

-- Any number of slashes added to the end of a provider's endpoint changes neither the chat request
-- nor the embeddings request.
pub trailing_slashes :
    (p : ProviderConfig) (n : ℕ) (body : Text)
    → let q = record p { endpoint = p.endpoint ++ replicate n b'/' } in
      (build_chat_request q body ≡ build_chat_request p body)
      × (build_embeddings_request q body ≡ build_embeddings_request p body)
unfolding build_chat_request build_embeddings_request
trailing_slashes p n body = let e = trim_end-append b'/' p.endpoint n in (rw e refl, rw e refl)

-- A bearer token is sent exactly when the provider has one that is not empty.
pub bearer_forwarded :
    (p : ProviderConfig) (body key : Text)
    → ((build_chat_request p body).bearer_auth ≡ some key) ↔ ((p.api_key ≡ some key) × (key ≢ []))
unfolding build_chat_request
bearer_forwarded p body key = ground arith
