-- ===== src/Client.antt =====
-- src/proxy/client.rs: the request that is sent to a provider.
pub mod Urls
use rust_llm_gateway_semanti.Prelude.{
  ℕ, ◌*◌, not, Option, none, some, List, [], ◌∷◌, ◌++◌, Text, text, is_empty, ◌==◌, if◌then◌else◌,
}
use rust_llm_gateway_semanti.Config.{ProviderConfig}

-- What the `reqwest::RequestBuilder` is given.
pub record OutboundRequest : Type 0 where
  pub url : Text
  pub timeout : ℕ
  pub headers : List (Text × Text)
  pub body : Text
  pub bearer_auth : Option Text

-- `trim_end_matches(c)`: a byte is dropped if nothing but `c` follows it.
unfoldable pub trim_end_matches : ℕ → Text → Text
trim_end_matches c [] = []
trim_end_matches c (b ∷ s) =
    let rest = trim_end_matches c s in
    if is_empty rest then (if b == c then [] else b ∷ []) else b ∷ rest

abbrev pub second : ℕ
second = 1000000000

abbrev forwarded : Option Text → Option Text
forwarded none = none
forwarded (some key) = if not (is_empty key) then some key else none

unfoldable pub build_request : ProviderConfig → Text → Text → OutboundRequest
build_request provider url body = record {
  url = url;
  timeout = provider.request_timeout_seconds * second;
  headers =
      (text "content-type", text "application/json")
      ∷ (text "accept", text "application/json, text/event-stream")
      ∷ [];
  body = body;
  bearer_auth = forwarded provider.api_key;
}

unfoldable pub build_chat_request : ProviderConfig → Text → OutboundRequest
unfolding build_request
build_chat_request provider body =
    build_request provider (trim_end_matches b'/' provider.endpoint ++ text "/v1/chat/completions")
      body

unfoldable pub build_embeddings_request : ProviderConfig → Text → OutboundRequest
unfolding build_request
build_embeddings_request provider body =
    build_request provider (trim_end_matches b'/' provider.endpoint ++ text "/v1/embeddings") body
