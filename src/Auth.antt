-- ===== src/Auth.antt =====
-- src/middleware/auth.rs: the bearer token and the client that it names.
-- A header is the bytes of its value; `to_str` is that of http and gives visible ASCII alone, so
-- `trim` has only ASCII white space to remove.
pub mod Tokens
use rust_llm_gateway_semanti.Prelude.{
  ℕ, Bool, ◌||◌, ◌&&◌, Option, none, some, [], ◌∷◌, Text, text, is_empty, starts_with, length, drop,
  leb, ◌==◌, if◌then◌else◌,
}
use rust_llm_gateway_semanti.Prelude.Maps.{get}
use rust_llm_gateway_semanti.Prelude.Results.{Result, ok, err, ◌>>=◌}
use rust_llm_gateway_semanti.Services.{Services}
use rust_llm_gateway_semanti.Error.{AppError, unauthorized}
use rust_llm_gateway_semanti.State.{ClientIdentity, AppState}

abbrev pub is_space : ℕ → Bool
is_space c = (leb 9 c && leb c 13) || c == b' '

unfoldable pub trim_start : Text → Text
trim_start [] = []
trim_start (c ∷ s) = if is_space c then trim_start s else c ∷ s

unfoldable pub trim_end : Text → Text
trim_end [] = []
trim_end (c ∷ s) =
    let rest = trim_end s in if is_empty rest then (if is_space c then [] else c ∷ []) else c ∷ rest

unfoldable pub trim : Text → Text
unfolding trim_start trim_end
trim s = trim_end (trim_start s)

-- `ok_or(e)`.
abbrev pub ok_or {ℓ} : {A E : Type ℓ} → Option A → E → Result A E
ok_or none e = err e
ok_or (some a) e = ok a

abbrev pub bearer : Text
bearer = text "Bearer "

-- The end of `extract_api_key`, from the test of the prefix.
unfoldable pub token_of : Text → Result Text AppError
token_of auth_header =
    let key = trim (drop (length bearer) auth_header) in
    if starts_with bearer auth_header
    then (if is_empty key then err unauthorized else ok key)
    else err unauthorized

-- `FromRequestParts` for `ClientIdentity`: the request's extension, set by `auth_middleware`.
unfoldable pub from_request_parts : Option ClientIdentity → Result ClientIdentity AppError
from_request_parts extension = ok_or extension unauthorized

module _ (services : Services) where
  open services use {sha256_hex, to_str, Store}

  -- The argument is the value of the `authorization` header.
  unfoldable pub extract_api_key : Option Text → Result Text AppError
  extract_api_key authorization = do
    value ← ok_or authorization unauthorized
    auth_header ← ok_or (to_str value) unauthorized
    token_of auth_header

  -- The identity that `auth_middleware` puts into the request's extensions, before it passes the
  -- request on, or the error that it answers with.
  unfoldable pub authenticate : AppState Store → Option Text → Result ClientIdentity AppError
  authenticate app authorization = do
    api_key ← extract_api_key authorization
    ok_or (get (sha256_hex api_key) app.credentials) unauthorized
