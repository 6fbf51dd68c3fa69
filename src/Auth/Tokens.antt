-- ===== src/Auth/Tokens.antt =====
-- Which requests are authenticated, and as whom.
use mathlib.Core.List.{Memᴰ}
use rust_llm_gateway_semanti.Prelude.{
  ◌≡◌, ◌≢◌, inl, inr, refl, subst, sym, ap, ◌∙◌, true, false, Option, none, some, [], ◌∷◌, ◌++◌,
  Text, starts_with, strip_prefix, length, drop, All, All-append, arith, Bool-cases, Option-cases,
  strip_prefix-eq-some,
}
use rust_llm_gateway_semanti.Prelude.Maps.{get}
use rust_llm_gateway_semanti.Prelude.Results.{Result, ok, err, ◌>>=◌, Result-cases}
use rust_llm_gateway_semanti.Services.{Services, IsDocumented, IsVisible}
use rust_llm_gateway_semanti.Error.{AppError, unauthorized}
use rust_llm_gateway_semanti.Config.{AppConfig, ClientCredential}
use rust_llm_gateway_semanti.State as State
use rust_llm_gateway_semanti.State.{ClientIdentity, AppState, identity_of}
use rust_llm_gateway_semanti.State.Credentials.{table_lem, last_with_sound, last_with_complete}
use rust_llm_gateway_semanti.Auth.{
  is_space, trim_start, trim_end, trim, ok_or, bearer, extract_api_key, authenticate, token_of,
}

-- A token with no white space in it.
abbrev pub NoSpace : Text → Type 0
NoSpace = All (λ c. is_space c ≡ false)

trim_end-NoSpace : (s : Text) → NoSpace s → trim_end s ≡ s
unfolding trim_end
trim_end-NoSpace [] h = refl
trim_end-NoSpace (c ∷ s) (n, h) = ground (arith, trim_end-NoSpace s h)

trim-NoSpace : (s : Text) → NoSpace s → trim s ≡ s
unfolding trim trim_start
trim-NoSpace [] h = refl
trim-NoSpace (c ∷ s) (n, h) = rw n (trim_end-NoSpace (c ∷ s) (n, h))

drop-bearer : (s : Text) → drop (length bearer) (bearer ++ s) ≡ s
drop-bearer s = refl

starts-bearer : (s : Text) → starts_with bearer (bearer ++ s) ≡ true
unfolding starts_with strip_prefix
starts-bearer s = refl

token-bearer : (key : Text) → key ≢ [] → NoSpace key → token_of (bearer ++ key) ≡ ok key
unfolding token_of
token-bearer key present no_space = ground (arith, starts-bearer key, trim-NoSpace key no_space)

token-bearer_inv :
    (rest key : Text) → token_of (bearer ++ rest) ≡ ok key → (key ≡ trim rest) × (key ≢ [])
unfolding token_of
token-bearer_inv rest key e = ground (arith, starts-bearer rest)

starts_with_inv : (s : Text) → starts_with bearer s ≡ true → (rest : Text) × (s ≡ bearer ++ rest)
unfolding starts_with
starts_with_inv s h = elim (Option-cases (strip_prefix bearer s)) [
  | inl missing ↦ ground arith
  | inr (rest, found) ↦ (rest, strip_prefix-eq-some bearer s rest found)
]

token_sound :
    (t key : Text)
    → token_of t ≡ ok key
    → (rest : Text) × (t ≡ bearer ++ rest) × (key ≡ trim rest) × (key ≢ [])
unfolding token_of
token_sound t key e = elim (Bool-cases (starts_with bearer t)) [
  | inl starts ↦
      let (rest, split) = starts_with_inv t starts in
      let (trimmed, present) =
        token-bearer_inv rest key (subst (λ s. token_of s ≡ ok key) split e) in
      (rest, split, trimmed, present)
  | inr other ↦ cc (other)
]

module _ (services : Services) (documented : IsDocumented services) where
  open services use {sha256_hex, to_str, Store}

  -- A bearer token of visible characters is extracted as it was sent.
  pub extract-bearer :
      (key : Text)
      → key ≢ []
      → IsVisible key
      → NoSpace key
      → extract_api_key services (some (bearer ++ key)) ≡ ok key
  unfolding extract_api_key
  extract-bearer key present visible no_space =
      let shown =
        documented.to_str_visible (bearer ++ key) (All-append _ bearer key (omega arith) visible) in
      ap (λ (o : Option Text). ok_or o unauthorized >>= token_of) shown
      ∙ token-bearer key present no_space

  -- A key that is extracted is what follows "Bearer " in the header, trimmed, and is not empty.
  pub extract_sound :
      (header : Option Text) (key : Text)
      → extract_api_key services header ≡ ok key
      → (rest : Text) × (header ≡ some (bearer ++ rest)) × (key ≡ trim rest) × (key ≢ [])
  unfolding extract_api_key
  extract_sound none key e = cc
  extract_sound (some value) key e = elim (Option-cases (to_str value)) [
    | inl hidden ↦ ground arith
    | inr (t, shown) ↦
        let same = documented.to_str_same value t shown in
        let token : token_of t ≡ ok key = ground arith in
        let (rest, split, trimmed, present) = token_sound t key token in
        (rest, ap some (sym same ∙ split), trimmed, present)
  ]

  -- Over the state made from a configuration, an identity that is granted is that of a configured
  -- credential whose key has the SHA-256 hash of the key that was sent.
  pub authenticate_sound :
      (config : AppConfig) (store : Store) (header : Option Text) (i : ClientIdentity)
      → authenticate services (State.new services config store) header ≡ ok i
      → (key : Text) × (cred : ClientCredential) × (extract_api_key services header ≡ ok key)
        × Memᴰ cred config.auth.credentials
        × (sha256_hex cred.key ≡ sha256_hex key)
        × (identity_of cred ≡ i)
  unfolding authenticate State.new
  authenticate_sound config store header i e =
      elim (Result-cases (extract_api_key services header)) [
        | inr (_, refused) ↦ ground arith
        | inl (key, sent) ↦
            let h = sha256_hex key in
            let creds = config.auth.credentials in
            let table = table_lem services h creds in
            elim (Option-cases (get h (State.add_credentials services creds []))) [
              | inl unknown ↦ ground arith
              | inr (j, known) ↦
                  let same : j ≡ i = ground arith in
                  elim (last_with_sound services h creds none j (sym table ∙ known)) [
                    | inl nothing ↦ cc
                    | inr (cred, listed, hash, id) ↦ (key, cred, sent, listed, hash, id ∙ same)
                  ]
            ]
      ]

  -- Every configured credential with a non-empty key of visible characters without spaces is let
  -- in by the header `Bearer` with that key.
  pub authenticate_complete :
      (config : AppConfig) (store : Store) (cred : ClientCredential)
      → Memᴰ cred config.auth.credentials
      → cred.key ≢ []
      → IsVisible cred.key
      → NoSpace cred.key
      → (i : ClientIdentity) × (authenticate services
            (State.new services config store)
            (some (bearer ++ cred.key))
          ≡ ok i)
  unfolding authenticate State.new
  authenticate_complete config store cred listed present visible no_space =
      let h = sha256_hex cred.key in
      let creds = config.auth.credentials in
      let sent = extract-bearer cred.key present visible no_space in
      elim (Option-cases (get h (State.add_credentials services creds []))) [
        | inl unknown ↦ absurd (
            last_with_complete services h cred creds none listed refl
              (sym (table_lem services h creds) ∙ unknown))
        | inr (i, known) ↦ (
          i,
          ap
                (λ (r : Result Text AppError). r >>= λ k.
                  ok_or (get (sha256_hex k) (State.add_credentials services creds [])) unauthorized)
                sent
              ∙ ap (λ (o : Option ClientIdentity). ok_or o unauthorized) known,
        )
      ]

-- A refusal is always the 401 error.
pub authenticate_err :
    (services : Services) (app : AppState services.Store) (header : Option Text) (e : AppError)
    → authenticate services app header ≡ err e
    → e ≡ unauthorized
unfolding authenticate extract_api_key token_of
authenticate_err services app header e h = ground arith
