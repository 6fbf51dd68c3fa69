-- ===== src/State/Credentials.antt =====
-- The credential table that `AppState::new` builds.
use mathlib.Core.List.{Memᴰ}
use rust_llm_gateway_semanti.Prelude.{
  ◌≡◌, ◌≢◌, ◌⊎◌, inl, inr, refl, Option, none, some, List, [], ◌∷◌, Text, text_eq, text_eq_iff,
  arith, if◌then◌else◌, Bool-cases, ap, sym, ◌∙◌,
}
use rust_llm_gateway_semanti.Prelude.Maps.{Map, get, insert, get-insert}
use rust_llm_gateway_semanti.Services.{Services}
use rust_llm_gateway_semanti.Config.{ClientCredential}
use rust_llm_gateway_semanti.State.{ClientIdentity, identity_of, add_credentials}

module _ (services : Services) where
  open services use {sha256_hex}

  -- The last credential whose key has this hash.
  pub last_with : Text → List ClientCredential → Option ClientIdentity → Option ClientIdentity
  last_with h [] found = found
  last_with h (cred ∷ creds) found =
      last_with h creds (if text_eq (sha256_hex cred.key) h then some (identity_of cred) else found)

  pub get-add_credentials :
      (h : Text) (creds : List ClientCredential) (m : Map ClientIdentity)
      → get h (add_credentials services creds m) ≡ last_with h creds (get h m)
  unfolding add_credentials last_with
  get-add_credentials h [] m = refl
  get-add_credentials h (cred ∷ creds) m =
      rw
        (
          get-add_credentials h creds (insert (sha256_hex cred.key) (identity_of cred) m),
          get-insert (sha256_hex cred.key) h (identity_of cred) m,
        )
        refl

  -- What is found belongs to a configured credential whose key has the hash.
  pub last_with_sound :
      (h : Text) (creds : List ClientCredential) (found : Option ClientIdentity)
      (i : ClientIdentity)
      → last_with h creds found ≡ some i
      → (found ≡ some i)
        ⊎ ((cred : ClientCredential) × Memᴰ cred creds
            × (sha256_hex cred.key ≡ h)
            × (identity_of cred ≡ i))
  unfolding last_with
  last_with_sound h [] found i e = inl e
  last_with_sound h (cred ∷ creds) found i e = elim (Bool-cases (text_eq (sha256_hex cred.key) h)) [
    | inl same ↦ elim (last_with_sound h creds (some (identity_of cred)) i (rw same at e)) [
      | inl this ↦ inr (cred, Memᴰ.head refl, (text_eq_iff _ h).0 same, cc)
      | inr (c, listed, hash, id) ↦ inr (c, Memᴰ.tail listed, hash, id)
    ]
    | inr other ↦ elim (last_with_sound h creds found i (rw other at e)) [
      | inl before ↦ inl before
      | inr (c, listed, hash, id) ↦ inr (c, Memᴰ.tail listed, hash, id)
    ]
  ]

  -- What was found once stays found.
  last_with_kept :
      (h : Text) (creds : List ClientCredential) (found : Option ClientIdentity)
      → found ≢ none
      → last_with h creds found ≢ none
  unfolding last_with
  last_with_kept h [] found p = p
  last_with_kept h (cred ∷ creds) found p =
      last_with_kept h creds
        (if text_eq (sha256_hex cred.key) h then some (identity_of cred) else found) (ground arith)

  -- A hash that some credential has is found.
  pub last_with_complete :
      (h : Text) (c : ClientCredential) (creds : List ClientCredential)
      (found : Option ClientIdentity)
      → Memᴰ c creds
      → sha256_hex c.key ≡ h
      → last_with h creds found ≢ none
  unfolding last_with
  last_with_complete h c [] found m e = elim m [ ]
  last_with_complete h c (cred ∷ creds) found (Memᴰ.head this) e =
      last_with_kept h creds
        (if text_eq (sha256_hex cred.key) h then some (identity_of cred) else found)
        (ground (
          arith,
          (text_eq_iff (sha256_hex cred.key) h).1
              (ap (λ (x : ClientCredential). sha256_hex x.key) (sym this) ∙ e),
        ))
  last_with_complete h c (cred ∷ creds) found (Memᴰ.tail m) e =
      last_with_complete h c creds
        (if text_eq (sha256_hex cred.key) h then some (identity_of cred) else found) m e

  pub table_lem :
      (h : Text) (creds : List ClientCredential)
      → get h (add_credentials services creds []) ≡ last_with h creds none
  unfolding get
  table_lem h creds = get-add_credentials h creds []
