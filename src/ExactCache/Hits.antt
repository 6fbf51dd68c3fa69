-- ===== src/ExactCache/Hits.antt =====
-- Whose response a hit of the exact cache is.
use mathlib.Core.List.{Memᴰ}
use mathlib.Core.List.Memᴰ.{head, tail}
use rust_llm_gateway_semanti.Prelude.{
  ℕ, ◌≡◌, ◌≢◌, ◌⊎◌, inl, inr, refl, ap, subst, ◌∙◌, Option, none, some, List, [], ◌∷◌, ◌++◌, Text,
  All, Option-cases,
}
use rust_llm_gateway_semanti.Prelude.Floats.{Float}
use rust_llm_gateway_semanti.Services.{Services, IsDocumented}
use rust_llm_gateway_semanti.ExactCache.{compute_key, get, insert}
use rust_llm_gateway_semanti.ExactCache.Keys.{NoZero, compute_key_collision}

-- A request whose response was stored, and the instant at which it was.
pub record Stored : Type 0 where
  pub model : Text
  pub payload : Text
  pub temperature : Float
  pub response : Text
  pub at : ℕ

module _ (services : Services) where
  open services use {sha256_hex, Store}

  abbrev put : Store → Option Text → Stored → Store
  put cache none q = cache
  put cache (some key) q = insert services cache key q.response q.at

  -- The store after these requests, the latest first; those without a key are not stored.
  unfoldable pub fill : Store → List Stored → Store
  fill cache [] = cache
  fill cache (q ∷ qs) = put (fill cache qs) (compute_key services q.model q.payload q.temperature) q

  -- The request that was stored is the same, or its input collides with that of the other.
  abbrev pub IsSame : Stored → Text → Text → Type 0
  IsSame q m p =
      ((q.model ≡ m) × (q.payload ≡ p))
      ⊎ ((q.model ++ 0 ∷ q.payload ≢ m ++ 0 ∷ p)
          × (sha256_hex (q.model ++ 0 ∷ q.payload) ≡ sha256_hex (m ++ 0 ∷ p)))

  module _ (documented : IsDocumented services) (empty : Store)
      (is_empty : (k : Text) (u : ℕ) → get services empty k u ≡ none) where
    with_key :
        (q : Stored) (qs : List Stored) (k w : Text) (u : ℕ) {o : Option Text}
        → compute_key services q.model q.payload q.temperature ≡ o
        → get services (fill empty (q ∷ qs)) k u ≡ some w
        → get services (put (fill empty qs) o q) k u ≡ some w
    unfolding fill
    with_key q qs k w u cached found =
        subst (λ (o : Option Text). get services (put (fill empty qs) o q) k u ≡ some w) cached
          found

    put_hit :
        (q : Stored) (qs : List Stored) (j k w : Text) (u : ℕ)
        → get services (put (fill empty qs) (some j) q) k u ≡ some w
        → ((j ≡ k) × (q.response ≡ w)) ⊎ (get services (fill empty qs) k u ≡ some w)
    unfolding get insert
    put_hit q qs j k w u found = documented.store_hit (fill empty qs) j k q.response w q.at u found

    -- Where an entry that is found in the store was stored under that key and a new store is
    -- empty, a hit after any sequence of stored responses is the response of a stored request with
    -- the same model and payload, or the two requests' inputs collide under SHA-256; payloads are
    -- free of zero bytes.
    pub cached_response :
        (qs : List Stored) (m p : Text) (t : Float) (k w : Text) (u : ℕ)
        → All (λ q. NoZero q.payload) qs
        → NoZero p
        → compute_key services m p t ≡ some k
        → get services (fill empty qs) k u ≡ some w
        → (q : Stored) × Memᴰ q qs × (q.response ≡ w) × IsSame q m p
    unfolding fill
    cached_response [] m p t k w u hs h key found = cc (is_empty k u, found)
    cached_response (q ∷ qs) m p t k w u (h', hs) h key found =
        elim (Option-cases (compute_key services q.model q.payload q.temperature)) [
          | inl uncached ↦
              let (r, listed, same, request) =
                cached_response qs m p t k w u hs h key (with_key q qs k w u uncached found) in
              (r, tail listed, same, request)
          | inr (j, cached) ↦ elim (put_hit q qs j k w u (with_key q qs k w u cached found)) [
            | inl (same_key, same) ↦ (
              q,
              head refl,
              same,
              compute_key_collision services q.model m q.payload p q.temperature t k h' h
                  (cached ∙ ap some same_key) key,
            )
            | inr earlier ↦
                let (r, listed, same, request) = cached_response qs m p t k w u hs h key earlier in
                (r, tail listed, same, request)
          ]
        ]
