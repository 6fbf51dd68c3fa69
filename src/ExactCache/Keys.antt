-- ===== src/ExactCache/Keys.antt =====
-- When a request is cacheable, and what two requests with the same key have in common.
use rust_llm_gateway_semanti.Prelude.{
  ℕ, zero, suc, ◌≡◌, ◌≢◌, ◌↔◌, ◌⊎◌, inl, inr, refl, none, some, [], ◌∷◌, ◌++◌, Text, text, text_eq,
  text_eq_iff, All, arith, Bool-cases,
}
use rust_llm_gateway_semanti.Prelude.Floats.{
  Float, pos, negsuc, finite, infinity, neg_infinity, nan,
}
use rust_llm_gateway_semanti.Services.{Services}
use rust_llm_gateway_semanti.ExactCache.{compute_key}

-- JSON text holds no zero byte: serde_json writes it as an escape.
abbrev pub NoZero : Text → Type 0
NoZero = All (λ c. c ≢ 0)

NoZero-before : (m p q : Text) → NoZero q → q ≢ m ++ 0 ∷ p
NoZero-before [] p [] h e = cc
NoZero-before [] p (c ∷ q) (n, _) e = n (ground arith)
NoZero-before (a ∷ m) p [] h e = cc
NoZero-before (a ∷ m) p (c ∷ q) (_, h) e = NoZero-before m p q h (cc)

split_zero :
    (m m' p p' : Text) → NoZero p → NoZero p' → m ++ 0 ∷ p ≡ m' ++ 0 ∷ p' → (m ≡ m') × (p ≡ p')
split_zero [] [] p p' h h' e = (refl, cc)
split_zero [] (b ∷ m') p p' h h' e = absurd (NoZero-before m' p' p h (cc))
split_zero (a ∷ m) [] p p' h h' e = absurd (NoZero-before m p p' h' (cc))
split_zero (a ∷ m) (b ∷ m') p p' h h' e =
    let (same_m, same_p) = split_zero m m' p p' h h' (cc) in (cc, same_p)

module _ (services : Services) where
  open services use {sha256_hex}

  -- The key of a cacheable request.
  compute_key_inv :
      (model payload : Text) (t : Float) {k : Text}
      → compute_key services model payload t ≡ some k
      → k ≡ text "exact:" ++ sha256_hex (model ++ 0 ∷ payload)
  unfolding compute_key
  compute_key_inv model payload t e = ground arith

  -- Two requests with payloads free of zero bytes and the same cache key have the same model and
  -- payload, or their inputs collide under SHA-256.
  pub compute_key_collision :
      (m m' p p' : Text) (t t' : Float) (k : Text)
      → NoZero p
      → NoZero p'
      → compute_key services m p t ≡ some k
      → compute_key services m' p' t' ≡ some k
      → ((m ≡ m') × (p ≡ p'))
        ⊎ ((m ++ 0 ∷ p ≢ m' ++ 0 ∷ p') × (sha256_hex (m ++ 0 ∷ p) ≡ sha256_hex (m' ++ 0 ∷ p')))
  compute_key_collision m m' p p' t t' k h h' e e' =
      elim (Bool-cases (text_eq (m ++ 0 ∷ p) (m' ++ 0 ∷ p'))) [
        | inl same ↦ inl (split_zero m m' p p' h h' ((text_eq_iff _ _).0 same))
        | inr differ ↦ inr (
          λ same. cc ((text_eq_iff (m ++ 0 ∷ p) (m' ++ 0 ∷ p')).1 same),
          cc (compute_key_inv m p t e, compute_key_inv m' p' t' e'),
        )
      ]

  -- A request has no cache key exactly when its temperature is positive: zero, negative and not-a-
  -- number temperatures have one.
  pub compute_key-eq-none_iff :
      (m p : Text) (t : Float)
      → (compute_key services m p t ≡ none)
        ↔ (((n : ℕ) × (t ≡ finite (pos (suc n)))) ⊎ (t ≡ infinity))
  unfolding compute_key
  compute_key-eq-none_iff m p (finite (pos zero)) = (λ e. ground arith, λ h. ground arith)
  compute_key-eq-none_iff m p (finite (pos (suc n))) = (λ e. inl (n, refl), λ h. ground arith)
  compute_key-eq-none_iff m p (finite (negsuc n)) = (λ e. ground arith, λ h. ground arith)
  compute_key-eq-none_iff m p infinity = (λ e. inr refl, λ h. refl)
  compute_key-eq-none_iff m p neg_infinity = (λ e. cc, λ h. ground arith)
  compute_key-eq-none_iff m p nan = (λ e. cc, λ h. ground arith)
