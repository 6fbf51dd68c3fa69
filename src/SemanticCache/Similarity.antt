-- ===== src/SemanticCache/Similarity.antt =====
-- The range and the symmetry of the cosine similarity.
use rust_llm_gateway_semanti.Prelude.{
  ◌-◌, ◌^◌, ◌≡◌, ◌⊎◌, inl, inr, refl, true, ◌||◌, not, List, [], ◌∷◌, length, arith, ◌==◌,
  Bool-cases,
}
use rust_llm_gateway_semanti.Prelude.Floats.{
  pos, negsuc, ℤ, Float, finite, nan, float_lt, float_le, float_zero,
}
use rust_llm_gateway_semanti.SemanticCache.{
  Arithmetic, Sums, no_sums, one, minus_one, clamp, sums, normalized, cosine_similarity,
}

abbrev Within : Float → Float → Float → Type 0
Within low high r = (float_le low r ≡ true) × (float_le r high ≡ true)

clamp_range :
    (l h : ℤ) (x : Float)
    → float_le (finite l) (finite h) ≡ true
    → (clamp (finite l) (finite h) x ≡ nan)
      ⊎ Within (finite l) (finite h) (clamp (finite l) (finite h) x)
unfolding clamp
clamp_range l h x e = ground arith

module _ (arithmetic : Arithmetic) where
  normalized_range :
      (s : Sums) → (normalized arithmetic s ≡ nan) ⊎ Within minus_one one (normalized arithmetic s)
  unfolding normalized
  normalized_range s =
      let denom = arithmetic.mul (arithmetic.sqrt s.norm_a) (arithmetic.sqrt s.norm_b) in
      elim (Bool-cases (float_lt float_zero denom)) [
        | inl positive ↦
            rw positive
              (clamp_range (negsuc (2 ^ 149 - 1)) (pos (2 ^ 149)) (arithmetic.div s.dot denom) refl)
        | inr other ↦ rw other (inr (refl, refl))
      ]

  -- Whatever the arithmetic, the similarity lies from -1 to 1 or is not a number.
  pub cosine_range :
      (a b : List Float)
      → (cosine_similarity arithmetic a b ≡ nan)
        ⊎ ((float_le minus_one (cosine_similarity arithmetic a b) ≡ true)
            × (float_le (cosine_similarity arithmetic a b) one ≡ true))
  unfolding cosine_similarity
  cosine_range a b = elim (Bool-cases (not (length a == length b) || length a == 0)) [
    | inl mismatch ↦ rw mismatch (inr (refl, refl))
    | inr fit ↦ rw fit (normalized_range (sums arithmetic no_sums a b))
  ]

  -- Vectors of different lengths, and empty ones, are not similar.
  pub cosine_mismatch :
      (a b : List Float)
      → (length a ≡ length b → length a ≡ 0)
      → cosine_similarity arithmetic a b ≡ float_zero
  unfolding cosine_similarity
  cosine_mismatch a b h = ground arith

  sums_swap :
      ((x y : Float) → arithmetic.mul x y ≡ arithmetic.mul y x)
      → (d n m : Float) (a b : List Float)
      → let r = sums arithmetic (record { dot = d; norm_a = n; norm_b = m }) a b in
        sums arithmetic (record { dot = d; norm_a = m; norm_b = n }) b a
        ≡ record { dot = r.dot; norm_a = r.norm_b; norm_b = r.norm_a }
  unfolding sums
  sums_swap comm d n m [] [] = refl
  sums_swap comm d n m [] (y ∷ b) = refl
  sums_swap comm d n m (x ∷ a) [] = refl
  sums_swap comm d n m (x ∷ a) (y ∷ b) = rw (comm y x) (
      sums_swap comm (arithmetic.add d (arithmetic.mul x y)) (arithmetic.add n (arithmetic.mul x x))
        (arithmetic.add m (arithmetic.mul y y)) a b)

  normalized_swap :
      ((x y : Float) → arithmetic.mul x y ≡ arithmetic.mul y x)
      → (s : Sums)
      → normalized arithmetic (record { dot = s.dot; norm_a = s.norm_b; norm_b = s.norm_a })
        ≡ normalized arithmetic s
  unfolding normalized
  normalized_swap comm s = rw (comm (arithmetic.sqrt s.norm_b) (arithmetic.sqrt s.norm_a)) refl

  -- Where the product is commutative, the similarity does not depend on which vector is the query.
  pub cosine_symmetric :
      ((x y : Float) → arithmetic.mul x y ≡ arithmetic.mul y x)
      → (a b : List Float) → cosine_similarity arithmetic a b ≡ cosine_similarity arithmetic b a
  unfolding cosine_similarity
  cosine_symmetric comm a b = ground (
    arith,
    sums_swap comm float_zero float_zero float_zero a b,
    normalized_swap comm (sums arithmetic no_sums a b),
  )
