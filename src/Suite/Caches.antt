-- ===== src/Suite/Caches.antt =====
-- The tests of src/cache/exact.rs and src/cache/semantic.rs. The store that the first builds with moka,
-- and the rounding arithmetic, sine and cosine of f32 in the others, are parameters.
use rust_llm_gateway_semanti.Prelude.{
  ℕ, ◌+◌, ◌-◌, ◌*◌, ◌^◌, ◌≤◌, ◌≡◌, ◌≢◌, refl, Bool, true, false, ◌&&◌, not, Option, none, some,
  List, [], ◌∷◌, ◌++◌, Text, text, text_eq, text_eq_iff, length, ltb, arith,
}
use rust_llm_gateway_semanti.Prelude.Floats.{
  Float, finite, infinity, neg_infinity, nan, pos, pos_part, neg_part, float_zero, float_le,
}
use rust_llm_gateway_semanti.Prelude.Results.{ok}
use rust_llm_gateway_semanti.Services.{Services}
use rust_llm_gateway_semanti.ExactCache as ExactCache
use rust_llm_gateway_semanti.ExactCache.{compute_key}
use rust_llm_gateway_semanti.SemanticCache as SemanticCache
use rust_llm_gateway_semanti.SemanticCache.{
  Arithmetic, SemanticCacheConfig, CompatibilitySignature, SemanticLookupOutcome, hit, miss,
  disabled, one, cosine_similarity, widen, insert, lookup, sums, normalized, clamp, best_of,
  consider, is_skipped, signature_eq, option_eq, better,
}

-- `assert_ne!(a.unwrap(), b.unwrap())`
abbrev differ : Option Text → Option Text → Bool
differ none _ = false
differ (some a) none = false
differ (some a) (some b) = not (text_eq a b)

abbrev is_text : Text → Option Text → Bool
is_text t none = false
is_text t (some s) = text_eq s t

module _ (services : Services) where
  open services use {Store, sha256_hex, store_get, store_insert}

  abbrev inserted_then_read : Store → ℕ → ℕ → Option Text → Option Text
  unfolding ExactCache.insert ExactCache.get
  inserted_then_read cache t u none = none
  inserted_then_read cache t u (some key) =
      ExactCache.get services (ExactCache.insert services cache key (text "world") t) key u

  unfoldable basic_insert_get : Store → ℕ → ℕ → Bool
  unfolding ExactCache.insert ExactCache.get compute_key text_eq
  basic_insert_get cache t u =
      is_text (text "world") (
        inserted_then_read cache t u
          (compute_key services (text "gpt-4") (text "hello") float_zero))

  -- 0.1 is the nearest f32.
  unfoldable rejects_nonzero_temperature : Bool
  unfolding compute_key
  rejects_nonzero_temperature =
      elim (compute_key services (text "gpt-4") (text "hello")
        (finite (pos (13421773 * 2 ^ 122)))) [ none ↦ true | some _ ↦ false ]

  unfoldable different_models_produce_different_keys : Bool
  unfolding compute_key text_eq
  different_models_produce_different_keys =
      differ (compute_key services (text "gpt-4") (text "hello") float_zero)
        (compute_key services (text "claude-3") (text "hello") float_zero)

  unfoldable different_prompts_produce_different_keys : Bool
  unfolding compute_key text_eq
  different_prompts_produce_different_keys =
      differ (compute_key services (text "gpt-4") (text "hello") float_zero)
        (compute_key services (text "gpt-4") (text "world") float_zero)

  basic_insert_get_lem :
      (cache : Store) (t u : ℕ)
      → ((k v : Text) → store_get (store_insert cache k v t) k u ≡ some v)
      → basic_insert_get cache t u ≡ true
  unfolding basic_insert_get
  basic_insert_get_lem cache t u keeps = rw (keeps _ (text "world")) refl

  rejects_nonzero_temperature_lem : rejects_nonzero_temperature ≡ true
  unfolding rejects_nonzero_temperature
  rejects_nonzero_temperature_lem = refl

  abbrev hashed : Text → Text → Text
  hashed model payload = sha256_hex (model ++ 0 ∷ payload)

  different_models_produce_different_keys_lem :
      hashed (text "gpt-4") (text "hello") ≢ hashed (text "claude-3") (text "hello")
      → different_models_produce_different_keys ≡ true
  unfolding different_models_produce_different_keys
  different_models_produce_different_keys_lem apart = ground (
    arith,
    text_eq_iff (hashed (text "gpt-4") (text "hello")) (hashed (text "claude-3") (text "hello")),
  )

  different_prompts_produce_different_keys_lem :
      hashed (text "gpt-4") (text "hello") ≢ hashed (text "gpt-4") (text "world")
      → different_prompts_produce_different_keys ≡ true
  unfolding different_prompts_produce_different_keys
  different_prompts_produce_different_keys_lem apart = ground (
    arith,
    text_eq_iff (hashed (text "gpt-4") (text "hello")) (hashed (text "gpt-4") (text "world")),
  )

-- `(x - y).abs() < 1e-6` of finite values of f32.
unfoldable is_near : Float → Float → Bool
is_near (finite a) (finite b) =
    let x = pos_part a + neg_part b in
    let y = pos_part b + neg_part a in ltb ((x - y + (y - x)) * 1000000) (2 ^ 149)
is_near (finite a) infinity = false
is_near (finite a) neg_infinity = false
is_near (finite a) nan = false
is_near infinity b = false
is_near neg_infinity b = false
is_near nan b = false

-- Results of f32 that are represented are exact.
record IsExact (a : Arithmetic) : Type 0 where
  mul_one : a.mul one one ≡ one
  mul_zero : a.mul float_zero float_zero ≡ float_zero
  one_zero : a.mul one float_zero ≡ float_zero
  zero_one : a.mul float_zero one ≡ float_zero
  add_one : a.add float_zero one ≡ one
  one_add : a.add one float_zero ≡ one
  add_zero : a.add float_zero float_zero ≡ float_zero
  sqrt_one : a.sqrt one ≡ one
  div_one : a.div one one ≡ one
  div_zero : a.div float_zero one ≡ float_zero

abbrev two : Float
two = finite (pos (2 * 2 ^ 149))

abbrev three : Float
three = finite (pos (3 * 2 ^ 149))

-- What the mock backend uses of f32 besides.
record Functions : Type 0 where
  from_usize : ℕ → Float
  sin : Float → Float
  cos : Float → Float

unfoldable sig_a : CompatibilitySignature
sig_a = record {
  model = text "gpt-4";
  system_fingerprint = none;
  tools_hash = none;
  response_format = none;
}

unfoldable sig_b : CompatibilitySignature
sig_b = record {
  model = text "claude-3";
  system_fingerprint = none;
  tools_hash = none;
  response_format = none;
}

abbrev threshold : Float
threshold = finite (pos (4278419646001971 * 2 ^ 1022))

abbrev is_hit : SemanticLookupOutcome → Bool
is_hit (hit response similarity) =
    text_eq response (text "test response") && float_le threshold similarity
is_hit miss = false
is_hit disabled = false

abbrev is_miss : SemanticLookupOutcome → Bool
is_miss miss = true
is_miss _ = false

module _ (arithmetic : Arithmetic) where
  open arithmetic use {add, mul, div, sqrt, narrow}

  unfoldable cosine_similarity_identical_vectors : Bool
  unfolding is_near cosine_similarity
  cosine_similarity_identical_vectors =
      is_near
        (cosine_similarity arithmetic (one ∷ float_zero ∷ float_zero ∷ [])
          (one ∷ float_zero ∷ float_zero ∷ []))
        one

  unfoldable cosine_similarity_orthogonal_vectors : Bool
  unfolding is_near cosine_similarity
  cosine_similarity_orthogonal_vectors =
      is_near
        (cosine_similarity arithmetic (one ∷ float_zero ∷ float_zero ∷ [])
          (float_zero ∷ one ∷ float_zero ∷ []))
        float_zero

  module _ (e : IsExact arithmetic) where
    cosine_similarity_identical_vectors_lem : cosine_similarity_identical_vectors ≡ true
    unfolding cosine_similarity_identical_vectors sums normalized clamp
    cosine_similarity_identical_vectors_lem =
        rw
          (e.mul_one, e.mul_zero, e.add_one, e.one_add, e.one_add, e.sqrt_one, e.mul_one, e.div_one)
          refl

    cosine_similarity_orthogonal_vectors_lem : cosine_similarity_orthogonal_vectors ≡ true
    unfolding cosine_similarity_orthogonal_vectors sums normalized clamp
    cosine_similarity_orthogonal_vectors_lem =
        rw
          (
            e.one_zero, e.zero_one, e.mul_one, e.mul_zero, e.add_zero, e.add_zero, e.add_zero,
            e.add_one, e.one_add, e.one_add, e.sqrt_one, e.mul_one, e.div_zero,
          )
          refl

  module _ (functions : Functions) where
    open functions use {from_usize, sin, cos}

    -- `MockEmbeddingBackend::embed`
    unfoldable mock_vector : Text → List Float
    mock_vector text =
        let len = from_usize (length text) in
        let x = len in
        let y = sin (mul len two) in
        let z = cos (mul len three) in
        let norm = sqrt (add (add (mul x x) (mul y y)) (mul z z)) in
        div x norm ∷ div y norm ∷ div z norm ∷ []

    unfoldable cache_config : SemanticCacheConfig
    cache_config = record {
      enabled = true;
      threshold = threshold;
      max_entries = 100;
      ttl = 60 * 1000000000;
    }

    -- The clock is read at the insertion and at each lookup.
    unfoldable semantic_cache_hit_and_miss_with_signature : ℕ → ℕ → ℕ → Bool
    unfolding cache_config SemanticCache.new insert lookup sig_a sig_b text_eq
    semantic_cache_hit_and_miss_with_signature t u v =
        let embedded = ok (mock_vector (text "test prompt")) in
        elim (insert (SemanticCache.new cache_config) embedded (text "test prompt") sig_a
          (text "test response") t) [
            | none ↦ false
            | some cache ↦
                is_hit (lookup arithmetic cache embedded sig_a u)
                && is_miss (lookup arithmetic cache embedded sig_b v)
          ]

    -- Where the similarity of the embedding with itself rounds to 0.95 at least.
    semantic_cache_hit_and_miss_with_signature_lem :
        (t u v : ℕ)
        → u - t ≤ 60 * 1000000000
        → (let v = mock_vector (text "test prompt") in
            let sim = cosine_similarity arithmetic v v in
            (float_le (narrow threshold) sim ≡ true) × (float_le threshold (widen sim) ≡ true))
        → semantic_cache_hit_and_miss_with_signature t u v ≡ true
    unfolding semantic_cache_hit_and_miss_with_signature best_of consider is_skipped signature_eq
        option_eq better
    semantic_cache_hit_and_miss_with_signature_lem t u v fresh (reaches, wide) = ground arith
