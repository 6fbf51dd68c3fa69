-- ===== src/Tests/Caches.antt =====
-- The exact and the semantic cache at concrete inputs.
use rust_llm_gateway_semanti.Prelude.{
  ℕ, suc, ◌+◌, ◌*◌, ◌/◌, ◌^◌, ◌≡◌, ◌↔◌, ◌⊎◌, refl, true, Option, none, some, List, [], ◌∷◌, ◌++◌,
  Text, text, All, arith,
}
use rust_llm_gateway_semanti.Prelude.Floats.{Float, finite, infinity, pos, negsuc, float_zero, nan}
use rust_llm_gateway_semanti.Prelude.Results.{Result, ok}
use rust_llm_gateway_semanti.ExactCache.{compute_key, get}
use rust_llm_gateway_semanti.ExactCache as ExactCache
use rust_llm_gateway_semanti.ExactCache.Hits.{Stored, fill, IsSame, cached_response}
use rust_llm_gateway_semanti.Prelude.Maps as Maps
use mathlib.Core.List.{Memᴰ}
use rust_llm_gateway_semanti.ExactCache.Keys.{compute_key-eq-none_iff}
use rust_llm_gateway_semanti.SemanticCache.{
  CompatibilitySignature, SemanticEntry, SemanticCache, Arithmetic, hit, miss, lookup, insert,
  cosine_similarity, one, widen, signature_eq, option_eq, is_skipped, better, consider, best_of,
  sums, normalized, clamp,
}
use rust_llm_gateway_semanti.Prelude.{text_eq}
use rust_llm_gateway_semanti.SemanticCache.Lookup.{IsBest, IsCandidate, lookup_hit, lookup_miss_iff}
use rust_llm_gateway_semanti.SemanticCache.Capacity.{insert_panics_iff}
use rust_llm_gateway_semanti.Tests.Samples.{sample_services, sample-IsDocumented}

abbrev count : Float → Option ℕ
count (finite (pos n)) = some n
count (finite (negsuc n)) = none
count _ = none

abbrev both : (ℕ → ℕ → ℕ) → Option ℕ → Option ℕ → Float
both f (some a) (some b) = finite (pos (f a b))
both f (some a) none = nan
both f none b = nan

-- Exact on the multiples that occur below, not a number elsewhere.
abbrev exact_ops : Arithmetic
exact_ops = record {
  add = λ x y. both (λ a b. a + b) (count x) (count y);
  mul = λ x y. both (λ a b. a * b / 2 ^ 149) (count x) (count y);
  div = λ x y. both (λ a b. a * 2 ^ 149 / b) (count x) (count y);
  sqrt = λ x. x;
  narrow = λ x. x;
}

abbrev plain : CompatibilitySignature
plain = record {
  model = text "m";
  system_fingerprint = none;
  tools_hash = none;
  response_format = none;
}

abbrev entry : SemanticEntry
entry = record {
  prompt = text "p";
  signature = plain;
  embedding = one ∷ [];
  response = text "r";
  created_at = 5;
}

abbrev cache : SemanticCache
cache = record {
  config = record { enabled = true; threshold = finite (pos 1); max_entries = 1; ttl = 100 };
  entries = entry ∷ [];
}

abbrev stored : Stored
stored = record {
  model = text "m";
  payload = text "{}";
  temperature = float_zero;
  response = text "r";
  at = 5;
}

stored_found :
    get sample_services
      (fill sample_services [] (stored ∷ []))
      (text "exact:" ++ text "m" ++ 0 ∷ text "{}")
      9
    ≡ some (text "r")
unfolding fill compute_key get ExactCache.insert Maps.get Maps.insert text_eq
stored_found = refl

empty_store : (k : Text) (u : ℕ) → get sample_services [] k u ≡ none
unfolding get Maps.get
empty_store k u = refl

stored_key :
    compute_key sample_services (text "m") (text "{}") float_zero
    ≡ some (text "exact:" ++ text "m" ++ 0 ∷ text "{}")
unfolding compute_key
stored_key = refl

cached_response_example :
    (q : Stored) × Memᴰ q (stored ∷ [])
    × (q.response ≡ text "r")
    × IsSame sample_services q (text "m") (text "{}")
cached_response_example =
    cached_response sample_services sample-IsDocumented [] empty_store (stored ∷ []) (text "m")
      (text "{}") float_zero (text "exact:" ++ text "m" ++ 0 ∷ text "{}") (text "r") 9
      (((λ e. cc), ((λ e. cc), tt)), tt) ((λ e. cc), ((λ e. cc), tt)) stored_key stored_found

compute_key-eq-none_iff_example :
    (compute_key sample_services (text "m") (text "{}") infinity ≡ none)
    ↔ (((n : ℕ) × (infinity ≡ finite (pos (suc n)))) ⊎ (infinity ≡ infinity))
compute_key-eq-none_iff_example =
    compute_key-eq-none_iff sample_services (text "m") (text "{}") infinity

found : lookup exact_ops cache (ok (one ∷ [])) plain 50 ≡ hit (text "r") (widen one)
unfolding lookup best_of consider is_skipped signature_eq option_eq text_eq cosine_similarity sums
    normalized clamp better
found = refl

lookup_hit_example :
    (e : SemanticEntry) × (e.response ≡ text "r")
    × IsBest exact_ops cache.config plain 50 (one ∷ []) cache.entries (some (e, widen one))
lookup_hit_example = lookup_hit exact_ops cache (one ∷ []) plain 50 (text "r") (widen one) found

lookup_miss_iff_example :
    (lookup exact_ops cache (ok (one ∷ [])) plain 500 ≡ miss)
    ↔ All (λ e. ¬ IsCandidate exact_ops cache.config plain 500 (one ∷ []) e) (entry ∷ [])
lookup_miss_iff_example = lookup_miss_iff exact_ops cache (one ∷ []) plain 500 refl

abbrev embedded : Result (List Float) Text
embedded = ok (one ∷ [])

insert_panics_iff_example :
    (insert cache embedded (text "p") plain (text "r") 5 ≡ none)
    ↔ ((true ≡ true) × ((e : List Float) × (embedded ≡ ok e)) × (cache.config.max_entries ≡ 0))
insert_panics_iff_example =
    insert_panics_iff cache (text "p") plain (text "r") 5 embedded (omega arith)
