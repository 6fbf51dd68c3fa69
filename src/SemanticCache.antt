-- ===== src/SemanticCache.antt =====
-- src/cache/semantic.rs: the semantic cache and the cosine similarity.
-- The arithmetic of `f32`, which rounds, is a parameter; comparisons and `as f64` are exact. What
-- the embedding backend answers to the call is an argument, and so is `Instant::now()`.
pub mod Lookup
pub mod Similarity
pub mod Capacity
use rust_llm_gateway_semanti.Prelude.{
  ℕ, suc, ◌+◌, ◌-◌, ◌*◌, ◌^◌, Bool, true, false, ◌&&◌, ◌||◌, not, Option, none, some, List, [], ◌∷◌,
  ◌++◌, Text, text, text_eq, length, ltb, leb, ◌==◌, if◌then◌else◌,
}
use rust_llm_gateway_semanti.Prelude.Floats.{
  pos, negsuc, Float, finite, infinity, neg_infinity, nan, float_lt, float_le, float_zero,
}
use rust_llm_gateway_semanti.Prelude.Results.{Result, ok, err}

pub record SemanticCacheConfig : Type 0 where
  pub enabled : Bool
  pub threshold : Float  -- f64
  pub max_entries : ℕ
  pub ttl : ℕ

-- `default()`: 0.95 is the nearest f64.
unfoldable pub default_config : SemanticCacheConfig
default_config = record {
  enabled = false;
  threshold = finite (pos (4278419646001971 * 2 ^ 1022));
  max_entries = 10000;
  ttl = 3600 * 1000000000;
}

pub record CompatibilitySignature : Type 0 where
  pub model : Text
  pub system_fingerprint : Option Text
  pub tools_hash : Option Text
  pub response_format : Option Text

pub record SemanticEntry : Type 0 where
  pub prompt : Text
  pub signature : CompatibilitySignature
  pub embedding : List Float
  pub response : Text
  pub created_at : ℕ

pub data SemanticLookupOutcome : Type 0 where
  hit : Text → Float → SemanticLookupOutcome
  miss disabled : SemanticLookupOutcome

pub record SemanticCache : Type 0 where
  pub config : SemanticCacheConfig
  pub entries : List SemanticEntry

-- `NoopEmbeddingBackend`, which `AppState::new` gives to the cache.
unfoldable pub noop_embed : Text → Result (List Float) Text
noop_embed _ = err (text "no embedding backend configured")

unfoldable pub new : SemanticCacheConfig → SemanticCache
new config = record { config = config; entries = [] }

unfoldable pub option_eq : Option Text → Option Text → Bool
option_eq none none = true
option_eq none (some _) = false
option_eq (some _) none = false
option_eq (some a) (some b) = text_eq a b

-- The derived `PartialEq`.
unfoldable pub signature_eq : CompatibilitySignature → CompatibilitySignature → Bool
signature_eq a b =
    text_eq a.model b.model
    && option_eq a.system_fingerprint b.system_fingerprint
    && option_eq a.tools_hash b.tools_hash
    && option_eq a.response_format b.response_format

-- `as f64`: the same value, as a multiple of 2 ^ -1074 in place of 2 ^ -149.
unfoldable pub widen : Float → Float
widen (finite (pos n)) = finite (pos (n * 2 ^ 925))
widen (finite (negsuc n)) = finite (negsuc (suc n * 2 ^ 925 - 1))
widen infinity = infinity
widen neg_infinity = neg_infinity
widen nan = nan

-- The operations of `f32`, and `as f32` from `f64`.
pub record Arithmetic : Type 0 where
  pub add : Float → Float → Float
  pub mul : Float → Float → Float
  pub div : Float → Float → Float
  pub sqrt : Float → Float
  pub narrow : Float → Float

-- 1.0 and -1.0.
abbrev pub one : Float
one = finite (pos (2 ^ 149))

abbrev pub minus_one : Float
minus_one = finite (negsuc (2 ^ 149 - 1))

unfoldable pub clamp : Float → Float → Float → Float
clamp low high x = if float_lt x low then low else if float_lt high x then high else x

pub record Sums : Type 0 where
  pub dot : Float
  pub norm_a : Float
  pub norm_b : Float

abbrev pub no_sums : Sums
no_sums = record { dot = float_zero; norm_a = float_zero; norm_b = float_zero }

module _ (arithmetic : Arithmetic) where
  open arithmetic use {add, mul, div, sqrt, narrow}

  -- The loop over the zipped vectors.
  unfoldable pub sums : Sums → List Float → List Float → Sums
  sums s [] b = s
  sums s (x ∷ a) [] = s
  sums s (x ∷ a) (y ∷ b) =
      sums
        (record {
          dot = add s.dot (mul x y);
          norm_a = add s.norm_a (mul x x);
          norm_b = add s.norm_b (mul y y);
        })
        a b

  -- The end of `cosine_similarity`, from `let denom`.
  unfoldable pub normalized : Sums → Float
  normalized s =
      let denom = mul (sqrt s.norm_a) (sqrt s.norm_b) in
      if float_lt float_zero denom then clamp minus_one one (div s.dot denom) else float_zero

  unfoldable pub cosine_similarity : List Float → List Float → Float
  cosine_similarity a b =
      if not (length a == length b) || length a == 0
      then float_zero
      else normalized (sums no_sums a b)

  -- The two `continue` tests of the loop.
  unfoldable pub is_skipped :
      SemanticCacheConfig → CompatibilitySignature → ℕ → SemanticEntry → Bool
  is_skipped config signature now entry =
      not (signature_eq entry.signature signature) || ltb config.ttl (now - entry.created_at)

  unfoldable pub better :
      SemanticEntry → Float → Option (SemanticEntry × Float) → Option (SemanticEntry × Float)
  better entry sim none = some (entry, widen sim)
  better entry sim (some (best, best_sim)) =
      if float_lt best_sim (widen sim) then some (entry, widen sim) else some (best, best_sim)

  -- One round of the loop over the entries.
  unfoldable pub consider :
      SemanticCacheConfig
      → CompatibilitySignature
      → ℕ
      → List Float
      → SemanticEntry
      → Option (SemanticEntry × Float)
      → Option (SemanticEntry × Float)
  consider config signature now query entry best_match =
      if is_skipped config signature now entry
      then best_match
      else (let sim = cosine_similarity query entry.embedding in
          if float_le (narrow config.threshold) sim
          then better entry sim best_match
          else best_match)

  unfoldable pub best_of :
      SemanticCacheConfig
      → CompatibilitySignature
      → ℕ
      → List Float
      → List SemanticEntry
      → Option (SemanticEntry × Float)
      → Option (SemanticEntry × Float)
  best_of config signature now query [] best_match = best_match
  best_of config signature now query (entry ∷ rest) best_match =
      best_of config signature now query rest (consider config signature now query entry best_match)

  abbrev pub outcome : Option (SemanticEntry × Float) → SemanticLookupOutcome
  outcome none = miss
  outcome (some (entry, sim)) = hit entry.response sim

  unfoldable pub lookup :
      SemanticCache → Result (List Float) Text → CompatibilitySignature → ℕ → SemanticLookupOutcome
  lookup c embedded signature now = if not c.config.enabled then disabled else elim embedded [
    | ok query ↦ outcome (best_of c.config signature now query c.entries none)
    | err _ ↦ miss
  ]

-- `entries.remove(0)`, which panics on an empty vector.
abbrev pub remove_first : List SemanticEntry → Option (List SemanticEntry)
remove_first [] = none
remove_first (_ ∷ entries) = some entries

abbrev pub push_entry :
    SemanticCache → SemanticEntry → Option (List SemanticEntry) → Option SemanticCache
push_entry c entry none = none
push_entry c entry (some entries) = some (record c { entries = entries ++ entry ∷ [] })

-- `none` is the panic.
unfoldable pub insert :
    SemanticCache
    → Result (List Float) Text
    → Text
    → CompatibilitySignature
    → Text
    → ℕ
    → Option SemanticCache
insert c embedded prompt signature response now =
    if not c.config.enabled then some c else elim embedded [
      | err _ ↦ some c
      | ok embedding ↦
          push_entry c
            (record {
              prompt = prompt;
              signature = signature;
              embedding = embedding;
              response = response;
              created_at = now;
            })
            (if leb c.config.max_entries (length c.entries)
              then remove_first c.entries
              else some c.entries)
    ]

unfoldable pub clear : SemanticCache → SemanticCache
clear c = record c { entries = [] }
