-- ===== src/SemanticCache/Lookup.antt =====
-- What a hit and a miss of the semantic cache mean, and how far the cache grows.
use mathlib.Core.List.{Memᴰ}
use rust_llm_gateway_semanti.Prelude.{
  ℕ, ◌-◌, ◌≤◌, ◌≡◌, ◌↔◌, inl, inr, refl, true, false, Option, none, some, List, [], ◌∷◌, ◌++◌, Text,
  text_eq_iff, All, arith, Bool-cases, Option-cases, append-nil, append_assoc, All-append, subst,
  sym,
}
use rust_llm_gateway_semanti.Prelude.Floats.{
  Float, float_lt, float_le, float_lt_irrefl, float_lt_trans,
}
use rust_llm_gateway_semanti.Prelude.Results.{ok}
use rust_llm_gateway_semanti.SemanticCache.{
  SemanticCacheConfig, CompatibilitySignature, SemanticEntry, hit, miss, SemanticCache, Arithmetic,
  option_eq, signature_eq, widen, cosine_similarity, is_skipped, better, consider, best_of, outcome,
  lookup,
}

option_eq_iff : (a b : Option Text) → (option_eq a b ≡ true) ↔ (a ≡ b)
unfolding option_eq
option_eq_iff none none = (λ _. refl, λ _. refl)
option_eq_iff none (some b) = (λ e. cc, λ e. cc)
option_eq_iff (some a) none = (λ e. cc, λ e. cc)
option_eq_iff (some a) (some b) = ground (arith, text_eq_iff a b)

signature_eq_iff : (a b : CompatibilitySignature) → (signature_eq a b ≡ true) ↔ (a ≡ b)
unfolding signature_eq
signature_eq_iff a b = ground (
  arith,
  text_eq_iff a.model b.model,
  option_eq_iff a.system_fingerprint b.system_fingerprint,
  option_eq_iff a.tools_hash b.tools_hash,
  option_eq_iff a.response_format b.response_format,
)

module _ (arithmetic : Arithmetic) (config : SemanticCacheConfig)
    (signature : CompatibilitySignature) (now : ℕ) (query : List Float) where
  abbrev pub similarity : SemanticEntry → Float
  similarity entry = cosine_similarity arithmetic query entry.embedding

  -- An entry that may answer the request: of the same signature, not expired, similar enough.
  pub record IsCandidate (entry : SemanticEntry) : Type 0 where
    pub compatible : entry.signature ≡ signature
    pub fresh : now - entry.created_at ≤ config.ttl
    pub similar : float_le (arithmetic.narrow config.threshold) (similarity entry) ≡ true

  -- A best match so far: a candidate among the entries seen, that none of them exceeds.
  abbrev pub IsBest : List SemanticEntry → Option (SemanticEntry × Float) → Type 0
  IsBest seen none = All (λ e. ¬ IsCandidate e) seen
  IsBest seen (some (best, sim)) =
      Memᴰ best seen
      × IsCandidate best
      × (sim ≡ widen (similarity best))
      × All (λ e. IsCandidate e → float_lt sim (widen (similarity e)) ≡ false) seen

is_skipped_iff :
    (arithmetic : Arithmetic) (config : SemanticCacheConfig) (signature : CompatibilitySignature)
    (now : ℕ) (entry : SemanticEntry)
    → (is_skipped arithmetic config signature now entry ≡ false)
      ↔ ((entry.signature ≡ signature) × (now - entry.created_at ≤ config.ttl))
unfolding is_skipped
is_skipped_iff arithmetic config signature now entry =
    ground (arith, signature_eq_iff entry.signature signature)

module _ {ℓ} {A : Type ℓ} where
  Memᴰ-append_left : {a : A} (xs ys : List A) → Memᴰ a xs → Memᴰ a (xs ++ ys)
  Memᴰ-append_left [] ys m = elim m [ ]
  Memᴰ-append_left (x ∷ xs) ys (Memᴰ.head e) = Memᴰ.head e
  Memᴰ-append_left (x ∷ xs) ys (Memᴰ.tail m) = Memᴰ.tail (Memᴰ-append_left xs ys m)

  Memᴰ-last : (xs : List A) (a : A) → Memᴰ a (xs ++ a ∷ [])
  Memᴰ-last [] a = Memᴰ.head refl
  Memᴰ-last (x ∷ xs) a = Memᴰ.tail (Memᴰ-last xs a)

module _ (arithmetic : Arithmetic) (config : SemanticCacheConfig)
    (signature : CompatibilitySignature) (now : ℕ) (query : List Float) where
  abbrev Candidate : SemanticEntry → Type 0
  Candidate = IsCandidate arithmetic config signature now query

  abbrev Best : List SemanticEntry → Option (SemanticEntry × Float) → Type 0
  Best = IsBest arithmetic config signature now query

  -- No candidate so far exceeds `sim`.
  abbrev Tops : Float → List SemanticEntry → Type 0
  Tops sim = All (λ e.
      Candidate e
      → float_lt sim (widen (similarity arithmetic config signature now query e)) ≡ false)

  Tops-mono :
      (low high : Float) (seen : List SemanticEntry)
      → float_lt low high ≡ true
      → Tops low seen
      → Tops high seen
  Tops-mono low high [] h _ = tt
  Tops-mono low high (e ∷ seen) h (t, ts) =
      let sim = widen (similarity arithmetic config signature now query e) in
      (
        λ c. elim (Bool-cases (float_lt high sim)) [
          | inl above ↦ absurd (cc (t c, float_lt_trans low high sim h above))
          | inr fine ↦ fine
        ],
        Tops-mono low high seen h ts,
      )

  none_Tops :
      (sim : Float) (seen : List SemanticEntry) → All (λ e. ¬ Candidate e) seen → Tops sim seen
  none_Tops sim [] _ = tt
  none_Tops sim (e ∷ seen) (n, ns) = (λ c. absurd (n c), none_Tops sim seen ns)

  skip-Best :
      (entry : SemanticEntry) (seen : List SemanticEntry) (b : Option (SemanticEntry × Float))
      → ¬ Candidate entry
      → Best seen b
      → Best (seen ++ entry ∷ []) b
  skip-Best entry seen none n best = All-append _ seen (entry ∷ []) best (n, tt)
  skip-Best entry seen (some (e, sim)) n (listed, c, same, tops) = (
    Memᴰ-append_left seen (entry ∷ []) listed,
    c,
    same,
    All-append _ seen (entry ∷ []) tops (λ c'. absurd (n c'), tt),
  )

  better-Best :
      (entry : SemanticEntry) (seen : List SemanticEntry) (b : Option (SemanticEntry × Float))
      → Candidate entry
      → Best seen b
      → Best
          (seen ++ entry ∷ [])
          (better arithmetic entry (similarity arithmetic config signature now query entry) b)
  unfolding better
  better-Best entry seen none c best =
      let sim = widen (similarity arithmetic config signature now query entry) in
      (
        Memᴰ-last seen entry,
        c,
        refl,
        All-append _ seen (entry ∷ []) (none_Tops sim seen best) (λ _. float_lt_irrefl sim, tt),
      )
  better-Best entry seen (some (e, top)) c (listed, ce, same, tops) =
      let sim = widen (similarity arithmetic config signature now query entry) in
      elim (Bool-cases (float_lt top sim)) [
        | inl above ↦ rw above (
          Memᴰ-last seen entry,
          c,
          refl,
          All-append _ seen (entry ∷ []) (Tops-mono top sim seen above tops)
              (λ _. float_lt_irrefl sim, tt),
        )
        | inr below ↦ rw below (
          Memᴰ-append_left seen (entry ∷ []) listed,
          ce,
          same,
          All-append _ seen (entry ∷ []) tops (λ _. below, tt),
        )
      ]

  consider-Best :
      (entry : SemanticEntry) (seen : List SemanticEntry) (b : Option (SemanticEntry × Float))
      → Best seen b
      → Best (seen ++ entry ∷ []) (consider arithmetic config signature now query entry b)
  unfolding consider
  consider-Best entry seen b best =
      let skips = is_skipped_iff arithmetic config signature now entry in
      elim (Bool-cases (is_skipped arithmetic config signature now entry)) [
        | inl skipped ↦
            rw skipped (skip-Best entry seen b (λ c. cc (skips.1 (c.compatible, c.fresh))) best)
        | inr kept ↦
            elim (Bool-cases (
              float_le (arithmetic.narrow config.threshold)
                (similarity arithmetic config signature now query entry))) [
                  | inl similar ↦
                      let (compatible, fresh) = skips.0 kept in
                      rw (kept, similar)
                        (better-Best entry seen b
                          (record { compatible = compatible; fresh = fresh; similar = similar })
                          best)
                  | inr far ↦ rw (kept, far) (skip-Best entry seen b (λ c. cc (c.similar)) best)
                ]
      ]

  best_of-Best :
      (rest seen : List SemanticEntry) (b : Option (SemanticEntry × Float))
      → Best seen b
      → Best (seen ++ rest) (best_of arithmetic config signature now query rest b)
  unfolding best_of
  best_of-Best [] seen b best = rw append-nil best
  best_of-Best (entry ∷ rest) seen b best = rw (append_assoc seen (entry ∷ []) rest) at (
      best_of-Best rest (seen ++ entry ∷ [])
        (consider arithmetic config signature now query entry b) (consider-Best entry seen b best))

All-Mem {ℓ κ} : {A : Type ℓ} (P : A → Type κ) (xs : List A) {a : A} → All P xs → Memᴰ a xs → P a
All-Mem P [] h m = elim m [ ]
All-Mem P (x ∷ xs) (p, h) (Memᴰ.head e) = subst P (sym e) p
All-Mem P (x ∷ xs) (p, h) (Memᴰ.tail m) = All-Mem P xs h m

module _ (arithmetic : Arithmetic) (c : SemanticCache) (query : List Float)
    (signature : CompatibilitySignature) (now : ℕ) where
  abbrev found_best : Option (SemanticEntry × Float)
  found_best = best_of arithmetic c.config signature now query c.entries none

  found_best-IsBest : IsBest arithmetic c.config signature now query c.entries found_best
  found_best-IsBest = best_of-Best arithmetic c.config signature now query c.entries [] none tt

  lookup_enabled :
      c.config.enabled ≡ true
      → lookup arithmetic c (ok query) signature now ≡ outcome arithmetic found_best
  unfolding lookup
  lookup_enabled on = rw on refl

  hit_enabled :
      (response : Text) (sim : Float)
      → lookup arithmetic c (ok query) signature now ≡ hit response sim
      → c.config.enabled ≡ true
  unfolding lookup
  hit_enabled response sim e = ground arith

  -- A hit is the response of a stored entry that has the signature asked for, has not expired and
  -- reaches the threshold, and no other such entry has a larger similarity than the one returned.
  pub lookup_hit :
      (response : Text) (sim : Float)
      → lookup arithmetic c (ok query) signature now ≡ hit response sim
      → (entry : SemanticEntry) × (entry.response ≡ response)
        × IsBest arithmetic c.config signature now query c.entries (some (entry, sim))
  lookup_hit response sim e =
      let on = hit_enabled response sim e in
      elim (Option-cases found_best) [
        | inl nothing ↦ absurd (cc (lookup_enabled on, nothing))
        | inr ((entry, top), found) ↦
            let same : hit entry.response top ≡ hit response sim =
              rw (lookup_enabled on, found) at e in
            let top_sim : top ≡ sim = cc in
            (entry, cc, rw (← top_sim) (rw found at found_best-IsBest))
      ]

  -- For a prompt with an embedding, an enabled semantic cache misses exactly when no stored entry
  -- has the signature asked for, is not expired and reaches the threshold.
  pub lookup_miss_iff :
      c.config.enabled ≡ true
      → (lookup arithmetic c (ok query) signature now ≡ miss)
        ↔ All (λ e. ¬ IsCandidate arithmetic c.config signature now query e) c.entries
  lookup_miss_iff on = elim (Option-cases found_best) [
    | inl nothing ↦
        (λ _. rw nothing at found_best-IsBest, λ _. rw (lookup_enabled on, nothing) refl)
    | inr ((entry, top), found) ↦
        let (listed, candidate, _, _) = rw found at found_best-IsBest in
        (
          λ e. cc (lookup_enabled on, found),
          λ all. absurd (All-Mem _ c.entries all listed candidate),
        )
  ]
