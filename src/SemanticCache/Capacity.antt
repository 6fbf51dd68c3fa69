-- ===== src/SemanticCache/Capacity.antt =====
-- The capacity of the semantic cache: what an insertion evicts, and when it panics.
use rust_llm_gateway_semanti.Prelude.{
  ℕ, ◌+◌, ◌≤◌, ◌<◌, ◌≡◌, ◌↔◌, refl, Bool, true, false, Option, none, some, List, [], ◌∷◌, ◌++◌,
  Text, length, length-append, arith, leb, if◌then◌else◌, sym, ◌∙◌, not, Bool-cases, drop, inl, inr,
}
use rust_llm_gateway_semanti.Prelude.Floats.{Float}
use rust_llm_gateway_semanti.Prelude.Results.{Result, ok, err}
use rust_llm_gateway_semanti.SemanticCache.{
  CompatibilitySignature, SemanticEntry, SemanticCache, remove_first, push_entry, insert,
}

abbrev pub IsBounded : SemanticCache → Type 0
IsBounded c = length c.entries ≤ c.config.max_entries

-- The entries after an insertion: the oldest one makes room if the cache is full.
abbrev pub after_insert : SemanticCache → SemanticEntry → List SemanticEntry
after_insert c entry =
    (if leb c.config.max_entries (length c.entries) then drop 1 c.entries else c.entries)
    ++ entry ∷ []

module _ (m : ℕ) where
  make_room :
      (l : List SemanticEntry)
      → 0 < m
      → (if leb m (length l) then remove_first l else some l)
        ≡ some (if leb m (length l) then drop 1 l else l)
  make_room [] h = ground arith
  make_room (x ∷ l) h = ground arith

  room_length :
      (l : List SemanticEntry)
      → 0 < m
      → length l ≤ m
      → length (if leb m (length l) then drop 1 l else l) + 1 ≤ m
  room_length [] h k = ground arith
  room_length (x ∷ l) h k = ground arith

  no_room_iff :
      (l : List SemanticEntry)
      → length l ≤ m
      → ((if leb m (length l) then remove_first l else some l) ≡ none) ↔ (m ≡ 0)
  no_room_iff [] k = ground arith
  no_room_iff (x ∷ l) k = ground arith

push_entry-eq-none_iff :
    (c : SemanticCache) (entry : SemanticEntry) (room : Option (List SemanticEntry))
    → (push_entry c entry room ≡ none) ↔ (room ≡ none)
push_entry-eq-none_iff c entry none = (λ _. refl, λ _. refl)
push_entry-eq-none_iff c entry (some l) = (λ e. cc, λ e. cc)

if_not_on {ℓ} : {A : Type ℓ} (b : Bool) (x y : A) → b ≡ true → (if not b then x else y) ≡ y
if_not_on true x y e = refl
if_not_on false x y e = cc

module _ (c : SemanticCache) (prompt : Text) (signature : CompatibilitySignature) (response : Text)
    (now : ℕ) where
  -- In an enabled cache within a positive capacity, an insertion stores the new entry last, evicts
  -- the oldest if the cache was full, and stays within the capacity.
  pub insert_stores :
      (embedding : List Float)
      → c.config.enabled ≡ true
      → 0 < c.config.max_entries
      → IsBounded c
      → let entry : SemanticEntry = record {
        prompt = prompt;
        signature = signature;
        embedding = embedding;
        response = response;
        created_at = now;
      } in
        (insert c (ok embedding) prompt signature response now
          ≡ some (record c { entries = after_insert c entry }))
        × (length (after_insert c entry) ≤ c.config.max_entries)
  unfolding insert
  insert_stores embedding on room bounded =
      let fits = room_length c.config.max_entries c.entries room bounded in
      let kept =
        if leb c.config.max_entries (length c.entries) then drop 1 c.entries else c.entries in
      (
        rw (on, make_room c.config.max_entries c.entries room) refl,
        omega (arith, fits, length-append {0} kept (_ ∷ [])),
      )

  insert_on :
      (embedding : List Float)
      → c.config.enabled ≡ true
      → insert c (ok embedding) prompt signature response now
        ≡ push_entry c
            (record {
              prompt = prompt;
              signature = signature;
              embedding = embedding;
              response = response;
              created_at = now;
            })
            (if leb c.config.max_entries (length c.entries)
              then remove_first c.entries
              else some c.entries)
  unfolding insert
  insert_on embedding on = if_not_on c.config.enabled _ _ on

  -- For a cache within its capacity, an insertion panics exactly when the cache is enabled, the
  -- prompt has an embedding and the capacity is zero.
  pub insert_panics_iff :
      (embedded : Result (List Float) Text)
      → IsBounded c
      → (insert c embedded prompt signature response now ≡ none) ↔ (
          (c.config.enabled ≡ true)
          × ((e : List Float) × (embedded ≡ ok e))
          × (c.config.max_entries ≡ 0))
  unfolding insert
  insert_panics_iff (err e) bounded = (λ h. ground arith, λ h. cc (h.1.1))
  insert_panics_iff (ok query) bounded =
      let pushed = push_entry-eq-none_iff c _ _ in
      let full = no_room_iff c.config.max_entries c.entries bounded in
      elim (Bool-cases c.config.enabled) [
        | inr off ↦ (λ h. ground arith, λ h. ground arith)
        | inl on ↦ (
          λ h. (on, (query, refl), full.0 (pushed.0 (sym (insert_on query on) ∙ h))),
          λ (_, _, zero_room). insert_on query on ∙ pushed.1 (full.1 zero_room),
        )
      ]
