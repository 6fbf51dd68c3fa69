-- ===== src/Config/Sorting.antt =====
-- `providers_sorted` is the stable sort by priority: what it returns is determined by its laws.
use mathlib.Core.List.{Perm}
use mathlib.Core.List.Perm
use rust_llm_gateway_semanti.Prelude.{
  ℕ, ◌≤◌, ◌≡◌, refl, List, [], ◌∷◌, All, arith, leb, ◌==◌, if◌then◌else◌, dec_le, Bool-cases, inl,
  inr,
}
use rust_llm_gateway_semanti.Config.{
  ProviderConfig, AppConfig, insert_by_priority, sort_by_priority, providers_sorted,
}

-- Every provider comes before those of its priority or a larger one.
abbrev pub IsSorted : List ProviderConfig → Type 0
IsSorted [] = Unit
IsSorted (p ∷ ps) = All (λ q. p.priority ≤ q.priority) ps × IsSorted ps

abbrev pub of_priority : ℕ → List ProviderConfig → List ProviderConfig
of_priority k [] = []
of_priority k (p ∷ ps) = if p.priority == k then p ∷ of_priority k ps else of_priority k ps

All-weaken :
    (j k : ℕ) (ps : List ProviderConfig)
    → j ≤ k
    → All (λ q. k ≤ q.priority) ps
    → All (λ q. j ≤ q.priority) ps
All-weaken j k [] h _ = tt
All-weaken j k (p ∷ ps) h (a, more) = (omega arith, All-weaken j k ps h more)

All-insert :
    (k : ℕ) (p : ProviderConfig) (ps : List ProviderConfig)
    → k ≤ p.priority
    → All (λ q. k ≤ q.priority) ps
    → All (λ q. k ≤ q.priority) (insert_by_priority p ps)
unfolding insert_by_priority
All-insert k p [] h _ = (h, tt)
All-insert k p (q ∷ qs) h (a, more) = ground (arith, All-insert k p qs h more)

insert-IsSorted :
    (p : ProviderConfig) (ps : List ProviderConfig)
    → IsSorted ps
    → IsSorted (insert_by_priority p ps)
unfolding insert_by_priority
insert-IsSorted p [] _ = (tt, tt)
insert-IsSorted p (q ∷ qs) (first, sorted) = elim (dec_le p.priority q.priority) [
  | yes h ↦ ground (arith, All-weaken p.priority q.priority qs h first)
  | no h ↦
      ground (arith, All-insert q.priority p qs (omega arith) first, insert-IsSorted p qs sorted)
]

pub sort-IsSorted : (ps : List ProviderConfig) → IsSorted (sort_by_priority ps)
unfolding sort_by_priority
sort-IsSorted [] = tt
sort-IsSorted (p ∷ ps) = insert-IsSorted p (sort_by_priority ps) (sort-IsSorted ps)

of_priority-insert :
    (k : ℕ) (p : ProviderConfig) (ps : List ProviderConfig)
    → of_priority k (insert_by_priority p ps) ≡ of_priority k (p ∷ ps)
unfolding insert_by_priority
of_priority-insert k p [] = refl
of_priority-insert k p (q ∷ qs) = ground (arith, of_priority-insert k p qs)

of_priority-sort :
    (k : ℕ) (ps : List ProviderConfig) → of_priority k (sort_by_priority ps) ≡ of_priority k ps
unfolding sort_by_priority
of_priority-sort k [] = refl
of_priority-sort k (p ∷ ps) =
    ground (arith, of_priority-insert k p (sort_by_priority ps), of_priority-sort k ps)

insert-perm :
    (p : ProviderConfig) (ps : List ProviderConfig) → Perm (insert_by_priority p ps) (p ∷ ps)
unfolding insert_by_priority
insert-perm p [] = Perm.refl (p ∷ [])
insert-perm p (q ∷ qs) = elim (Bool-cases (leb p.priority q.priority)) [
  | inl h ↦ rw h (Perm.refl (p ∷ q ∷ qs))
  | inr h ↦ rw h (Perm.trans (Perm.cons q (insert-perm p qs)) (Perm.swap p q qs))
]

sort-perm : (ps : List ProviderConfig) → Perm (sort_by_priority ps) ps
unfolding sort_by_priority
sort-perm [] = Perm.refl []
sort-perm (p ∷ ps) = Perm.trans (insert-perm p (sort_by_priority ps)) (Perm.cons p (sort-perm ps))

-- The sorted providers are a permutation of the configured ones in ascending priority, and those
-- of one priority keep their configured order.
pub providers_sorted_lem :
    (c : AppConfig)
    → IsSorted (providers_sorted c)
      × Perm (providers_sorted c) c.providers
      × ((k : ℕ) → of_priority k (providers_sorted c) ≡ of_priority k c.providers)
unfolding providers_sorted
providers_sorted_lem c =
    (sort-IsSorted c.providers, sort-perm c.providers, λ k. of_priority-sort k c.providers)
