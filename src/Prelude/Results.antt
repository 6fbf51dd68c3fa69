-- ===== src/Prelude/Results.antt =====
-- The standard library's `Result`, with the `?` operator as `do`.
use mathlib.Core.Path.{◌≡◌, refl}
use mathlib.Core.Logic.{◌⊎◌, inl, inr}

pub data Result {ℓ} (A E : Type ℓ) : Type ℓ where
  ok : A → Result A E
  err : E → Result A E

infixl 5 ◌>>=◌ ◌>>◌
abbrev pub ◌>>=◌ {ℓ} : {A B E : Type ℓ} → Result A E → (A → Result B E) → Result B E
ok a >>= f = f a
err e >>= f = err e

abbrev pub ◌>>◌ {ℓ} : {A B E : Type ℓ} → Result A E → Result B E → Result B E
m >> k = m >>= λ _. k

pub Result-cases {ℓ} :
    {A E : Type ℓ} (r : Result A E) → ((a : A) × (r ≡ ok a)) ⊎ ((e : E) × (r ≡ err e))
Result-cases (ok a) = inl (a, refl)
Result-cases (err e) = inr (e, refl)
