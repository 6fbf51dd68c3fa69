-- ===== src/Prelude/Maps.antt =====
-- A `HashMap` or `DashMap` with text keys, as an association list: `get`, `insert`, and the
-- `entry(k).or_insert_with(f)` of the source, which is `get` with a default followed by `insert`.
use mathlib.Core.Path.{◌≡◌, refl}
use mathlib.Core.Option.{Option, none, some}
use mathlib.Core.List.{List, [], ◌∷◌}
use native.Mathlib.Omega.{arith}
use rust_llm_gateway_semanti.Prelude.Tests.{if◌then◌else◌}
use rust_llm_gateway_semanti.Prelude.Texts.{Text, text_eq, text_eq_iff}

module _ {ℓ} where
  abbrev pub Map : Type ℓ → Type ℓ
  Map V = List (Text × V)

module _ {ℓ} {V : Type ℓ} where
  unfoldable pub get : Text → Map V → Option V
  get k [] = none
  get k ((j, v) ∷ m) = if text_eq j k then some v else get k m

  unfoldable pub insert : Text → V → Map V → Map V
  insert k v [] = (k, v) ∷ []
  insert k v ((j, w) ∷ m) = if text_eq j k then (j, v) ∷ m else (j, w) ∷ insert k v m

  abbrev pub get_or : V → Option V → V
  get_or d none = d
  get_or d (some v) = v

  pub get-insert :
      (k j : Text) (v : V) (m : Map V)
      → get j (insert k v m) ≡ (if text_eq k j then some v else get j m)
  unfolding get insert
  get-insert k j v [] = refl
  get-insert k j v ((i, w) ∷ m) =
      ground (arith, text_eq_iff k j, text_eq_iff i k, text_eq_iff i j, get-insert k j v m)
