-- ===== src/Prelude.antt =====
-- The names that the other modules share: the libraries', passed on, and those of the children.
mod Tests
mod Lists
mod Texts
pub mod Maps
pub mod Results
pub mod Floats
pub mod Decimal
pub mod Utf8
pub use Tests.*
pub use Lists.*
pub use Texts.{
  Text, text, is_empty, text_eq_iff, text_eq_refl, strip_prefix-eq-some, strip_prefix-append,
}
unfoldable pub use Texts.{text_eq, strip_prefix, starts_with}
pub use Prim.Native.Nat.{ℕ, zero, suc, ◌+◌, ◌-◌, ◌*◌, ◌/◌, ◌%◌, ◌^◌, ◌≤◌, ◌<◌, min, max}
pub use mathlib.Core.Path.{◌≡◌, refl, sym, ap, subst, ◌∙◌, ◌≡⟨◌⟩◌, ◌∎}
pub use mathlib.Core.Logic.{◌≢◌, ◌↔◌, ◌⊎◌, inl, inr}
pub use mathlib.Core.Bool.{Bool, true, false, ◌&&◌, ◌||◌, not}
pub use mathlib.Core.Option.{Option, none, some}
pub use mathlib.Core.List.{List, [], ◌∷◌, ◌++◌, map, append_assoc, append-nil}
pub use native.Mathlib.Omega.{arith}
pub use native.Mathlib.Decide.{dec_lt, dec_le, ℕ_discrete}
