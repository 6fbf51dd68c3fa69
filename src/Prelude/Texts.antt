-- ===== src/Prelude/Texts.antt =====
-- Texts. A `String`, a `&str` and a byte buffer are the list of their bytes (a Rust string is its
-- UTF-8 encoding), so `len`, `starts_with` and `strip_prefix` are those of the standard library.
use Prim.Native.Nat.{ℕ}
use Prim.Native.Char.{code}
use Prim.Native.String.{String}
use mathlib.Core.Path.{◌≡◌, refl}
use mathlib.Core.Logic.{◌↔◌}
use mathlib.Core.Bool.{Bool, true, false, ◌&&◌}
use mathlib.Core.Option.{Option, none, some}
use mathlib.Core.List.{List, [], ◌∷◌, ◌++◌}
use native.Mathlib.Omega.{arith}
use rust_llm_gateway_semanti.Prelude.Tests.{◌==◌, ==_iff, if◌then◌else◌}

abbrev pub Text : Type 0
Text = List ℕ

-- The bytes of an ASCII literal.
abbrev pub text : String → Text
text String.[] = []
text (String.◌∷◌ c s) = code c ∷ text s

abbrev pub is_empty : Text → Bool
is_empty [] = true
is_empty (_ ∷ _) = false

unfoldable pub text_eq : Text → Text → Bool
text_eq [] [] = true
text_eq [] (_ ∷ _) = false
text_eq (_ ∷ _) [] = false
text_eq (a ∷ s) (b ∷ t) = (a == b) && text_eq s t

pub text_eq_iff : (s t : Text) → (text_eq s t ≡ true) ↔ (s ≡ t)
unfolding text_eq
text_eq_iff [] [] = (λ _. refl, λ _. refl)
text_eq_iff [] (_ ∷ _) = (λ e. cc, λ e. cc)
text_eq_iff (_ ∷ _) [] = (λ e. cc, λ e. cc)
text_eq_iff (a ∷ s) (b ∷ t) = ground (arith, text_eq_iff s t, ==_iff a b)

pub text_eq_refl : (s : Text) → text_eq s s ≡ true
text_eq_refl s = (text_eq_iff s s).1 refl

-- `strip_prefix`: what follows the prefix, if it is there.
unfoldable pub strip_prefix : Text → Text → Option Text
strip_prefix [] s = some s
strip_prefix (_ ∷ _) [] = none
strip_prefix (a ∷ p) (b ∷ s) = if a == b then strip_prefix p s else none

abbrev is_some {ℓ} : {A : Type ℓ} → Option A → Bool
is_some none = false
is_some (some _) = true

unfoldable pub starts_with : Text → Text → Bool
unfolding strip_prefix
starts_with p s = is_some (strip_prefix p s)

pub strip_prefix-eq-some : (p s t : Text) → strip_prefix p s ≡ some t → s ≡ p ++ t
unfolding strip_prefix
strip_prefix-eq-some [] s t e = cc
strip_prefix-eq-some (_ ∷ _) [] t e = cc
strip_prefix-eq-some (a ∷ p) (b ∷ s) t e = ground (arith, strip_prefix-eq-some p s t, ==_iff a b)

pub strip_prefix-append : (p t : Text) → strip_prefix p (p ++ t) ≡ some t
unfolding strip_prefix
strip_prefix-append [] t = refl
strip_prefix-append (a ∷ p) t = ground (arith, strip_prefix-append p t, ==_iff a a)
