-- ===== src/Prelude/Decimal.antt =====
-- `to_string` of a `u64`: its decimal digits, of which there are at most twenty.
use Prim.Native.Nat.{ℕ, zero, suc, ◌+◌, ◌-◌, ◌*◌, ◌/◌, ◌%◌, ◌^◌, ◌≤◌, ◌<◌}
use mathlib.Core.Path.{◌≡◌, refl, ap, ◌∙◌}
use mathlib.Core.List.{[], ◌∷◌}
use native.Mathlib.Omega.{arith}
use native.Mathlib.Nat.{pow-suc}
use native.Mathlib.Decide.{dec_lt}
use rust_llm_gateway_semanti.Prelude.Tests.{ltb, if◌then◌else◌, lt→ltb}
use rust_llm_gateway_semanti.Prelude.Texts.{Text}
use rust_llm_gateway_semanti.Prelude.Lists.{All}

unfoldable pub digits_from : ℕ → ℕ → Text → Text
digits_from zero n acc = acc
digits_from (suc rounds) n acc =
    let rest = digits_from rounds (n / 10) ((48 + n % 10) ∷ acc) in
    if ltb n 10 then (48 + n) ∷ acc else rest

unfoldable pub to_decimal : ℕ → Text
to_decimal n = digits_from 20 n []

-- The number that a row of digits stands for, after `v`.
pub value_from : ℕ → Text → ℕ
value_from v [] = v
value_from v (c ∷ s) = value_from (v * 10 + (c - 48)) s

-- The last round: one digit is left.
one_digit : (n : ℕ) (acc : Text) → value_from 0 ((48 + n) ∷ acc) ≡ value_from n acc
unfolding value_from
one_digit n acc = ap (λ v. value_from v acc) (omega arith)

digits_small : (r n : ℕ) (acc : Text) → n < 10 → digits_from (suc r) n acc ≡ (48 + n) ∷ acc
unfolding digits_from
digits_small r n acc h = rw (lt→ltb n 10 h) refl

digits_large :
    (r n : ℕ) (acc : Text)
    → 10 ≤ n
    → digits_from (suc r) n acc ≡ digits_from r (n / 10) ((48 + n % 10) ∷ acc)
unfolding digits_from
digits_large r n acc h = ground arith

more_digits : (n : ℕ) (acc : Text) → value_from (n / 10) ((48 + n % 10) ∷ acc) ≡ value_from n acc
unfolding value_from
more_digits n acc = ap (λ v. value_from v acc) (omega arith)

value-digits_from :
    (rounds n : ℕ) (acc : Text)
    → n < 10 ^ suc rounds
    → value_from 0 (digits_from (suc rounds) n acc) ≡ value_from n acc
value-digits_from zero n acc h = rw (digits_small 0 n acc h) (one_digit n acc)
value-digits_from (suc r) n acc h = elim (dec_lt n 10) [
  | yes small ↦ rw (digits_small (suc r) n acc small) (one_digit n acc)
  | no large ↦
      let shorter : n / 10 < 10 ^ suc r = omega (arith, rw (pow-suc 10 (suc r)) at h) in
      rw (digits_large (suc r) n acc (omega arith))
        (value-digits_from r (n / 10) ((48 + n % 10) ∷ acc) shorter ∙ more_digits n acc)
]

-- Printing loses nothing: the digits stand for the number.
pub value-to_decimal : (n : ℕ) → n < 2 ^ 64 → value_from 0 (to_decimal n) ≡ n
unfolding value_from to_decimal
value-to_decimal n h = value-digits_from 19 n [] (omega arith)

-- Decimal digits.
abbrev pub AreDigits : Text → Type 0
AreDigits = All (λ c. (48 ≤ c) × (c < 58))

digits_from-AreDigits :
    (rounds n : ℕ) (acc : Text) → AreDigits acc → AreDigits (digits_from rounds n acc)
unfolding digits_from
digits_from-AreDigits zero n acc h = h
digits_from-AreDigits (suc rounds) n acc h =
    ground (arith, digits_from-AreDigits rounds (n / 10) ((48 + n % 10) ∷ acc))

pub to_decimal-AreDigits : (n : ℕ) → AreDigits (to_decimal n)
unfolding to_decimal
to_decimal-AreDigits n = digits_from-AreDigits 20 n [] tt
