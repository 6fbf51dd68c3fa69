-- ===== src/Prelude/Floats.antt =====
-- The values of `f32` and `f64`: a finite one is an integer multiple of the smallest positive one
-- (2 ^ -149, 2 ^ -1074), so its number is exact; the two zeros are one value. Comparisons are those
-- of IEEE 754. Arithmetic, which rounds, is a parameter where the program uses it.
use Prim.Native.Nat.{ℕ, suc, ◌+◌}
use mathlib.Core.Path.{◌≡◌, refl}
use mathlib.Core.Bool.{Bool, true, false}
use native.Mathlib.Omega.{arith}
use rust_llm_gateway_semanti.Prelude.Tests.{ltb, leb}

-- `negsuc n` is -(n + 1).
pub data ℤ : Type 0 where
  pos negsuc : ℕ → ℤ

abbrev pub pos_part : ℤ → ℕ
pos_part (pos n) = n
pos_part (negsuc n) = 0

abbrev pub neg_part : ℤ → ℕ
neg_part (pos n) = 0
neg_part (negsuc n) = suc n

pub data Float : Type 0 where
  finite : ℤ → Float
  infinity neg_infinity nan : Float

-- `a < b`: false where one is not a number.
abbrev pub float_lt : Float → Float → Bool
float_lt (finite a) (finite b) = ltb (pos_part a + neg_part b) (pos_part b + neg_part a)
float_lt (finite a) infinity = true
float_lt (finite a) neg_infinity = false
float_lt (finite a) nan = false
float_lt neg_infinity (finite b) = true
float_lt neg_infinity infinity = true
float_lt neg_infinity neg_infinity = false
float_lt neg_infinity nan = false
float_lt infinity b = false
float_lt nan b = false

-- `a <= b`: false where one is not a number.
abbrev pub float_le : Float → Float → Bool
float_le (finite a) (finite b) = leb (pos_part a + neg_part b) (pos_part b + neg_part a)
float_le (finite a) infinity = true
float_le (finite a) neg_infinity = false
float_le (finite a) nan = false
float_le neg_infinity nan = false
float_le neg_infinity b = true
float_le infinity (finite b) = false
float_le infinity infinity = true
float_le infinity neg_infinity = false
float_le infinity nan = false
float_le nan b = false

abbrev pub float_zero : Float
float_zero = finite (pos 0)

pub float_lt_irrefl : (a : Float) → float_lt a a ≡ false
float_lt_irrefl (finite a) = ground arith
float_lt_irrefl infinity = refl
float_lt_irrefl neg_infinity = refl
float_lt_irrefl nan = refl

pub float_lt_trans :
    (a b c : Float) → float_lt a b ≡ true → float_lt b c ≡ true → float_lt a c ≡ true
float_lt_trans a b c h k = ground arith
