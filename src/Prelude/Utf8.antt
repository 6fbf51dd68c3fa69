-- ===== src/Prelude/Utf8.antt =====
-- `String::from_utf8` and `String::from_utf8_lossy` of the standard library, over bytes.
pub mod Lossless
use Prim.Native.Nat.{ℕ, zero, suc}
use mathlib.Core.Bool.{Bool, true, false, ◌&&◌}
use mathlib.Core.List.{[], ◌∷◌, ◌++◌}
use rust_llm_gateway_semanti.Prelude.Tests.{ltb, leb, if◌then◌else◌}
use rust_llm_gateway_semanti.Prelude.Texts.{Text}

-- What is still missing of a character: so many bytes, the next one from `low` to `high`.
pub data Pending : Type 0 where
  between : Pending
  more : ℕ → ℕ → ℕ → Pending
  invalid : Pending

abbrev within : ℕ → ℕ → ℕ → Bool
within low high b = leb low b && leb b high

-- The first byte of a character.
abbrev lead : ℕ → Pending
lead b =
    if ltb b 0x80
    then between
    else if within 0xC2 0xDF b
    then more 0 0x80 0xBF
    else if b_is 0xE0
    then more 1 0xA0 0xBF
    else if b_is 0xED
    then more 1 0x80 0x9F
    else if within 0xE1 0xEF b
    then more 1 0x80 0xBF
    else if b_is 0xF0
    then more 2 0x90 0xBF
    else if b_is 0xF4
    then more 2 0x80 0x8F
    else if within 0xF1 0xF3 b
    then more 2 0x80 0xBF
    else invalid
  where
    b_is : ℕ → Bool
    b_is k = within k k b

-- One more byte of a character of which `n` bytes follow it.
abbrev continue_with : ℕ → Pending
continue_with zero = between
continue_with (suc n) = more n 0x80 0xBF

unfoldable pub advance : Pending → ℕ → Pending
advance between b = lead b
advance (more n low high) b = if within low high b then continue_with n else invalid
advance invalid b = invalid

unfoldable pub utf8_from : Pending → Text → Bool
utf8_from between [] = true
utf8_from (more _ _ _) [] = false
utf8_from invalid [] = false
utf8_from p (b ∷ s) = utf8_from (advance p b) s

unfoldable pub is_utf8 : Text → Bool
unfolding utf8_from advance
is_utf8 s = utf8_from between s

-- `from_utf8_lossy`: a maximal part of a character that is cut short or wrong becomes one U+FFFD.
abbrev replacement : Text
replacement = 0xEF ∷ 0xBF ∷ 0xBD ∷ []

-- What is written for a first byte, what is missing then, and the bytes that are held back.
abbrev lossy_lead : Pending → ℕ → Text × Pending × Text
lossy_lead between b = (b ∷ [], between, [])
lossy_lead (more n low high) b = ([], more n low high, b ∷ [])
lossy_lead invalid b = (replacement, between, [])

abbrev lossy_next : Pending → Text → Text × Pending × Text
lossy_next between held = (held, between, [])
lossy_next p held = ([], p, held)

unfoldable pub lossy_step : Pending → Text → ℕ → Text × Pending × Text
lossy_step between held b = lossy_lead (lead b) b
lossy_step invalid held b = lossy_lead (lead b) b
lossy_step (more n low high) held b =
    let (emitted, p, held') = lossy_lead (lead b) b in
    if within low high b
    then lossy_next (continue_with n) (held ++ b ∷ [])
    else (replacement ++ emitted, p, held')

unfoldable pub lossy_from : Pending → Text → Text → Text
lossy_from between held [] = []
lossy_from (more _ _ _) held [] = replacement
lossy_from invalid held [] = []
lossy_from p held (b ∷ s) =
    let (emitted, p', held') = lossy_step p held b in emitted ++ lossy_from p' held' s

unfoldable pub from_utf8_lossy : Text → Text
unfolding lossy_from lossy_step
from_utf8_lossy s = lossy_from between [] s
