-- ===== src/Prelude/Utf8/Lossless.antt =====
-- `from_utf8_lossy` on valid UTF-8.
use Prim.Native.Nat.{ℕ, zero, suc}
use mathlib.Core.Path.{◌≡◌, refl, ap, sym, ◌∙◌}
use mathlib.Core.Bool.{true}
use mathlib.Core.Logic.{inl, inr}
use mathlib.Core.List.{[], ◌∷◌, ◌++◌, append_assoc}
use rust_llm_gateway_semanti.Prelude.Tests.{Bool-cases}
use rust_llm_gateway_semanti.Prelude.Texts.{Text}
use rust_llm_gateway_semanti.Prelude.Utf8.{
  Pending, between, more, invalid, within, lead, continue_with, advance, utf8_from, is_utf8,
  lossy_lead, lossy_next, lossy_step, lossy_from, from_utf8_lossy,
}

-- Bytes are held back only within a character.
abbrev IsHeld : Pending → Text → Type 0
IsHeld between held = held ≡ []
IsHeld (more n low high) held = Unit
IsHeld invalid held = ⊥

not_invalid : (s : Text) → utf8_from invalid s ≡ true → ⊥
unfolding utf8_from advance
not_invalid [] e = cc e
not_invalid (b ∷ s) e = not_invalid s e

-- What is to be shown of the bytes that are left.
abbrev IsLossless : Text → Type 0
IsLossless s =
    (p : Pending) (held : Text)
    → utf8_from p s ≡ true
    → IsHeld p held
    → lossy_from p held s ≡ held ++ s

lead_lem :
    (p : Pending) (b : ℕ) (s : Text)
    → IsLossless s
    → utf8_from p s ≡ true
    → let (emitted, p', held') = lossy_lead p b in emitted ++ lossy_from p' held' s ≡ b ∷ s
lead_lem between b s ih valid = ap (λ t. b ∷ t) (ih between [] valid refl)
lead_lem (more n low high) b s ih valid = ih (more n low high) (b ∷ []) valid tt
lead_lem invalid b s ih valid = absurd (not_invalid s valid)

next_lem :
    (n : ℕ) (held : Text) (b : ℕ) (s : Text)
    → IsLossless s
    → utf8_from (continue_with n) s ≡ true
    → let (emitted, p', held') = lossy_next (continue_with n) (held ++ b ∷ []) in
      emitted ++ lossy_from p' held' s ≡ held ++ b ∷ s
next_lem zero held b s ih valid =
    ap (λ t. (held ++ b ∷ []) ++ t) (ih between [] valid refl) ∙ append_assoc held (b ∷ []) s
next_lem (suc n) held b s ih valid =
    ih (more n 0x80 0xBF) (held ++ b ∷ []) valid tt ∙ append_assoc held (b ∷ []) s

lossy_from_lem : (s : Text) → IsLossless s
unfolding lossy_from lossy_step utf8_from advance
lossy_from_lem [] between held valid empty = ap (λ t. t ++ []) (sym empty)
lossy_from_lem [] (more n low high) held valid h = cc valid
lossy_from_lem [] invalid held valid h = absurd h
lossy_from_lem (b ∷ s) between held valid empty =
    lead_lem (lead b) b s (lossy_from_lem s) valid ∙ ap (λ t. t ++ b ∷ s) (sym empty)
lossy_from_lem (b ∷ s) (more n low high) held valid h = elim (Bool-cases (within low high b)) [
  | inl inside ↦ rw inside (next_lem n held b s (lossy_from_lem s) (rw inside at valid))
  | inr outside ↦ absurd (not_invalid s (rw outside at valid))
]
lossy_from_lem (b ∷ s) invalid held valid h = absurd h

-- Valid UTF-8 is read without loss.
pub lossless : (s : Text) → is_utf8 s ≡ true → from_utf8_lossy s ≡ s
unfolding is_utf8 from_utf8_lossy
lossless s valid = lossy_from_lem s between [] valid refl
