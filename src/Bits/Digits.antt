-- ===== src/Bits/Digits.antt =====
-- The digit recursion behind the native bit operations takes fuel; with the first number as fuel it
-- has enough, and more changes nothing.
use Prim.Native.Nat.{digits}
use i2c.Prelude.{ℕ, zero, suc, ◌+◌, ◌-◌, ◌*◌, ◌/◌, ◌%◌, ◌≤◌, ◌≡◌, refl, sym, ap, ◌∙◌, arith}

module _ (last : ℕ → ℕ) (combine : ℕ → ℕ → ℕ) where
  no_digits : (fuel b : ℕ) → digits last combine fuel 0 b ≡ last b
  no_digits zero b = refl
  no_digits (suc fuel) b = refl

  spare :
      (fuel more a b : ℕ)
      → a ≤ fuel
      → digits last combine (fuel + more) a b ≡ digits last combine fuel a b
  spare fuel more zero b h = no_digits (fuel + more) b ∙ sym (no_digits fuel b)
  spare zero more (suc a) b h = absurd (omega arith)
  spare (suc fuel) more (suc a) b h =
      ap (λ m. digits last combine m (suc a) b) {y = suc (fuel + more)} (omega arith)
      ∙ ap (λ high. high * 2 + combine (suc a % 2) (b % 2))
          (spare fuel more (suc a / 2) (b / 2) (omega arith))

  -- The fuel that a call of the native operation starts with, from any that is enough.
  pub own_fuel :
      (fuel a b : ℕ) → a ≤ fuel → digits last combine fuel a b ≡ digits last combine a a b
  own_fuel fuel a b h =
      ap (λ m. digits last combine m a b) {y = a + (fuel - a)} (omega arith)
      ∙ spare a (fuel - a) a b (omega arith)
