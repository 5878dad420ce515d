-- ===== src/Bits/Table.antt =====
-- Facts over a small range, checked value by value.
use i2c.Prelude.{
  ℕ, zero, suc, ◌<◌, ◌≡◌, ◌∙◌, ap, Bool, true, false, if◌then◌else◌, arith, Bool-cases, inl, inr,
  ==_iff, ◌==◌,
}

-- The test holds of every number below the bound.
unfoldable pub tested : (ℕ → Bool) → ℕ → Bool
tested test zero = true
tested test (suc last) = if test last then tested test last else false

pub tested_lem :
    (test : ℕ → Bool) (bound x : ℕ) → tested test bound ≡ true → x < bound → test x ≡ true
unfolding tested
tested_lem test zero x every h = absurd (omega arith)
tested_lem test (suc last) x every h = elim (Bool-cases (x == last)) [
  | inl same ↦ ap test ((==_iff x last).0 same) ∙ here
  | inr other ↦ tested_lem test last x below (ground (arith, other))
]
  where
    here : test last ≡ true
    here = ground arith

    below : tested test last ≡ true
    below = ground arith
