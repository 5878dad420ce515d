-- ===== src/Bits/Powers.antt =====
-- Quotients and products by powers of two, one digit at a time.
use native.Mathlib.Nat.{pow-suc, div-div-eq-div-mul, mul_comm, div-add-mod'}
use i2c.Prelude.{ℕ, zero, ◌≤◌, suc, ◌*◌, ◌/◌, ◌%◌, ◌^◌, ◌+◌, ◌≡◌, ap, ◌∙◌, arith}

pub two-pow-suc : (k : ℕ) → 2 ^ suc k ≡ 2 * 2 ^ k
two-pow-suc k = pow-suc 2 k ∙ mul_comm (2 ^ k) 2

pub two-pow-pos : (k : ℕ) → 1 ≤ 2 ^ k
two-pow-pos zero = omega arith
two-pow-pos (suc k) = omega (arith, two-pow-suc k, two-pow-pos k)

pub div-two-pow-suc : (a k : ℕ) → a / 2 ^ suc k ≡ a / 2 / 2 ^ k
div-two-pow-suc a k = rw (two-pow-suc k, div-div-eq-div-mul a 2 (2 ^ k))

pub mul-two-pow-suc : (q k : ℕ) → q * 2 ^ suc k ≡ q * 2 ^ k * 2
mul-two-pow-suc q k = omega (arith, ap (λ (t : ℕ). q * t) (two-pow-suc k))

pub half-mul-two : (a : ℕ) → a * 2 / 2 ≡ a
half-mul-two a = omega arith

pub half-mul-two-pow-suc : (q k : ℕ) → q * 2 ^ suc k / 2 ≡ q * 2 ^ k
half-mul-two-pow-suc q k = omega (arith, mul-two-pow-suc q k)

pub half-two-pow-suc : (k : ℕ) → 2 ^ suc k / 2 ≡ 2 ^ k
half-two-pow-suc k = omega (arith, two-pow-suc k)

pub mod-two-pow-suc : (a k : ℕ) → a % 2 ^ suc k ≡ a / 2 % 2 ^ k * 2 + a % 2
mod-two-pow-suc a k = omega (
  arith,
  div-add-mod' a (2 ^ suc k),
  div-add-mod' (a / 2) (2 ^ k),
  ap (λ (t : ℕ). t * 2 ^ suc k) (div-two-pow-suc a k),
  mul-two-pow-suc (a / 2 / 2 ^ k) k,
)

pub half-mod-two-pow-suc : (a k : ℕ) → a % 2 ^ suc k / 2 ≡ a / 2 % 2 ^ k
half-mod-two-pow-suc a k = omega (arith, mod-two-pow-suc a k)
