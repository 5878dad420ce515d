-- ===== src/Bits/Fields.antt =====
-- Exclusive or acts on the high and the low part of a number separately.
use i2c.Prelude.{ℕ, zero, suc, ◌+◌, ◌*◌, ◌/◌, ◌%◌, ◌^◌, ◌<◌, bit_xor, ◌≡◌, arith, sym, ◌∙◌}
use native.Mathlib.Nat.{pow-suc, div-one, mod-one, mul-one, add-zero}
use i2c.Bits.Powers.{
  two-pow-suc, div-two-pow-suc, mul-two-pow-suc, half-mul-two, half-mul-two-pow-suc,
  mod-two-pow-suc, half-mod-two-pow-suc,
}
use i2c.Bits.{xor_step, xor-half, xor-parity, zero-xor, xor-zero}

pub xor-lt : (k a b : ℕ) → a < 2 ^ k → b < 2 ^ k → bit_xor a b < 2 ^ k
xor-lt zero zero zero p q = omega (arith, zero-xor 0)
xor-lt zero zero (suc b) p q = absurd (omega arith)
xor-lt zero (suc a) b p q = absurd (omega arith)
xor-lt (suc k) a b p q = omega (
  arith,
  pow-suc 2 k,
  xor_step a b,
  xor-lt k (a / 2) (b / 2) (omega (arith, pow-suc 2 k)) (omega (arith, pow-suc 2 k)),
)

pub xor-double : (a b : ℕ) → bit_xor (a * 2) (b * 2) ≡ bit_xor a b * 2
xor-double a b = rw (xor_step (a * 2) (b * 2), half-mul-two a, half-mul-two b) (omega arith)

pub xor-shift : (k a b : ℕ) → bit_xor (a * 2 ^ k) (b * 2 ^ k) ≡ bit_xor a b * 2 ^ k
xor-shift zero a b = rw (mul-one a, mul-one b, mul-one (bit_xor a b))
xor-shift (suc k) a b = rw (
  mul-two-pow-suc a k,
  mul-two-pow-suc b k,
  mul-two-pow-suc (bit_xor a b) k,
  xor-double (a * 2 ^ k) (b * 2 ^ k),
  xor-shift k a b,
)

-- The part from bit `k` on.
pub xor-div : (k a b : ℕ) → bit_xor a b / 2 ^ k ≡ bit_xor (a / 2 ^ k) (b / 2 ^ k)
xor-div zero a b = rw (div-one (bit_xor a b), div-one a, div-one b)
xor-div (suc k) a b =
    rw (div-two-pow-suc (bit_xor a b) k, div-two-pow-suc a k, div-two-pow-suc b k, xor-half a b)
      (xor-div k (a / 2) (b / 2))

-- A number is the exclusive or of its part from bit `k` on and of its low `k` bits.
pub xor-fields : (k q r : ℕ) → r < 2 ^ k → bit_xor (q * 2 ^ k) r ≡ q * 2 ^ k + r
xor-fields zero q zero h = xor-zero (q * 1) ∙ sym (add-zero (q * 1))
xor-fields zero q (suc r) h = absurd (omega arith)
xor-fields (suc k) q r h =
    rw
      (
        xor_step (q * 2 ^ suc k) r,
        half-mul-two-pow-suc q k,
        xor-fields k q (r / 2) (omega (arith, two-pow-suc k)),
      )
      (omega (arith, mul-two-pow-suc q k))

-- The low `k` bits.
pub xor-mod : (k a b : ℕ) → bit_xor a b % 2 ^ k ≡ bit_xor (a % 2 ^ k) (b % 2 ^ k)
xor-mod zero a b = rw (mod-one (bit_xor a b), mod-one a, mod-one b) (sym (zero-xor 0))
xor-mod (suc k) a b =
    rw
      (
        mod-two-pow-suc (bit_xor a b) k,
        xor-half a b,
        xor-mod k (a / 2) (b / 2),
        xor_step (a % 2 ^ suc k) (b % 2 ^ suc k),
        half-mod-two-pow-suc a k,
        half-mod-two-pow-suc b k,
      )
      (omega (arith, xor-parity a b, mod-two-pow-suc a k, mod-two-pow-suc b k))
