-- ===== src/Bits/Masks.antt =====
-- A mask of low bits and a single-bit test, as arithmetic at every width.
use Prim.Native.Nat.{bit_and-bitwise}
use native.Mathlib.Nat.{le_refl}
use i2c.Prelude.{
  ℕ, zero, suc, ◌+◌, ◌-◌, ◌*◌, ◌/◌, ◌%◌, ◌^◌, ◌≤◌, ◌<◌, min, bit_and, ◌≡◌, ap, ◌∙◌, ◌⊎◌, arith,
}
use i2c.Bits.Digits.{own_fuel}
use i2c.Bits.Powers.{
  two-pow-pos, mod-two-pow-suc, div-two-pow-suc, two-pow-suc, mul-two-pow-suc, half-two-pow-suc,
}

pub zero-and : (b : ℕ) → bit_and 0 b ≡ 0
zero-and b = bit_and-bitwise 0 b

pub and_step : (a b : ℕ) → bit_and a b ≡ bit_and (a / 2) (b / 2) * 2 + min (a % 2) (b % 2)
and_step zero b = omega (arith, zero-and b, zero-and (b / 2))
and_step (suc a) b = omega (
  arith,
  bit_and-bitwise (suc a) b,
  bit_and-bitwise (suc a / 2) (b / 2),
  own_fuel (λ y. 0) min a (suc a / 2) (b / 2) (omega arith),
)

and-zero_upto : (bound a : ℕ) → a ≤ bound → bit_and a 0 ≡ 0
and-zero_upto bound zero h = zero-and 0
and-zero_upto zero (suc a) h = absurd (omega arith)
and-zero_upto (suc bound) (suc a) h =
    let half = and-zero_upto bound (suc a / 2) (omega arith) in
    omega (arith, half, and_step (suc a) 0)

pub and-zero : (a : ℕ) → bit_and a 0 ≡ 0
and-zero a = and-zero_upto a a (le_refl _)

-- The low bit alone.
pub and-one : (a : ℕ) → bit_and a 1 ≡ a % 2
and-one a = omega (arith, and_step a 1, and-zero (a / 2))

-- The mask of the low `k` bits is the remainder by `2 ^ k`.
and-mask : (k a : ℕ) → bit_and a (2 ^ k - 1) ≡ a % 2 ^ k
and-mask zero a = and-zero a ∙ omega arith
and-mask (suc k) a =
    and_step a (2 ^ suc k - 1)
    ∙ ap (λ t. t * 2 + min (a % 2) ((2 ^ suc k - 1) % 2))
        (ap (bit_and (a / 2)) half ∙ and-mask k (a / 2))
    ∙ omega (arith, mod-two-pow-suc a k, two-pow-suc k, two-pow-pos k)
  where
    half : (2 ^ suc k - 1) / 2 ≡ 2 ^ k - 1
    half = omega (arith, two-pow-suc k, two-pow-pos k)

pub and-mask8 : (a : ℕ) → bit_and a 0xFF ≡ a % 256
and-mask8 a = and-mask 8 a

-- The bit of weight `2 ^ k` alone.
pub and-bit : (k a : ℕ) → bit_and a (2 ^ k) ≡ a / 2 ^ k % 2 * 2 ^ k
and-bit zero a = omega (arith, and-one a)
and-bit (suc k) a =
    rw (and_step a (2 ^ suc k), half-two-pow-suc k, and-bit k (a / 2), div-two-pow-suc a k)
      (omega (arith, two-pow-suc k, mul-two-pow-suc (a / 2 / 2 ^ k % 2) k))

-- Of a 16-bit value the test of the top bit is an order.
pub and-top16 : (a : ℕ) → a < 65536 → bit_and a 0x8000 ≡ a / 32768 * 32768
and-top16 a h = omega (arith, and-bit 15 a)

pub parity-cases : (x : ℕ) → (x % 2 ≡ 0) ⊎ (x % 2 ≡ 1)
parity-cases x = grind arith
