-- ===== src/Crc/Reflected.antt =====
-- A reflected CRC as a linear map on the exclusive or of checksum and data.
use native.Mathlib.Nat.{zero-mul}
use i2c.Prelude.{
  ℕ, zero, suc, ◌+◌, ◌*◌, ◌/◌, ◌%◌, ◌^◌, ◌<◌, bit_xor, ◌≡◌, refl, sym, ap, ◌∙◌, arith,
}
use i2c.Bits.{zero-xor, xor-zero, xor_self, xor-half, xor-parity, xor_swap, xor_assoc, xor_comm}
use i2c.Bits.Fields.{xor-fields}
use i2c.Bits.Powers.{mul-two-pow-suc, half-mul-two-pow-suc}

-- One round: the number is halved, and the polynomial is added if a one was shifted out.
unfoldable pub shift : ℕ → ℕ → ℕ
shift poly d = bit_xor (d / 2) (d % 2 * poly)

unfoldable pub shifts : ℕ → ℕ → ℕ → ℕ
shifts poly zero d = d
shifts poly (suc n) d = shifts poly n (shift poly d)

-- Two bits choose the polynomial once, twice or not at all.
pub xor-choice : (poly x y : ℕ) → x < 2 → y < 2 → (x + y) % 2 * poly ≡ bit_xor (x * poly) (y * poly)
xor-choice poly zero y p q = rw (zero-mul poly, zero-xor (y * poly)) (bit y q)
  where
    bit : (y : ℕ) → y < 2 → (0 + y) % 2 * poly ≡ y * poly
    bit y q = ap (λ (t : ℕ). t * poly) (omega arith)
xor-choice poly (suc zero) zero p q = rw (zero-mul poly, xor-zero (1 * poly)) refl
xor-choice poly (suc zero) (suc zero) p q = rw (xor_self (1 * poly)) (zero-mul poly)
xor-choice poly (suc zero) (suc (suc y)) p q = absurd (omega arith)
xor-choice poly (suc (suc x)) y p q = absurd (omega arith)

pub shift-xor : (poly a b : ℕ) → shift poly (bit_xor a b) ≡ bit_xor (shift poly a) (shift poly b)
unfolding shift
shift-xor poly a b =
    rw (xor-half a b, xor-parity a b, xor-choice poly (a % 2) (b % 2) (omega arith) (omega arith))
      (xor_swap (a / 2) (b / 2) (a % 2 * poly) (b % 2 * poly))

pub shifts-xor :
    (poly n a b : ℕ) → shifts poly n (bit_xor a b) ≡ bit_xor (shifts poly n a) (shifts poly n b)
unfolding shifts
shifts-xor poly zero a b = refl
shifts-xor poly (suc n) a b =
    rw (shift-xor poly a b) (shifts-xor poly n (shift poly a) (shift poly b))

-- Zeros that are shifted out leave the rest.
pub shifts-high : (poly n q : ℕ) → shifts poly n (q * 2 ^ n) ≡ q
unfolding shifts shift
shifts-high poly zero q = omega arith
shifts-high poly (suc n) q =
    rw (half-mul-two-pow-suc q n, even, zero-mul poly, xor-zero (q * 2 ^ n)) (shifts-high poly n q)
  where
    even : q * 2 ^ suc n % 2 ≡ 0
    even = omega (arith, mul-two-pow-suc q n)

-- Eight rounds: the high bytes move down, and the low byte chooses what is added.
pub shifts-byte : (poly d : ℕ) → shifts poly 8 d ≡ bit_xor (d / 256) (shifts poly 8 (d % 256))
shifts-byte poly d = ap (shifts poly 8) split ∙ shifts-xor poly 8 (d / 256 * 256) (d % 256) ∙ high
  where
    split : d ≡ bit_xor (d / 256 * 256) (d % 256)
    split = sym (xor-fields 8 (d / 256) (d % 256) (omega arith) ∙ omega arith)

    high :
        bit_xor (shifts poly 8 (d / 256 * 256)) (shifts poly 8 (d % 256))
        ≡ bit_xor (d / 256) (shifts poly 8 (d % 256))
    high = ap (λ t. bit_xor t (shifts poly 8 (d % 256))) (shifts-high poly 8 (d / 256))

-- A round on the checksum, with the data beside it, is a round on their exclusive or.
pub shift-feed :
    (poly c v : ℕ)
    → bit_xor (bit_xor (c / 2) (bit_xor c v % 2 * poly)) (v / 2) ≡ shift poly (bit_xor c v)
unfolding shift
shift-feed poly c v = rw (
  xor-half c v,
  xor_assoc (c / 2) (bit_xor c v % 2 * poly) (v / 2),
  xor_assoc (c / 2) (v / 2) (bit_xor c v % 2 * poly),
  xor_comm (v / 2) (bit_xor c v % 2 * poly),
)
