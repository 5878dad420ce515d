-- ===== src/Crc/Equal16.antt =====
-- FastCrc16 computes Crc16.
use native.Mathlib.Nat.{zero-mul, mod-eq_of_lt, div-eq_of_lt, one-le-pow}
use i2c.Prelude.{
  ℕ, zero, suc, ◌+◌, ◌*◌, ◌/◌, ◌%◌, ◌^◌, ◌<◌, bit_xor, bit_and, ◌≡◌, refl, sym, ap, ap₂, ◌∙◌, ◌⊎◌,
  arith, List, [], ◌∷◌, Bool, true, ◌&&◌, ltb, ◌==◌, get_or, Bytes, ==_iff, ltb_iff, both, inl, inr,
  u16,
}
use i2c.Bits.{xor-zero, zero-xor, xor_assoc, xor_swap, xor_comm}
use i2c.Bits.Masks.{and-top16, and-mask8}
use i2c.Bits.Powers.{mul-two-pow-suc}
use i2c.Bits.Fields.{xor-lt, xor-div, xor-mod, xor-double, xor-shift, xor-fields}
use i2c.Bits.Table.{tested, tested_lem}
use i2c.Crc.Reflected.{xor-choice}
use i2c.Crc.Crc16
use i2c.Crc.FastCrc16

abbrev poly : ℕ
poly = 0x1021

-- A round as one expression: double, and add the polynomial if a one was shifted out.
advance : ℕ → ℕ
advance c = bit_xor (c * 2 % 2 ^ 16) (c / 2 ^ 15 * poly)

top-cases : (c : ℕ) → c < 2 ^ 16 → (c / 2 ^ 15 ≡ 0) ⊎ (c / 2 ^ 15 ≡ 1)
top-cases c h = grind arith

round_lem : (c : ℕ) → c < 2 ^ 16 → Crc16.round c ≡ advance c
unfolding Crc16.round advance
round_lem c h = elim (top-cases c h) [
  | inl low ↦ rw (and-top16 c h, low, zero-mul poly, xor-zero (c * 2 % 2 ^ 16))
  | inr high ↦ rw (and-top16 c h, high) (xor-mod 16 (c * 2) poly)
]

bit-xor_bits : (x y : ℕ) → x < 2 → y < 2 → bit_xor x y ≡ (x + y) % 2
bit-xor_bits zero y p q = rw (zero-xor y) (omega arith)
bit-xor_bits (suc zero) zero p q = refl
bit-xor_bits (suc zero) (suc zero) p q = refl
bit-xor_bits (suc zero) (suc (suc y)) p q = absurd (omega arith)
bit-xor_bits (suc (suc x)) y p q = absurd (omega arith)

advance-xor :
    (a b : ℕ) → a < 2 ^ 16 → b < 2 ^ 16 → advance (bit_xor a b) ≡ bit_xor (advance a) (advance b)
unfolding advance
advance-xor a b p q =
    rw
      (
        ← xor-double a b,
        xor-mod 16 (a * 2) (b * 2),
        xor-div 15 a b,
        bit-xor_bits (a / 2 ^ 15) (b / 2 ^ 15) (omega arith) (omega arith),
        xor-choice poly (a / 2 ^ 15) (b / 2 ^ 15) (omega arith) (omega arith),
      )
      (xor_swap (a * 2 % 2 ^ 16) (b * 2 % 2 ^ 16) (a / 2 ^ 15 * poly) (b / 2 ^ 15 * poly))

round-lt : (c : ℕ) → Crc16.round c < 2 ^ 16
unfolding Crc16.round
round-lt c = omega arith

rounds-xor :
    (n a b : ℕ)
    → a < 2 ^ 16
    → b < 2 ^ 16
    → Crc16.rounds n (bit_xor a b) ≡ bit_xor (Crc16.rounds n a) (Crc16.rounds n b)
unfolding Crc16.rounds
rounds-xor zero a b p q = refl
rounds-xor (suc n) a b p q =
    ap (Crc16.rounds n) step
    ∙ rounds-xor n (Crc16.round a) (Crc16.round b) (round-lt a) (round-lt b)
  where
    step : Crc16.round (bit_xor a b) ≡ bit_xor (Crc16.round a) (Crc16.round b)
    step =
        rw (round_lem a p, round_lem b q, round_lem (bit_xor a b) (xor-lt 16 a b p q))
          (advance-xor a b p q)

-- Without a one in the bits that go out, the rounds only shift.
rounds_low : (n c : ℕ) → c * 2 ^ n < 2 ^ 16 → Crc16.rounds n c ≡ c * 2 ^ n
unfolding Crc16.rounds
rounds_low zero c h = omega arith
rounds_low (suc n) c h =
    ap (Crc16.rounds n) doubled
    ∙ rounds_low n (c * 2) (omega (arith, mul-two-pow-suc c n))
    ∙ omega (arith, mul-two-pow-suc c n)
  where
    small : c < 2 ^ 15
    small = grind (arith, mul-two-pow-suc c n, one-le-pow n 2)

    doubled : Crc16.round c ≡ c * 2
    doubled =
        round_lem c (omega (arith, small))
        ∙ unfold advance in
          rw (div-eq_of_lt small, zero-mul poly, xor-zero (c * 2 % 2 ^ 16)) (omega (arith, small))

table_lem :
    (d : ℕ)
    → d < 256
    → (Crc16.rounds 8 (d * 2 ^ 8) ≡ get_or FastCrc16.table d 0)
      × (get_or FastCrc16.table d 0 < 2 ^ 16)
table_lem d h = ((==_iff _ _).0 (both _ _ found).0, (ltb_iff _ _).0 (both _ _ found).1)
  where
    matches : ℕ → Bool
    matches d =
        (Crc16.rounds 8 (d * 2 ^ 8) == get_or FastCrc16.table d 0)
        && ltb (get_or FastCrc16.table d 0) (2 ^ 16)

    checked : tested matches 256 ≡ true
    checked = unfold tested Crc16.rounds Crc16.round FastCrc16.table in refl

    found : matches d ≡ true
    found = tested_lem matches 256 d checked h

-- The table's step for one byte.
abbrev stepped : ℕ → ℕ → ℕ
stepped c v =
    u16 (bit_xor (c * 2 ^ 8) (get_or FastCrc16.table (bit_and (bit_xor (c / 2 ^ 8) v) 0xFF) 0))

byte_lem :
    (c v : ℕ) → c < 2 ^ 16 → v < 256 → Crc16.rounds 8 (u16 (bit_xor c (v * 2 ^ 8))) ≡ stepped c v
byte_lem c v h p =
    ap (Crc16.rounds 8) split
    ∙ rounds-xor 8 (d * 2 ^ 8) lo (omega (arith, small)) (omega arith)
    ∙ ap₂ bit_xor (table_lem d small).0 (rounds_low 8 lo (omega arith))
    ∙ xor_comm entry (lo * 2 ^ 8)
    ∙ sym step
  where
    lo : ℕ
    lo = c % 2 ^ 8

    d : ℕ
    d = bit_xor (c / 2 ^ 8) v

    small : d < 256
    small = xor-lt 8 (c / 2 ^ 8) v (omega arith) p

    entry : ℕ
    entry = get_or FastCrc16.table d 0

    joined : bit_xor (c / 2 ^ 8 * 2 ^ 8) lo ≡ c
    joined = xor-fields 8 (c / 2 ^ 8) lo (omega arith) ∙ omega arith

    split : u16 (bit_xor c (v * 2 ^ 8)) ≡ bit_xor (d * 2 ^ 8) lo
    split =
        mod-eq_of_lt (xor-lt 16 c (v * 2 ^ 8) h (omega arith))
        ∙ ap (λ t. bit_xor t (v * 2 ^ 8)) (sym joined)
        ∙ xor_assoc (c / 2 ^ 8 * 2 ^ 8) lo (v * 2 ^ 8)
        ∙ ap (bit_xor (c / 2 ^ 8 * 2 ^ 8)) (xor_comm lo (v * 2 ^ 8))
        ∙ sym (xor_assoc (c / 2 ^ 8 * 2 ^ 8) (v * 2 ^ 8) lo)
        ∙ ap (λ t. bit_xor t lo) (xor-shift 8 (c / 2 ^ 8) v)

    index : bit_and d 0xFF ≡ d
    index = and-mask8 d ∙ mod-eq_of_lt small

    step : stepped c v ≡ bit_xor (lo * 2 ^ 8) entry
    step =
        ap (λ i. u16 (bit_xor (c * 2 ^ 8) (get_or FastCrc16.table i 0))) index
        ∙ xor-mod 16 (c * 2 ^ 8) entry
        ∙ ap₂ bit_xor (omega arith) (mod-eq_of_lt (table_lem d small).1)

-- On bytes, from a starting value of 16 bits, the table loop returns what the bit loop returns.
pub FastCrc16-eq-Crc16 :
    (checksum : ℕ) (buffer : List ℕ)
    → checksum < 2 ^ 16
    → Bytes buffer
    → FastCrc16.update checksum buffer ≡ Crc16.update checksum buffer
unfolding FastCrc16.update Crc16.update
FastCrc16-eq-Crc16 checksum [] h b = refl
FastCrc16-eq-Crc16 checksum (byte ∷ buffer) h b =
    rw (byte_lem checksum byte h b.0)
      (FastCrc16-eq-Crc16 (stepped checksum byte) buffer (omega arith) b.1)
