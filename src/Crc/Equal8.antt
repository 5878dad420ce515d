-- ===== src/Crc/Equal8.antt =====
-- FastCrc8 computes Crc8.
use native.Mathlib.Nat.{zero-mul, mod-eq_of_lt}
use i2c.Prelude.{
  ℕ, zero, suc, ◌*◌, ◌/◌, ◌%◌, ◌^◌, ◌<◌, bit_xor, bit_or, ◌≡◌, refl, sym, ap, ◌∙◌, arith, List, [],
  ◌∷◌, true, ◌&&◌, ltb, ◌==◌, get_or, Bytes, ==_iff, ltb_iff, both, inl, inr, Bool, u8,
}
use i2c.Bits.{xor-zero, xor-half, xor_assoc}
use i2c.Bits.Masks.{and-one, parity-cases}
use i2c.Bits.Fields.{xor-lt}
use i2c.Bits.Powers.{two-pow-suc}
use i2c.Bits.Table.{tested, tested_lem}
use i2c.Crc.Reflected.{shift, shifts, shift-feed}
use i2c.Crc.Crc8
use i2c.Crc.FastCrc8

-- The polynomial with its bits reversed, as the rounds add it.
abbrev poly : ℕ
poly = 0x8C

or_top : (x : ℕ) → x < 128 → bit_or x 0x80 ≡ bit_xor x 0x80
or_top x h = (==_iff _ _).0 (tested_lem (λ x. bit_or x 0x80 == bit_xor x 0x80) 128 x checked h)
  where
    checked : tested (λ x. bit_or x 0x80 == bit_xor x 0x80) 128 ≡ true
    checked = unfold tested in refl

odd_round : (c : ℕ) → c < 256 → bit_or (bit_xor c 0x18 / 2) 0x80 ≡ bit_xor (c / 2) 0x8C
odd_round c h = rw (xor-half c 0x18, or_top (bit_xor (c / 2) 12) small) (xor_assoc (c / 2) 12 0x80)
  where
    small : bit_xor (c / 2) 12 < 2 ^ 7
    small = xor-lt 7 (c / 2) 12 (omega arith) (omega arith)

round_lem : (c v : ℕ) → c < 256 → Crc8.round c v ≡ bit_xor (c / 2) (bit_xor c v % 2 * poly)
unfolding Crc8.round
round_lem c v h = elim (parity-cases (bit_xor c v)) [
  | inl even ↦ rw (and-one (bit_xor c v), even, zero-mul poly, xor-zero (c / 2)) (omega arith)
  | inr odd ↦
      rw (and-one (bit_xor c v), odd, odd_round c h)
        (mod-eq_of_lt (xor-lt 8 (c / 2) 0x8C (omega arith) (omega arith)))
]

round-lt : (c v : ℕ) → c < 256 → Crc8.round c v < 256
unfolding Crc8.round
round-lt c v h = ground arith

rounds_lem :
    (n c v : ℕ) → c < 256 → v < 256 → v < 2 ^ n → Crc8.rounds n c v ≡ shifts poly n (bit_xor c v)
unfolding Crc8.rounds shifts
rounds_lem zero c v h p q = rw (none_left) (sym (xor-zero c))
  where
    none_left : v ≡ 0
    none_left = omega arith
rounds_lem (suc n) c v h p q =
    rounds_lem n (Crc8.round c v) (u8 (v / 2)) (round-lt c v h) (omega arith)
      (omega (arith, two-pow-suc n))
    ∙ ap (shifts poly n) fed
  where
    fed : bit_xor (Crc8.round c v) (u8 (v / 2)) ≡ shift poly (bit_xor c v)
    fed = rw (round_lem c v h, mod-eq_of_lt (half v p)) (shift-feed poly c v)
      where
        half : (v : ℕ) → v < 256 → v / 2 < 256
        half v p = omega arith

-- Every entry of the table is what eight rounds make of its index.
table_lem :
    (d : ℕ)
    → d < 256
    → (shifts poly 8 d ≡ get_or FastCrc8.table d 0) × (get_or FastCrc8.table d 0 < 256)
table_lem d h = ((==_iff _ _).0 (both _ _ found).0, (ltb_iff _ _).0 (both _ _ found).1)
  where
    matches : ℕ → Bool
    matches d =
        (shifts poly 8 d == get_or FastCrc8.table d 0) && ltb (get_or FastCrc8.table d 0) 256

    checked : tested matches 256 ≡ true
    checked = unfold tested shifts shift FastCrc8.table in refl

    found : matches d ≡ true
    found = tested_lem matches 256 d checked h

-- On bytes, from a starting value of 8 bits, the table loop returns what the bit loop returns.
pub FastCrc8-eq-Crc8 :
    (checksum : ℕ) (buffer : List ℕ)
    → checksum < 256
    → Bytes buffer
    → FastCrc8.update checksum buffer ≡ Crc8.update checksum buffer
unfolding FastCrc8.update Crc8.update
FastCrc8-eq-Crc8 checksum [] h b = refl
FastCrc8-eq-Crc8 checksum (byte ∷ buffer) h b =
    rw (rounds_lem 8 checksum byte h b.0 b.0, (table_lem index small).0)
      (FastCrc8-eq-Crc8 (get_or FastCrc8.table index 0) buffer (table_lem index small).1 b.1)
  where
    index : ℕ
    index = bit_xor checksum byte

    small : index < 256
    small = xor-lt 8 checksum byte h b.0
