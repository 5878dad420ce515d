-- ===== src/Crc/Equal32.antt =====
-- FastCrc32 computes Crc32.
use native.Mathlib.Nat.{zero-mul, mod-eq_of_lt}
use i2c.Prelude.{
  ℕ, zero, suc, ◌*◌, ◌/◌, ◌%◌, ◌^◌, ◌<◌, bit_xor, ◌≡◌, refl, sym, ap, ◌∙◌, arith, List, [], ◌∷◌,
  true, ◌&&◌, ltb, ◌==◌, get_or, Bytes, ==_iff, ltb_iff, both, ap₂, bit_and, not32, inl, inr, Bool,
  u8,
}
use i2c.Bits.{xor-zero}
use i2c.Bits.Masks.{and-one, and-mask8, parity-cases}
use i2c.Bits.Fields.{xor-lt, xor-div}
use i2c.Bits.Powers.{two-pow-suc}
use i2c.Bits.Table.{tested, tested_lem}
use i2c.Crc.Reflected.{shift, shifts, shift-feed, shifts-byte}
use i2c.Crc.Crc32
use i2c.Crc.FastCrc32

-- The polynomial with its bits reversed, as the rounds add it.
abbrev poly : ℕ
poly = 0xEDB88320

round_lem : (c v : ℕ) → c < 2 ^ 32 → Crc32.round c v ≡ bit_xor (c / 2) (bit_xor c v % 2 * poly)
unfolding Crc32.round
round_lem c v h = elim (parity-cases (bit_xor c v)) [
  | inl even ↦ rw (and-one (bit_xor c v), even, zero-mul poly, xor-zero (c / 2)) (omega arith)
  | inr odd ↦
      rw (and-one (bit_xor c v), odd)
        (mod-eq_of_lt (xor-lt 32 (c / 2) poly (omega arith) (omega arith)))
]

round-lt : (c v : ℕ) → c < 2 ^ 32 → Crc32.round c v < 2 ^ 32
unfolding Crc32.round
round-lt c v h = ground arith

rounds_lem :
    (n c v : ℕ)
    → c < 2 ^ 32
    → v < 256
    → v < 2 ^ n
    → Crc32.rounds n c v ≡ shifts poly n (bit_xor c v)
unfolding Crc32.rounds shifts
rounds_lem zero c v h p q = rw (none_left) (sym (xor-zero c))
  where
    none_left : v ≡ 0
    none_left = omega arith
rounds_lem (suc n) c v h p q =
    rounds_lem n (Crc32.round c v) (u8 (v / 2)) (round-lt c v h) (omega arith)
      (omega (arith, two-pow-suc n))
    ∙ ap (shifts poly n) fed
  where
    fed : bit_xor (Crc32.round c v) (u8 (v / 2)) ≡ shift poly (bit_xor c v)
    fed = rw (round_lem c v h, mod-eq_of_lt (half v p)) (shift-feed poly c v)
      where
        half : (v : ℕ) → v < 256 → v / 2 < 256
        half v p = omega arith

-- Every entry of the table is what eight rounds make of its index.
table_lem :
    (d : ℕ)
    → d < 256
    → (shifts poly 8 d ≡ get_or FastCrc32.table d 0) × (get_or FastCrc32.table d 0 < 2 ^ 32)
table_lem d h = ((==_iff _ _).0 (both _ _ found).0, (ltb_iff _ _).0 (both _ _ found).1)
  where
    matches : ℕ → Bool
    matches d =
        (shifts poly 8 d == get_or FastCrc32.table d 0) && ltb (get_or FastCrc32.table d 0) (2 ^ 32)

    checked : tested matches 256 ≡ true
    checked = unfold tested shifts shift FastCrc32.table in refl

    found : matches d ≡ true
    found = tested_lem matches 256 d checked h

-- One byte by the table.
pub byte_lem :
    (c v : ℕ)
    → c < 2 ^ 32
    → v < 256
    → Crc32.rounds 8 c v
      ≡ bit_xor (c / 2 ^ 8) (get_or FastCrc32.table (bit_and (bit_xor c v) 0xFF) 0)
byte_lem c v h p =
    rounds_lem 8 c v h p p
    ∙ shifts-byte poly (bit_xor c v)
    ∙ ap₂ bit_xor high
        (rw (and-mask8 (bit_xor c v)) ((table_lem (bit_xor c v % 256) (omega arith)).0))
  where
    high : bit_xor c v / 256 ≡ c / 256
    high = xor-div 8 c v ∙ ap (bit_xor (c / 256)) (omega arith) ∙ xor-zero (c / 256)

update_bytes_lem :
    (checksum : ℕ) (buffer : List ℕ)
    → checksum < 2 ^ 32
    → Bytes buffer
    → FastCrc32.update_bytes checksum buffer ≡ Crc32.update_bytes checksum buffer
unfolding FastCrc32.update_bytes Crc32.update_bytes
update_bytes_lem checksum [] h b = refl
update_bytes_lem checksum (byte ∷ buffer) h b = rw (byte_lem checksum byte h b.0) (
    update_bytes_lem
      (bit_xor (checksum / 2 ^ 8) (get_or FastCrc32.table (bit_and (bit_xor checksum byte) 0xFF) 0))
      buffer small b.1)
  where
    entry : get_or FastCrc32.table (bit_and (bit_xor checksum byte) 0xFF) 0 < 2 ^ 32
    entry =
        rw (and-mask8 (bit_xor checksum byte))
          ((table_lem (bit_xor checksum byte % 256) (omega arith)).1)

    small :
        bit_xor (checksum / 2 ^ 8) (get_or FastCrc32.table (bit_and (bit_xor checksum byte) 0xFF) 0)
        < 2 ^ 32
    small = xor-lt 32 (checksum / 2 ^ 8) _ (omega arith) entry

-- On bytes the table loop returns what the bit loop returns, complements included.
pub FastCrc32-eq-Crc32 :
    (checksum : ℕ) (buffer : List ℕ)
    → Bytes buffer
    → FastCrc32.update checksum buffer ≡ Crc32.update checksum buffer
unfolding FastCrc32.update Crc32.update
FastCrc32-eq-Crc32 checksum buffer b =
    ap not32 (update_bytes_lem (not32 checksum) buffer (omega arith) b)
