-- ===== src/Crc/Detect.antt =====
-- FastCrc8 tells apart two messages that differ in one byte, and continues over pieces of a message.
use i2c.Prelude.{
  ℕ, suc, ◌<◌, ◌≡◌, ◌≢◌, refl, sym, ap, ◌∙◌, Bool, true, List, [], ◌∷◌, ◌++◌, get_or, bit_xor, ◌==◌,
  ltb, ◌&&◌, Bytes, ==_iff, ltb_iff, both, if◌then◌else◌,
}
use i2c.Bits.{xor_comm, xor_cancel}
use i2c.Bits.Fields.{xor-lt}
use i2c.Bits.Table.{tested, tested_lem}
use i2c.Crc.FastCrc8

-- The place of a value in a list.
position : ℕ → List ℕ → ℕ
position value [] = 0
position value (x ∷ xs) = let later = suc (position value xs) in if x == value then 0 else later

entry : ℕ → ℕ
entry d = get_or FastCrc8.table d 0

-- No byte stands twice in the table, and all entries are bytes.
entry_lem : (d : ℕ) → d < 256 → (position (entry d) FastCrc8.table ≡ d) × (entry d < 256)
entry_lem d h = ((==_iff _ _).0 (both _ _ found).0, (ltb_iff _ _).0 (both _ _ found).1)
  where
    matches : ℕ → Bool
    matches d = (position (entry d) FastCrc8.table == d) && ltb (entry d) 256

    checked : tested matches 256 ≡ true
    checked = unfold tested position entry FastCrc8.table in refl

    found : matches d ≡ true
    found = tested_lem matches 256 d checked h

entry_injective : (a b : ℕ) → a < 256 → b < 256 → entry a ≡ entry b → a ≡ b
entry_injective a b p q e =
    sym (entry_lem a p).0 ∙ ap (λ t. position t FastCrc8.table) e ∙ (entry_lem b q).0

step-lt : (checksum byte : ℕ) → checksum < 256 → byte < 256 → entry (bit_xor checksum byte) < 256
step-lt checksum byte p q = (entry_lem (bit_xor checksum byte) (xor-lt 8 checksum byte p q)).1

pub update-lt :
    (checksum : ℕ) (buffer : List ℕ)
    → checksum < 256
    → Bytes buffer
    → FastCrc8.update checksum buffer < 256
unfolding FastCrc8.update entry
update-lt checksum [] h b = h
update-lt checksum (byte ∷ buffer) h b =
    update-lt (entry (bit_xor checksum byte)) buffer (step-lt checksum byte h b.0) b.1

-- Different checksums stay different over the same bytes.
update_injective :
    (a b : ℕ) (buffer : List ℕ)
    → a < 256
    → b < 256
    → Bytes buffer
    → FastCrc8.update a buffer ≡ FastCrc8.update b buffer
    → a ≡ b
unfolding FastCrc8.update
update_injective a b [] p q bytes e = e
update_injective a b (byte ∷ buffer) p q bytes e =
    let same : entry (bit_xor a byte) ≡ entry (bit_xor b byte) =
      update_injective (entry (bit_xor a byte)) (entry (bit_xor b byte)) buffer
        (step-lt a byte p bytes.0) (step-lt b byte q bytes.0) bytes.1 (unfold entry in e) in
    let index : bit_xor a byte ≡ bit_xor b byte =
      entry_injective (bit_xor a byte) (bit_xor b byte) (xor-lt 8 a byte p bytes.0)
        (xor-lt 8 b byte q bytes.0) same in
    sym (xor_cancel byte a)
    ∙ ap (bit_xor byte) (xor_comm byte a ∙ index ∙ xor_comm b byte)
    ∙ xor_cancel byte b

-- The checksum of a message in pieces: the second call continues from the first.
pub update-append :
    (checksum : ℕ) (xs ys : List ℕ)
    → FastCrc8.update checksum (xs ++ ys) ≡ FastCrc8.update (FastCrc8.update checksum xs) ys
unfolding FastCrc8.update
update-append checksum [] ys = refl
update-append checksum (x ∷ xs) ys =
    update-append (get_or FastCrc8.table (bit_xor checksum x) 0) xs ys

-- Two messages of bytes that differ in exactly one byte have different checksums, from the same
-- starting byte.
pub update_detects :
    (checksum : ℕ) (xs ys : List ℕ) (x y : ℕ)
    → checksum < 256
    → Bytes xs
    → Bytes ys
    → x < 256
    → y < 256
    → x ≢ y
    → FastCrc8.update checksum (xs ++ x ∷ ys) ≢ FastCrc8.update checksum (xs ++ y ∷ ys)
unfolding FastCrc8.update entry
update_detects checksum xs ys x y c bx by hx hy ne e =
    let front = FastCrc8.update checksum xs in
    let small : front < 256 = update-lt checksum xs c bx in
    let same : entry (bit_xor front x) ≡ entry (bit_xor front y) =
      update_injective (entry (bit_xor front x)) (entry (bit_xor front y)) ys
        (step-lt front x small hx) (step-lt front y small hy) by
        (sym (update-append checksum xs (x ∷ ys)) ∙ e ∙ update-append checksum xs (y ∷ ys)) in
    let index : bit_xor front x ≡ bit_xor front y =
      entry_injective (bit_xor front x) (bit_xor front y) (xor-lt 8 front x small hx)
        (xor-lt 8 front y small hy) same in
    ne (sym (xor_cancel front x) ∙ ap (bit_xor front) index ∙ xor_cancel front y)
