-- ===== src/Can/Transfer/Bytes.antt =====
-- The bytes of a transfer that `decodeBlobField` copies.
use i2c.Prelude.{
  ltb, Bool-cases, inl, inr, >>=-eq-some, ℕ, zero, suc, ◌+◌, ◌-◌, ◌*◌, ◌/◌, ◌%◌, ◌^◌, ◌≤◌, ◌<◌, ◌≡◌,
  refl, sym, ap, ◌∙◌, false, Option, none, some, List, [], ◌∷◌, ◌++◌, arith, length, length-set,
  length-take, take, drop, set, get_elem?, get_elem?-lt, lt_of_get_elem?, fun_ext, ◌>>=◌,
  length-drop,
}
use i2c.Core.{from_bytes}
use i2c.Memory.{store, store_in, copy_to, copy_to_lem}
use i2c.Can.Transfer.{
  DecodeScalar, put_byte, decode_integer_field, decode_bytes, decode_blob_field, uninitialized,
}

-- What libcanard documents of `canardDecodeScalar`: a whole number of bytes within the payload is
-- decoded as a little-endian number, and 7 bits at the start of a byte are its upper 7.
pub record Decodes (scalar : DecodeScalar) : Type 0 where
  pub whole :
      (payload : List ℕ) (i width : ℕ)
      → 1 ≤ width
      → width ≤ 8
      → i + width ≤ length payload
      → scalar payload (8 * i) (8 * width) false ≡ some (from_bytes (take width (drop i payload)))
  pub upper :
      (payload : List ℕ) (i b : ℕ)
      → get_elem? payload i ≡ some b
      → scalar payload (8 * i) 7 false ≡ some (b / 2)

pub length-uninitialized : (memory : ℕ → ℕ) (n : ℕ) → length (uninitialized memory n) ≡ n
length-uninitialized memory zero = refl
length-uninitialized memory (suc n) = ap suc (length-uninitialized memory n)

drop-get_elem? : (xs : List ℕ) (i x : ℕ) → get_elem? xs i ≡ some x → drop i xs ≡ x ∷ drop (i + 1) xs
drop-get_elem? [] i x at = cc
drop-get_elem? (y ∷ xs) zero x at = let same : y ≡ x = cc in ap (λ z. z ∷ xs) same
drop-get_elem? (y ∷ xs) (suc i) x at =
    drop-get_elem? xs i x at ∙ ap (λ k. x ∷ drop k (y ∷ xs)) {x = suc (i + 1)} (omega arith)

module _ (scalar : DecodeScalar) (decodes : Decodes scalar) where
  -- A number of the payload.
  pub decode_integer_field_lem :
      (payload : List ℕ) (width offset : ℕ)
      → 1 ≤ width
      → width ≤ 8
      → offset + width ≤ length payload
      → length payload < 65536
      → decode_integer_field scalar payload width false offset
        ≡ from_bytes (take width (drop offset payload))
  unfolding decode_integer_field
  decode_integer_field_lem payload width offset low high within bounded =
      let same : (8 * offset) % 2 ^ 32 ≡ 8 * offset = omega arith in
      rw (same, decodes.whole payload offset width low high within) refl

  -- A byte of the payload.
  decode_byte :
      (payload : List ℕ) (i b : ℕ)
      → get_elem? payload i ≡ some b
      → length payload < 65536
      → scalar payload ((8 * i) % 2 ^ 32) 8 false ≡ some b
  decode_byte payload i b at bounded =
      let inside = lt_of_get_elem? payload i b at in
      let same : (8 * i) % 2 ^ 32 ≡ 8 * i = omega (arith, inside) in
      let one : b + 256 * 0 ≡ b = omega arith in
      let here : from_bytes (take 1 (drop i payload)) ≡ b + 256 * 0 =
        ap (λ bytes. from_bytes (take 1 bytes)) (drop-get_elem? payload i b at) in
      rw same (
        decodes.whole payload i 1 (omega arith) (omega arith) (omega (arith, inside))
        ∙ ap some (here ∙ one))

  -- Within the payload the loop is `memcpy`.
  decode_bytes-eq-copy_to :
      (payload : List ℕ) (count i position : ℕ) (buffer : List ℕ)
      → i + count ≤ length payload
      → length payload < 65536
      → decode_bytes scalar payload count i position buffer
        ≡ copy_to buffer position (take count (drop i payload))
  unfolding decode_bytes copy_to
  decode_bytes-eq-copy_to payload zero i position buffer within bounded = refl
  decode_bytes-eq-copy_to payload (suc count) i position buffer within bounded =
      let (b, at) = get_elem?-lt payload i (omega (arith, within)) in
      rw (decode_byte payload i b at bounded, drop-get_elem? payload i b at)
        (ap (λ f. store buffer position b >>= f)
          (fun_ext (λ buffer'.
            decode_bytes-eq-copy_to payload count (i + 1) (position + 1) buffer'
              (omega (arith, within)) bounded)))

  -- A field of the payload is copied to the start of the buffer.
  pub decode_blob_field_lem :
      (payload : List ℕ) (offset n : ℕ) (buffer : List ℕ)
      → offset + n ≤ length payload
      → length payload < 65536
      → n ≤ length buffer
      → decode_blob_field scalar payload offset n buffer
        ≡ some (take n (drop offset payload) ++ drop n buffer)
  unfolding decode_blob_field
  decode_blob_field_lem payload offset n buffer within bounded room =
      let count : (offset + n) % 2 ^ 32 - offset ≡ n = omega (arith, within) in
      let sized : length (take n (drop offset payload)) ≡ n =
        length-take n (drop offset payload) ∙ omega (arith, length-drop offset payload, within) in
      rw (count, decode_bytes-eq-copy_to payload n offset 0 buffer within bounded)
        (copy_to_lem (take n (drop offset payload)) buffer 0 (omega (arith, sized, room))
          ∙ ap (λ k. some (take n (drop offset payload) ++ drop k buffer))
              {x = 0 + length (take n (drop offset payload))} (omega (arith, sized)))

put_within :
    (value : Option ℕ) (position : ℕ) (buffer : List ℕ)
    → position < length buffer
    → (after : List ℕ) × (put_byte value position buffer ≡ some after)
      × (length after ≡ length buffer)
put_within none position buffer room = (buffer, refl, refl)
put_within (some value) position buffer room = (
  set buffer position value,
  store_in buffer position value room,
  length-set buffer position value,
)

module _ (scalar : DecodeScalar) where
  -- Whatever libcanard stores, a copy to a buffer with room for it writes within the buffer.
  decode_bytes_within :
      (payload : List ℕ) (count i position : ℕ) (buffer : List ℕ)
      → position + count ≤ length buffer
      → (after : List ℕ) × (decode_bytes scalar payload count i position buffer ≡ some after)
        × (length after ≡ length buffer)
  unfolding decode_bytes
  decode_bytes_within payload zero i position buffer room = (buffer, refl, refl)
  decode_bytes_within payload (suc count) i position buffer room =
      let (next, put, sized) =
        put_within (scalar payload ((8 * i) % 2 ^ 32) 8 false) position buffer
          (omega (arith, room)) in
      let (after, ran, sized') =
        decode_bytes_within payload count (i + 1) (position + 1) next
          (omega (arith, room, sized)) in
      (after, rw (put, ran) refl, sized' ∙ sized)

  pub decode_blob_field_within :
      (payload : List ℕ) (offset n : ℕ) (buffer : List ℕ)
      → n ≤ length buffer
      → (after : List ℕ) × (decode_blob_field scalar payload offset n buffer ≡ some after)
        × (length after ≡ length buffer)
  unfolding decode_blob_field
  decode_blob_field_within payload offset n buffer room =
      decode_bytes_within payload ((offset + n) % 2 ^ 32 - offset) offset 0 buffer
        (omega (arith, room))

  put_byte-length :
      (value : Option ℕ) (position : ℕ) (buffer after : List ℕ)
      → put_byte value position buffer ≡ some after
      → length after ≡ length buffer
  unfolding store
  put_byte-length none position buffer after ran =
      let same : buffer ≡ after = cc in sym (ap length same)
  put_byte-length (some value) position buffer after ran =
      elim (Bool-cases (ltb position (length buffer))) [
        | inl inside ↦
            let done : some (set buffer position value) ≡ some after = sym (rw inside refl) ∙ ran in
            let same : set buffer position value ≡ after = cc in
            sym (ap length same) ∙ length-set buffer position value
        | inr outside ↦ let failed : none ≡ some after = sym (rw outside refl) ∙ ran in cc
      ]

  decode_bytes-length :
      (payload : List ℕ) (count i position : ℕ) (buffer after : List ℕ)
      → decode_bytes scalar payload count i position buffer ≡ some after
      → length after ≡ length buffer
  unfolding decode_bytes
  decode_bytes-length payload zero i position buffer after ran =
      let same : buffer ≡ after = cc in sym (ap length same)
  decode_bytes-length payload (suc count) i position buffer after ran =
      let (next, put, rest) =
        >>=-eq-some (put_byte (scalar payload ((8 * i) % 2 ^ 32) 8 false) position buffer)
          (decode_bytes scalar payload count (i + 1) (position + 1)) after ran in
      decode_bytes-length payload count (i + 1) (position + 1) next after rest
      ∙ put_byte-length (scalar payload ((8 * i) % 2 ^ 32) 8 false) position buffer next put

  -- A copy that does not fail leaves the buffer as long as it was.
  pub decode_blob_field-length :
      (payload : List ℕ) (offset n : ℕ) (buffer after : List ℕ)
      → decode_blob_field scalar payload offset n buffer ≡ some after
      → length after ≡ length buffer
  unfolding decode_blob_field
  decode_blob_field-length payload offset n buffer after ran =
      decode_bytes-length payload ((offset + n) % 2 ^ 32 - offset) offset 0 buffer after ran
