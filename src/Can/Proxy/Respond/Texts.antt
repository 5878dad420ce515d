-- ===== src/Can/Proxy/Respond/Texts.antt =====
-- The description of a field from a response, when its texts fit in their arrays.
use i2c.Prelude.{
  Option-cases, ℕ, ◌+◌, ◌*◌, ◌≤◌, ◌<◌, ◌≡◌, inl, inr, refl, true, false, Option, none, some, List,
  [], arith, length, set, take, sub_size,
}
use i2c.Core.{
  FieldType, Result, FieldInfo, size_of_field_type, field_max_size, field_readable, field_writable,
  field_important,
}
use i2c.Core.Sizes.{size_of_field_type_le}
use i2c.Device.{Event, on_field_info_received, on_field_info_request_error}
use i2c.Memory.{store_in, store_out}
use i2c.Can.Convert.{max_field_name_length, max_unit_name_length}
use i2c.Can.Transfer.{decode_integer_field, decode_blob_field, uninitialized}
use i2c.Can.Transfer.Bytes.{
  length-uninitialized, decode_blob_field_within, decode_blob_field-length,
}
use i2c.Can.Proxy.State.{Environment, tell}
use i2c.Can.Proxy.Info.{received_text, received_field_info, tell_field_info, c_string}

module _ (e : Environment) where
  -- The texts of a description end within their arrays: the unit has less than 16 characters, the name less
  -- than 24, and both are within the payload.
  abbrev pub TextsFit : FieldType → List ℕ → Type 0
  TextsFit t payload =
      let size = size_of_field_type t in
      let unit_length = decode_integer_field e.scalar payload 1 false (5 + size * 2) in
      (unit_length < max_unit_name_length)
      × (6 + size * 2 + unit_length ≤ length payload)
      × (length payload < 6 + size * 2 + unit_length + max_field_name_length)

  -- A text that is shorter than its array.
  received_text_within :
      (capacity : ℕ) (payload : List ℕ) (offset n : ℕ)
      → n < capacity
      → (text : List ℕ) × (received_text e capacity payload offset n ≡ some text)
  unfolding received_text
  received_text_within capacity payload offset n short =
      let full = length-uninitialized e.memory capacity in
      let (characters, ran, sized) =
        decode_blob_field_within e.scalar payload offset n (uninitialized e.memory capacity)
          (omega (arith, short, full)) in
      (
        c_string (set characters n 0),
        rw (ran, store_in characters n 0 (omega (arith, sized, short, full))) refl,
      )

  received_field_info_within :
      (id : ℕ) (t : FieldType) (payload : List ℕ)
      → TextsFit t payload
      → length payload < 65536
      → (i : FieldInfo) × (received_field_info e id t payload ≡ some i)
  unfolding received_field_info
  received_field_info_within id t payload (unit_short, inside, name_short) bounded =
      let size = size_of_field_type t in
      let small = size_of_field_type_le t in
      let full = length-uninitialized e.memory field_max_size in
      let (low, ran_low, _) =
        decode_blob_field_within e.scalar payload 4 size (uninitialized e.memory field_max_size)
          (omega (arith, small, full)) in
      let (high, ran_high, _) =
        decode_blob_field_within e.scalar payload (5 + size) size
          (uninitialized e.memory field_max_size) (omega (arith, small, full)) in
      let unit_length = decode_integer_field e.scalar payload 1 false (5 + size * 2) in
      let (unit, ran_unit) =
        received_text_within max_unit_name_length payload (6 + size * 2) unit_length unit_short in
      let name_offset = 6 + size * 2 + unit_length in
      let (characters, ran_name) =
        received_text_within max_field_name_length payload name_offset
          (sub_size (length payload) name_offset) (omega (arith, inside, bounded, name_short)) in
      (
        record {
          index = id;
          dimension = 1;
          flags = field_readable + field_writable + field_important;
          scale = decode_integer_field e.scalar payload 1 true 2;
          field_type = t;
          name = characters;
          unit = unit;
          min = take size low;
          max = take size high;
        },
        rw (ran_low, ran_high, ran_unit, ran_name) refl,
      )

  pub tell_field_info_lem :
      (observer : Option ℕ) (token id : ℕ) (t : FieldType) (payload : List ℕ)
      → TextsFit t payload
      → length payload < 65536
      → (event : Event) × (tell_field_info e observer token id t payload
          ≡ some (tell observer token event))
  unfolding tell_field_info
  tell_field_info_lem none token id t payload fits bounded =
      (on_field_info_request_error id Result.success, refl)
  tell_field_info_lem (some observer) token id t payload fits bounded =
      let (i, ran) = received_field_info_within id t payload fits bounded in
      (on_field_info_received i [], rw ran refl)

  -- A text that is as long as its array or longer is not received: its terminator is written behind the
  -- array.
  pub received_text_overrun :
      (capacity : ℕ) (payload : List ℕ) (offset n : ℕ)
      → capacity ≤ n
      → received_text e capacity payload offset n ≡ none
  unfolding received_text
  received_text_overrun capacity payload offset n long =
      elim (Option-cases
        (decode_blob_field e.scalar payload offset n (uninitialized e.memory capacity))) [
          | inl outside ↦ rw outside refl
          | inr (characters, ran) ↦
              let sized =
                decode_blob_field-length e.scalar payload offset n (uninitialized e.memory capacity)
                  characters ran in
              rw
                (
                  ran,
                  store_out characters n 0
                      (omega (arith, sized, length-uninitialized e.memory capacity, long)),
                )
                refl
        ]

  -- The description of a field whose unit has 16 characters or more is not received: the proxy writes behind
  -- an array.
  pub received_field_info_overrun :
      (id : ℕ) (t : FieldType) (payload : List ℕ)
      → max_unit_name_length
        ≤ decode_integer_field e.scalar payload 1 false (5 + size_of_field_type t * 2)
      → received_field_info e id t payload ≡ none
  unfolding received_field_info
  received_field_info_overrun id t payload long =
      let size = size_of_field_type t in
      let small = size_of_field_type_le t in
      let full = length-uninitialized e.memory field_max_size in
      let (low, ran_low, _) =
        decode_blob_field_within e.scalar payload 4 size (uninitialized e.memory field_max_size)
          (omega (arith, small, full)) in
      let (high, ran_high, _) =
        decode_blob_field_within e.scalar payload (5 + size) size
          (uninitialized e.memory field_max_size) (omega (arith, small, full)) in
      let lost =
        received_text_overrun max_unit_name_length payload (6 + size * 2)
          (decode_integer_field e.scalar payload 1 false (5 + size * 2)) long in
      rw (ran_low, ran_high, lost) refl
