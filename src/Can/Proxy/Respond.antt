-- ===== src/Can/Proxy/Respond.antt =====
-- The device's answers to requests for values and files: each ends its request with one call.
pub mod Counts
pub mod Texts
pub mod Learn
pub mod Step
pub mod Whole
pub mod Node
pub mod Unmatched
use i2c.Prelude.{
  ℕ, ◌+◌, ◌-◌, ◌≤◌, ◌<◌, ◌≡◌, ◌⊎◌, inl, inr, refl, sym, ap, ◌∙◌, Bool, true, false, ◌||◌, ◌&&◌, not,
  Option, none, some, List, [], ◌∷◌, arith, length, get_elem?, get_elem?-lt, Bool-cases, ltb, leb,
  ◌==◌, if◌then◌else◌, take, Option-cases,
}
use i2c.Core.{
  Result, FieldType, is_success, size_of_field_type, field_max_size, file_max_chunk_length,
}
use i2c.Core.Sizes.{size_of_field_type_le}
use i2c.Device.{
  Event, on_field_received, on_field_updated, on_field_request_error, on_file_info_received,
  on_file_info_request_error, on_file_read_end, on_file_write_end,
}
use i2c.Can.Transfer.{RxTransfer, Service, service_number, uninitialized}
use i2c.Can.Transfer.Bytes.{length-uninitialized, decode_blob_field_within}
use i2c.Can.Proxy.State.{
  Environment, Context, field_id, file_id, file_position, ProxyRequestDescriptor, CanProxy, Effect,
  notify, tell,
}
use i2c.Can.Proxy.Answer.{
  response_result, received_value, tell_value, process_field_read_response,
  process_field_write_response, received_file_info, process_get_file_info_response, tell_chunk,
  process_file_read_response, process_file_write_response,
}

module _ (e : Environment) where
  -- One call of the request's observer, or none if it is null.
  abbrev pub Answered : ProxyRequestDescriptor → Option (List Effect) → Type 0
  Answered d outcome = (event : Event) × (outcome ≡ some (tell d.observer d.token event))

  tell_value-Answered :
      (observer : Option ℕ) (token id : ℕ) (payload : List ℕ) (p : CanProxy)
      → id < p.info.fields
      → p.info.fields ≤ length p.info.types
      → (event : Event) × (tell_value e observer token id payload p
          ≡ some (tell observer token event))
  unfolding tell_value received_value
  tell_value-Answered none token id payload p inside known = (on_field_updated id, refl)
  tell_value-Answered (some observer) token id payload p inside known =
      let (t, at) = get_elem?-lt p.info.types id (omega (arith, inside, known)) in
      let (value, ran, sized) =
        decode_blob_field_within e.scalar payload 1 (size_of_field_type t)
          (uninitialized e.memory field_max_size)
          (omega (arith, size_of_field_type_le t, length-uninitialized e.memory field_max_size)) in
      elim (Bool-cases (is_success (response_result e payload))) [
        | inl good ↦ (on_field_received id value t 1, rw (good, at, ran) refl)
        | inr bad ↦ (on_field_request_error id (response_result e payload), rw bad refl)
      ]

  tell_chunk-Answered :
      (observer : Option ℕ) (token id position : ℕ) (payload : List ℕ)
      → length payload ≤ 1 + file_max_chunk_length
      → (event : Event) × (tell_chunk e observer token id position payload
          ≡ some (tell observer token event))
  unfolding tell_chunk
  tell_chunk-Answered none token id position payload short = (on_field_updated id, refl)
  tell_chunk-Answered (some observer) token id position payload short =
      let (chunk, ran, sized) =
        decode_blob_field_within e.scalar payload 1 (length payload - 1)
          (uninitialized e.memory file_max_chunk_length)
          (omega (arith, short, length-uninitialized e.memory file_max_chunk_length)) in
      elim (Bool-cases (is_success (response_result e payload))) [
        | inl good ↦ (
          on_file_read_end id position (take (length payload - 1) chunk) Result.success,
          rw (good, ran) refl,
        )
        | inr bad ↦ (on_file_read_end id position [] (response_result e payload), rw bad refl)
      ]

  pub process_field_read_response-Answered :
      (t : RxTransfer) (d : ProxyRequestDescriptor) (id : ℕ) (p : CanProxy)
      → d.context ≡ Context.field id
      → id < p.info.fields
      → p.info.fields ≤ length p.info.types
      → Answered d (process_field_read_response e t (some d) p)
  unfolding process_field_read_response field_id
  process_field_read_response-Answered t d id p same inside known =
      let own : leb p.info.fields id ≡ false = ground (arith, inside) in
      let wrong = ltb (length t.payload) 1 || ltb (1 + field_max_size) (length t.payload) in
      let (event, told) = tell_value-Answered d.observer d.token id t.payload p inside known in
      simp (same, own)
        (elim (Bool-cases wrong) [
          | inl bad ↦ (on_field_request_error id Result.command_error, rw bad refl)
          | inr good ↦ (event, rw good told)
        ])

  pub process_field_write_response-Answered :
      (t : RxTransfer) (d : ProxyRequestDescriptor) (id : ℕ) (p : CanProxy)
      → d.context ≡ Context.field id
      → id < p.info.fields
      → Answered d (process_field_write_response e t (some d) p)
  unfolding process_field_write_response field_id
  process_field_write_response-Answered t d id p same inside =
      let own : leb p.info.fields id ≡ false = ground (arith, inside) in
      simp (same, own)
        (elim (Bool-cases (length t.payload == 1)) [
          | inl good ↦ (
            if is_success (response_result e t.payload)
                then on_field_updated id
                else on_field_request_error id (response_result e t.payload),
            rw good refl,
          )
          | inr bad ↦ (on_field_request_error id Result.command_error, rw bad refl)
        ])

  pub process_get_file_info_response-Answered :
      (t : RxTransfer) (d : ProxyRequestDescriptor) (id position : ℕ) (p : CanProxy)
      → d.context ≡ Context.file id position
      → Answered d (process_get_file_info_response e t (some d) p)
  unfolding process_get_file_info_response file_id
  process_get_file_info_response-Answered t d id position p same =
      let wrong = not (length t.payload == 10) && not (length t.payload == 1) in
      simp same (elim (Bool-cases wrong) [
        | inl bad ↦ (on_file_info_request_error id Result.command_error, rw bad refl)
        | inr good ↦ (
          if is_success (response_result e t.payload)
              then on_file_info_received (received_file_info e id t.payload)
              else on_file_info_request_error id (response_result e t.payload),
          rw good refl,
        )
      ])

  pub process_file_read_response-Answered :
      (t : RxTransfer) (d : ProxyRequestDescriptor) (id position : ℕ) (p : CanProxy)
      → d.context ≡ Context.file id position
      → Answered d (process_file_read_response e t (some d) p)
  unfolding process_file_read_response file_id file_position
  process_file_read_response-Answered t d id position p same =
      let wrong = ltb (length t.payload) 1 || ltb (1 + file_max_chunk_length) (length t.payload) in
      simp same (elim (Bool-cases wrong) [
        | inl bad ↦ (on_file_read_end id position [] Result.command_error, rw bad refl)
        | inr good ↦
            let (event, told) =
              tell_chunk-Answered d.observer d.token id position t.payload (ground (arith, good)) in
            (event, rw good told)
      ])

  pub process_file_write_response-Answered :
      (t : RxTransfer) (d : ProxyRequestDescriptor) (id position : ℕ) (p : CanProxy)
      → d.context ≡ Context.file id position
      → Answered d (process_file_write_response e t (some d) p)
  unfolding process_file_write_response file_id file_position
  process_file_write_response-Answered t d id position p same =
      simp same (elim (Bool-cases (length t.payload == 1)) [
        | inl good ↦ (on_file_write_end id position (response_result e t.payload), rw good refl)
        | inr bad ↦ (on_file_write_end id position Result.command_error, rw bad refl)
      ])
