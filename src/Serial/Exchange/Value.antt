-- ===== src/Serial/Exchange/Value.antt =====
-- A value that a client asks for, from the message to the response.
use i2c.Prelude.{
  ℕ, ◌*◌, ◌≤◌, ◌≡◌, ◌≢◌, refl, true, false, Option, some, List, [], ◌∷◌, ◌++◌, arith, length,
  get_elem?, set, take, ltb, All, u8, length-take,
}
use i2c.Core.{FieldType, Result, field_type_number, size_of_field_type, field_max_size}
use i2c.Device.{Event, on_field_received}
use i2c.Device.Field.{AbstractField}
use i2c.Device.Internal.{AbstractFile, Internal, serve, read_field, read_with, read_event}
use i2c.Device.Internal.Fields.{field_at_lem}
use i2c.Hub.{Entry, Request, field_read}
use i2c.Hub.Routing.{route_first}
use i2c.Pool.{RequestPool}
use i2c.Pool.Ownership.{alloc-Owns}
use i2c.Serial.Parser.{buffer_length}
use i2c.Serial.Parser.Frames.{frame}
use i2c.Serial.Packet.{Query, query, command}
use i2c.Serial.Reply.{make_default_header}
use i2c.Serial.Handler.{
  Descriptor, descriptor, Handler, DeviceInfo, max_pending_requests, process, process_with, finish,
  response,
}
use i2c.Serial.Handler.Requests.{Sound, allocated-Sound}
use i2c.Serial.Handler.Answers.{on_event_lem, framed_response, IsShort}
use i2c.Serial.Exchange.{observed_by, deliver, call_hub, carry_out, exchange}

-- A message that is a request, with a descriptor to be had: the call is made with the descriptor that
-- has been free for longest, which waits from then on.
process_lem :
    (number address keyword n x : ℕ) (rest : List ℕ) (asked : Query) (h : Handler)
    (unused waiting : List ℕ)
    → Sound h (x ∷ unused) waiting
    → query (command keyword) (number ∷ address ∷ keyword ∷ rest) n ≡ some (some asked)
    → (pool : RequestPool Descriptor) × (process (number ∷ address ∷ keyword ∷ rest) n h
        ≡ some (
          record h { pool = pool },
          some (record { token = x; address = address; asked = asked }),
        ))
      × Sound (record h { pool = pool }) unused (x ∷ waiting)
      × (get_elem? pool.pool x ≡ some (descriptor number address))
unfolding process process_with finish
process_lem number address keyword n x rest asked h unused waiting s known =
    let (pool, ran, owns, fresh, new, others) =
      alloc-Owns max_pending_requests (descriptor number address) h.pool x unused waiting s.owns in
    (
      pool,
      rw (ran, known) refl,
      allocated-Sound h x (descriptor number address) unused waiting pool s
          (unfold descriptor in refl) owns new others,
      new,
    )

module _ {F G : Type 0} (field_of : AbstractField F) (file_of : AbstractFile G) (limit : ℕ)
    (crc : ℕ → List ℕ → ℕ) (stack chunk : List ℕ) (about : ℕ → DeviceInfo) where
  -- A request to a device of the hub, when its function ends in an event and the response is no longer
  -- than `limit`: the response's frame is written, and the request's descriptor is the last free one.
  exchange_lem :
      (number address keyword n x : ℕ) (rest : List ℕ) (request : Request)
      (before later : List (Entry ℕ)) (place : ℕ) (devices : List (Internal F G))
      (d d' : Internal F G) (event : Event) (reply : Option (List ℕ)) (h : Handler)
      (unused waiting : List ℕ)
      → length stack ≡ buffer_length limit
      → Sound h (x ∷ unused) waiting
      → query (command keyword) (number ∷ address ∷ keyword ∷ rest) n
        ≡ some (some (Query.device request))
      → All (λ (entry : Entry ℕ). entry.address ≢ address) before
      → get_elem? devices place ≡ some d
      → serve field_of file_of chunk request d ≡ some (d', some event)
      → response event (descriptor number address) ≡ some reply
      → IsShort limit crc stack reply
      → let entries = before ++ record { address = address; node = place } ∷ later in
        (after : Handler) × (exchange field_of file_of crc stack chunk about
            (number ∷ address ∷ keyword ∷ rest)
            n
            entries
            devices
            h
          ≡ some (set devices place d', after))
        × (after.written ≡ h.written ++ framed_response limit crc stack reply)
        × Sound after (unused ++ x ∷ []) waiting
  unfolding exchange carry_out call_hub deliver observed_by
  exchange_lem number address keyword n x rest request before later place devices d d' event reply h
        unused waiting sized s known apart found served built short =
      let (pool, ran, sound, new) =
        process_lem number address keyword n x rest (Query.device request) h unused waiting s
          known in
      let routed =
        route_first true before later (record { address = address; node = place }) request apart in
      let (after, answered, wrote, kept) =
        on_event_lem limit crc stack x event (descriptor number address) reply
          (record h { pool = pool }) unused [] waiting sized sound new built short in
      (
        after,
        rw (ran, routed, found, served, answered) refl,
        wrote,
        record { owns = kept.owns; unshared = kept.unshared },
      )

  served_value :
      (field : ℕ) (d : Internal F G) (f : F) (value : List ℕ)
      → get_elem? d.fields field ≡ some f
      → field_of.read f ≡ (Result.success, value)
      → serve field_of file_of chunk (field_read field) d
        ≡ some
            (d, some (on_field_received field value (field_of.field_type f) (field_of.dimension f)))
  unfolding serve read_field read_with read_event
  served_value field d f value found read =
      rw (field_at_lem field_of file_of d field, found, read) refl

  built_value :
      (number address field n dimension : ℕ) (value : List ℕ) (t : FieldType)
      → size_of_field_type t * dimension ≡ n
      → n ≤ 8
      → n ≤ length value
      → response (on_field_received field value t dimension) (descriptor number address)
        ≡ some (some (number ∷ u8 address ∷ 0 ∷ field_type_number t ∷ take n value))
  unfolding response make_default_header descriptor
  built_value number address field n dimension value t size small long =
      let fits : ltb field_max_size n ≡ false = ground arith in
      let inside : ltb (length value) n ≡ false = ground arith in rw (size, fits, inside) refl

  -- GET_VALUE end to end: a message of 4 bytes for a field of a device with the address of the message,
  -- which no device before it has, with a descriptor to be had and a `limit` of 12 or more. When the
  -- field reads with success and fills the bytes of its value and at most 8 bytes in all, its frame is
  -- written behind what was written before: the message's number, the address, SUCCESS, the field's
  -- type and its value. The devices stay as they are, and the descriptor is free again.
  pub exchange-get_value :
      (number address field n x place : ℕ) (rest value : List ℕ) (before later : List (Entry ℕ))
      (devices : List (Internal F G)) (d : Internal F G) (f : F) (h : Handler)
      (unused waiting : List ℕ)
      → 12 ≤ limit
      → length stack ≡ buffer_length limit
      → Sound h (x ∷ unused) waiting
      → All (λ (entry : Entry ℕ). entry.address ≢ address) before
      → get_elem? devices place ≡ some d
      → get_elem? d.fields field ≡ some f
      → field_of.read f ≡ (Result.success, value)
      → size_of_field_type (field_of.field_type f) * field_of.dimension f ≡ n
      → n ≤ length value
      → length value ≤ field_max_size
      → let entries = before ++ record { address = address; node = place } ∷ later in
        let reply =
          number ∷ u8 address ∷ 0 ∷ field_type_number (field_of.field_type f) ∷ take n value in
        (after : Handler) × (exchange field_of file_of crc stack chunk about
            (number ∷ address ∷ 4 ∷ field ∷ rest)
            4
            entries
            devices
            h
          ≡ some (set devices place d, after))
        × (after.written ≡ h.written ++ frame crc reply ∷ [])
        × Sound after (unused ++ x ∷ []) waiting
  unfolding query command
  exchange-get_value number address field n x place rest value before later devices d f h unused
        waiting wide sized s apart found has read size long bounded =
      let small : n ≤ 8 = omega (arith, long, bounded) in
      let reply =
        number ∷ u8 address ∷ 0 ∷ field_type_number (field_of.field_type f) ∷ take n value in
      exchange_lem number address 4 4 x (field ∷ rest) (field_read field) before later place devices
        d d (on_field_received field value (field_of.field_type f) (field_of.dimension f))
        (some reply) h unused waiting sized s refl apart found
        (served_value field d f value has read)
        (built_value number address field n (field_of.dimension f) value (field_of.field_type f)
          size small long)
        (omega arith, omega (arith, length-take n value, wide, small))
