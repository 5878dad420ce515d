-- ===== src/Can/Proxy/Info.antt =====
-- PlazCan/CanProxy.hpp: what a proxy learns of its device, from its status messages and from its answers
-- to GET_NODE_INFO and GET_FIELD_INFO, and the values that the device sends by itself.
use i2c.Prelude.{
  ℕ, zero, suc, ◌+◌, ◌-◌, ◌*◌, ◌/◌, ◌%◌, min, Bool, true, false, ◌||◌, ◌&&◌, not, Option, none,
  some, List, [], ◌∷◌, ◌++◌, length, get_elem?, get_or, set, take, drop, ltb, leb, ◌==◌,
  if◌then◌else◌, ◌>>=◌, u8, sub_size,
}
use i2c.Core.{
  FieldType, Result, is_success, size_of_field_type, field_max_size, field_readable, field_writable,
  field_important, FieldInfo, from_bytes,
}
use i2c.Device.{on_field_info_received, on_field_info_request_error}
use i2c.Memory.{store}
use i2c.Can.Convert.{max_field_name_length, max_unit_name_length}
use i2c.Can.Transfer.{
  RxTransfer, Service, field_type_of, decode_integer_field, decode_blob_field, uninitialized,
}
use i2c.Can.Proxy.State.{
  Environment, max_retries, Context, field_id, ProxyRequestDescriptor, Status, Info, State,
  CanProxy, Effect, device_ready, notify, feature_node_status, feature_scheduled_field, tell,
  is_idle, enqueue, make_request, transmit,
}
use i2c.Can.Proxy.Answer.{response_result}

-- `seconds` as microseconds
abbrev pub microseconds_of : ℕ → ℕ
microseconds_of seconds = seconds * 1000000

-- `kMaxNameLength` and `kUidLength`
abbrev pub max_name_length : ℕ
max_name_length = 80

abbrev pub uid_length : ℕ
uid_length = 16

-- The characters of an array up to the first null character.
abbrev pub c_string : List ℕ → List ℕ
c_string [] = []
c_string (zero ∷ characters) = []
c_string (suc c ∷ characters) = suc c ∷ c_string characters

-- `PacketPart`
pub data PacketPart : Type 0 where
  status version uid coa name idle : PacketPart

abbrev is_idle_part : PacketPart → Bool
is_idle_part PacketPart.idle = true
is_idle_part _ = false

abbrev pub is_request_fields : State → Bool
is_request_fields State.request_fields = true
is_request_fields _ = false

abbrev pub is_field_not_found : Result → Bool
is_field_not_found Result.field_not_found = true
is_field_not_found _ = false

-- The members of a `NodeStatusMessage`: `uptime_sec`, and the status of the others.
unfoldable pub uptime_sec : List ℕ → ℕ
uptime_sec packet = from_bytes (take 4 packet)

unfoldable pub packet_status : List ℕ → Status
packet_status packet = record {
  mode = get_or packet 4 0 / 8 % 8;
  health = get_or packet 4 0 / 64 % 4;
  flags = from_bytes (take 2 (drop 5 packet));
}

module _ (e : Environment) where
  -- `decodeAs` for a `NodeStatusMessage`
  unfoldable pub decode_node_status : List ℕ → Option (List ℕ)
  decode_node_status payload = decode_blob_field e.scalar payload 0 7 (uninitialized e.memory 7)

  unfoldable pub process_node_status : ℕ → RxTransfer → CanProxy → Option (CanProxy × List Effect)
  process_node_status now t p =
      if length t.payload == 7
      then (decode_node_status t.payload >>= λ packet.
          let status = packet_status packet in
          let uptime = microseconds_of (uptime_sec packet) in
          some (
            record p { info = record p.info { status = status; uptime = uptime; timestamp = now } },
            (if p.feature then feature_node_status status uptime ∷ [] else []),
          ))
      else some (p, [])

  -- A round of the loop over a response to GET_NODE_INFO: the part behind, its position and what is known.
  unfoldable pub node_info_step : PacketPart → ℕ → List ℕ → Info → Option (PacketPart × ℕ × Info)
  node_info_step PacketPart.status position payload i = some (
    PacketPart.version,
    position + 7,
    record i { uptime = microseconds_of (decode_integer_field e.scalar payload 4 false position) },
  )
  node_info_step PacketPart.version position payload i = some (
    PacketPart.uid,
    position + 17,
    record i {
      version = record {
        hw_major = decode_integer_field e.scalar payload 1 false (position + 15);
        hw_minor = decode_integer_field e.scalar payload 1 false (position + 16);
        sw_major = decode_integer_field e.scalar payload 1 false position;
        sw_minor = decode_integer_field e.scalar payload 1 false (position + 1);
        sw_revision = decode_integer_field e.scalar payload 4 false (position + 3);
      };
    },
  )
  node_info_step PacketPart.uid position payload i =
      decode_blob_field e.scalar payload position uid_length i.uid >>= λ bytes.
      some (PacketPart.coa, position + uid_length, record i { uid = bytes })
  node_info_step PacketPart.coa position payload i =
      some (
        PacketPart.name,
        position + (1 + decode_integer_field e.scalar payload 1 false position),
        i,
      )
  node_info_step PacketPart.name position payload i =
      decode_blob_field e.scalar payload position (min (length payload - position) max_name_length)
        i.name
      >>= λ characters. some (PacketPart.idle, length payload, record i { name = characters })
  node_info_step PacketPart.idle position payload i = some (PacketPart.idle, position, i)

  -- The loop; `none` if the rounds do not suffice.
  unfoldable pub node_info_from : ℕ → PacketPart → ℕ → List ℕ → Info → Option (PacketPart × Info)
  node_info_from zero part position payload i = none
  node_info_from (suc rounds) part position payload i =
      let onwards =
        (node_info_step part position payload i >>= λ r.
        node_info_from rounds r.0 r.1 payload r.2) in
      if leb (length payload) position then some (part, i) else onwards

  -- At most five parts, and the end of the loop.
  unfoldable pub process_get_node_info_response :
      ℕ → RxTransfer → CanProxy → Option (Bool × CanProxy)
  process_get_node_info_response now t p =
      node_info_from 6 PacketPart.status 0 t.payload p.info >>= λ r. some (
        if is_idle_part r.0
        then (true, record p { info = record r.1 { timestamp = now } })
        else (false, record p { info = r.1 }))

  unfoldable pub send_get_node_info : CanProxy → CanProxy × List Effect
  send_get_node_info p = transmit e Service.get_node_info [] p

  unfoldable pub send_get_field_info : ℕ → ℕ → CanProxy → Option (CanProxy × List Effect)
  send_get_field_info now field p =
      enqueue e (make_request e now none 0 Service.get_field_info (Context.field field) p) p
      >>= λ r.
          some (if r.0 then transmit e Service.get_field_info (u8 field ∷ []) r.1 else (r.1, []))

  -- The type of the next field is known: the one behind it is asked for, or the list is complete.
  unfoldable pub add_field : ℕ → FieldType → CanProxy → Option (CanProxy × List Effect)
  add_field now t p =
      let fields = u8 (p.info.fields + 1) in
      let p' = record p {
        info = record p.info { types = set p.info.types p.info.fields t; fields = fields };
      } in
      if ltb p.info.fields (length p.info.types)
      then if ltb fields (length p.info.types)
        then send_get_field_info now fields (record p' { retries = max_retries })
        else some (record p' { state = State.idle }, device_ready ∷ [])
      else none

  -- A string that is copied to an array and terminated there; `none` is a write outside of the array.
  unfoldable pub received_text : ℕ → List ℕ → ℕ → ℕ → Option (List ℕ)
  received_text capacity payload offset length = do
    characters ← decode_blob_field e.scalar payload offset length (uninitialized e.memory capacity)
    terminated ← store characters length 0
    some (c_string terminated)

  -- The description of a field from a response, for an observer.
  unfoldable pub received_field_info : ℕ → FieldType → List ℕ → Option FieldInfo
  received_field_info id t payload = do
    let size = size_of_field_type t
    low ← decode_blob_field e.scalar payload 4 size (uninitialized e.memory field_max_size)
    high ←
        decode_blob_field e.scalar payload (5 + size) size (uninitialized e.memory field_max_size)
    let unit_length = decode_integer_field e.scalar payload 1 false (5 + size * 2)
    unit ← received_text max_unit_name_length payload (6 + size * 2) unit_length
    let name_offset = 6 + size * 2 + unit_length
    let name_length = sub_size (length payload) name_offset
    characters ← received_text max_field_name_length payload name_offset name_length
    some (record {
      index = id;
      dimension = 1;
      flags = field_readable + field_writable + field_important;
      scale = decode_integer_field e.scalar payload 1 true 2;
      field_type = t;
      name = characters;
      unit = unit;
      min = take size low;
      max = take size high;
    })

  unfoldable pub tell_field_info : Option ℕ → ℕ → ℕ → FieldType → List ℕ → Option (List Effect)
  tell_field_info none token id t payload = some []
  tell_field_info (some observer) token id t payload = received_field_info id t payload >>= λ i.
      some (notify observer token (on_field_info_received i []) ∷ [])

  -- An answer with SUCCESS: the list of fields grows if it is the field that was asked for last, and an
  -- observer that is not null gets the description.
  unfoldable pub take_field_info :
      ℕ
      → ℕ
      → FieldType
      → List ℕ
      → ProxyRequestDescriptor
      → CanProxy
      → Option (CanProxy × List Effect)
  take_field_info now id t payload d p =
      (if is_request_fields p.state && (id == p.info.fields)
        then add_field now t p
        else some (p, []))
      >>= λ r. tell_field_info d.observer d.token id t payload >>= λ told. some (r.0, r.1 ++ told)

  unfoldable pub process_get_field_info_response :
      ℕ → RxTransfer → Option ProxyRequestDescriptor → CanProxy → Option (CanProxy × List Effect)
  process_get_field_info_response now t none p = some (p, [])
  process_get_field_info_response now t (some d) p = field_id d.context >>= λ id.
      let result = response_result e t.payload in
      let failed = tell d.observer d.token (on_field_info_request_error id result) in
      if (ltb (length t.payload) 6 || ltb 62 (length t.payload)) && not (length t.payload == 1)
      then some (p, tell d.observer d.token (on_field_info_request_error id Result.command_error))
      else if is_success result
      then take_field_info now id
          (field_type_of (decode_integer_field e.scalar t.payload 1 false 1)) t.payload d p
      else if is_request_fields p.state && is_field_not_found result
      then some (record p { state = State.idle }, device_ready ∷ failed)
      else some (p, failed)

  -- The first loop of `processCompositeFieldValues`; `none` if the rounds do not suffice.
  unfoldable pub count_values : ℕ → ℕ → List ℕ → CanProxy → Option ℕ
  count_values zero position payload p = none
  count_values (suc rounds) position payload p =
      let number = decode_integer_field e.scalar payload 1 false position in
      let more = (do
        t ← get_elem? p.info.types number
        count ← count_values rounds (position + (1 + size_of_field_type t)) payload p
        some (suc count)) in
      if leb (length payload) position
      then some 0
      else if ltb number p.info.fields
      then more
      else some 0

  -- The second loop, with the number of values left; `first` is the test `i == 0`.
  unfoldable pub scheduled_values : ℕ → Bool → ℕ → List ℕ → CanProxy → Option (List Effect)
  scheduled_values zero first position payload p = some []
  scheduled_values (suc left) first position payload p = do
    let number = decode_integer_field e.scalar payload 1 false position
    t ← get_elem? p.info.types number
    let size = size_of_field_type t
    value ←
        decode_blob_field e.scalar payload (position + 1) size
          (uninitialized e.memory field_max_size)
    later ← scheduled_values left false (position + (1 + size)) payload p
    some (feature_scheduled_field number t 1 value first (left == 0) ∷ later)

  unfoldable pub process_composite_field_values : RxTransfer → CanProxy → Option (List Effect)
  process_composite_field_values t p =
      if is_idle p.state && p.feature
      then (count_values (length t.payload + 1) 0 t.payload p >>= λ count.
          scheduled_values count true 0 t.payload p)
      else some []
