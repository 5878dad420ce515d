-- ===== src/Can/Proxy/Ask.antt =====
-- A request that is made of the master: it waits, or its observer is told an error.
pub mod Each
use i2c.Prelude.{
  ℕ, ◌+◌, ◌-◌, ◌≤◌, ◌<◌, ◌≡◌, ◌⊎◌, inl, inr, refl, sym, ap, ◌∙◌, Bool, true, false, Option, none,
  some, List, [], ◌∷◌, ◌++◌, arith, length, get_elem?, get_elem?-lt, take, All, Bool-cases, ltb,
  ltb_iff, u8, if◌then◌else◌,
}
use i2c.Core.{FieldType, Result, size_of_field_type, file_max_chunk_length, to_bytes}
use i2c.Device.{
  Event, on_field_info_request_error, on_field_request_error, on_file_info_request_error,
  on_file_read_end, on_file_write_end,
}
use i2c.Device.Field.{load}
use i2c.Can.Transfer.{Service, service_number}
use i2c.Can.Proxy.State.{
  Environment, Context, ProxyRequestDescriptor, CanProxy, Effect, send_request,
  feature_request_info, feature_read, feature_write, tell, number_of, set_number, make_request,
  transmit,
}
use i2c.Can.Proxy.Client.{
  submit, field_request_info, field_read, field_write_payload, field_write, file_request_info,
  file_read, file_write_payload, file_write,
}
use i2c.Can.Proxy.Pending.{All-append}
use i2c.Can.Proxy.Pending.Enqueue.{enqueue-Pending, enqueue_full}
use i2c.Can.Proxy.Purge.{Pending-bounds}
use i2c.Can.Proxy.Sound.{Fits, Sound}

-- A call of one of the six functions, without the observer and the token.
pub data Question : Type 0 where
  ask_field_info : ℕ → Question
  ask_field : ℕ → Question
  ask_field_write : ℕ → List ℕ → Question
  ask_file_info : ℕ → ℕ → Question
  ask_file_read : ℕ → ℕ → ℕ → Question
  ask_file_write : ℕ → ℕ → List ℕ → Question

-- The call that tells an observer that a request has failed.
abbrev pub failure : Question → Result → Event
failure (ask_field_info field) result = on_field_info_request_error field result
failure (ask_field field) result = on_field_request_error field result
failure (ask_field_write field value) result = on_field_request_error field result
failure (ask_file_info file flags) result = on_file_info_request_error file result
failure (ask_file_read file offset size) result = on_file_read_end file offset [] result
failure (ask_file_write file offset bytes) result = on_file_write_end file offset result

-- The memory behind the value of a write suffices for the field's type, and a chunk fits in a message.
abbrev pub Ready : CanProxy → Question → Type 0
Ready p (ask_field_write field value) =
    (t : FieldType) → get_elem? p.info.types field ≡ some t → size_of_field_type t ≤ length value
Ready p (ask_file_write file offset bytes) = length bytes ≤ file_max_chunk_length
Ready p _ = Unit

-- What a question asks of the device: the type of the request, its context, and the bytes of its message.
abbrev pub service_of : Question → Service
service_of (ask_field_info field) = Service.get_field_info
service_of (ask_field field) = Service.field_read
service_of (ask_field_write field value) = Service.field_write
service_of (ask_file_info file flags) = Service.get_file_info
service_of (ask_file_read file offset size) = Service.file_read
service_of (ask_file_write file offset bytes) = Service.file_write

abbrev pub context_of : Question → Context
context_of (ask_field_info field) = Context.field field
context_of (ask_field field) = Context.field field
context_of (ask_field_write field value) = Context.field field
context_of (ask_file_info file flags) = Context.file file 0
context_of (ask_file_read file offset size) = Context.file file offset
context_of (ask_file_write file offset bytes) = Context.file file offset

abbrev pub Carries : CanProxy → Question → List ℕ → Type 0
Carries p (ask_field_info field) payload = payload ≡ u8 field ∷ []
Carries p (ask_field field) payload = payload ≡ u8 field ∷ []
Carries p (ask_field_write field value) payload =
    (t : FieldType) × (get_elem? p.info.types field ≡ some t)
    × (payload ≡ u8 field ∷ take (size_of_field_type t) value)
Carries p (ask_file_info file flags) payload = payload ≡ u8 file ∷ u8 flags ∷ []
Carries p (ask_file_read file offset size) payload =
    payload ≡ u8 file ∷ to_bytes 4 offset ++ u8 size ∷ []
Carries p (ask_file_write file offset bytes) payload =
    payload ≡ u8 file ∷ to_bytes 4 offset ++ bytes

-- A question of the device, and one of a field that only the feature may have.
abbrev pub OfDevice : CanProxy → Question → Type 0
OfDevice p (ask_field_info field) = field < p.info.fields
OfDevice p (ask_field field) = field < p.info.fields
OfDevice p (ask_field_write field value) = field < p.info.fields
OfDevice p _ = Unit

abbrev pub Beyond : CanProxy → Question → Type 0
Beyond p (ask_field_info field) = p.info.fields ≤ field
Beyond p (ask_field field) = p.info.fields ≤ field
Beyond p (ask_field_write field value) = p.info.fields ≤ field
Beyond p _ = ⊥

module _ (e : Environment) where
  unfoldable pub ask : ℕ → Question → Option ℕ → ℕ → CanProxy → Option (CanProxy × List Effect)
  ask now (ask_field_info field) observer token p = field_request_info e now field observer token p
  ask now (ask_field field) observer token p = field_read e now field observer token p
  ask now (ask_field_write field value) observer token p =
      field_write e now field value observer token p
  ask now (ask_file_info file flags) observer token p =
      file_request_info e now file flags observer token p
  ask now (ask_file_read file offset size) observer token p =
      file_read e now file offset size observer token p
  ask now (ask_file_write file offset bytes) observer token p =
      file_write e now file offset bytes observer token p

  -- The descriptor of a question.
  abbrev pub asked_request : ℕ → Question → Option ℕ → ℕ → CanProxy → ProxyRequestDescriptor
  asked_request now q observer token p = record {
    destination = p.info.address;
    refs = 0;
    observer = observer;
    token = token;
    deadline = now + e.request_timeout;
    service = service_number (service_of q);
    number = number_of (service_of q) p.numbers;
    context = context_of q;
  }

  -- The request waits behind the others, and is sent; the next one of its type has the next number.
  pub record Queued (now : ℕ) (q : Question) (observer : Option ℕ) (token : ℕ) (p p' : CanProxy)
      (ds ds' : List ProxyRequestDescriptor) (effects : List Effect) : Type 0 where
    pub payload : List ℕ
    pub own : OfDevice p q
    pub connected : p.master ≡ true
    pub room : length ds < e.max_request_count
    pub carries : Carries p q payload
    pub waits : ds' ≡ ds ++ asked_request now q observer token p ∷ []
    pub sent :
        effects
        ≡ send_request p.info.address (service_of q) (number_of (service_of q) p.numbers) payload
          ∷ []
    pub numbered :
        p'.numbers
        ≡ set_number (service_of q) (e.advance (number_of (service_of q) p.numbers)) p.numbers
    pub kept : (p'.info ≡ p.info) × (p'.state ≡ p.state)

  -- The request is refused: its observer is told why.
  abbrev pub Refused :
      Question → Option ℕ → ℕ → CanProxy → List ProxyRequestDescriptor → List Effect → Type 0
  Refused q observer token p ds effects =
      OfDevice p q
      × (((p.master ≡ false) × (effects ≡ tell observer token (failure q Result.command_error)))
          ⊎ ((p.master ≡ true)
              × (length ds ≡ e.max_request_count)
              × (effects ≡ tell observer token (failure q Result.queue_error))))

  -- What becomes of a request that is made of the master.
  abbrev pub Submitted :
      ℕ
      → Question
      → Option ℕ
      → ℕ
      → CanProxy
      → List ProxyRequestDescriptor
      → Option (CanProxy × List Effect)
      → Type 0
  Submitted now q observer token p ds outcome =
      (p' : CanProxy) × (effects : List Effect) × (ds' : List ProxyRequestDescriptor) × (outcome
        ≡ some (p', effects))
      × Sound e p' ds'
      × (Queued now q observer token p p' ds ds' effects
          ⊎ ((p' ≡ p) × (ds' ≡ ds) × Refused q observer token p ds effects))

  pub submit-Sound :
      (now : ℕ) (q : Question) (observer : Option ℕ) (token : ℕ) (payload : Option (List ℕ))
      (bytes : List ℕ) (p : CanProxy) (ds : List ProxyRequestDescriptor)
      → Sound e p ds
      → OfDevice p q
      → Fits p.info.fields (service_number (service_of q)) (context_of q)
      → payload ≡ some bytes
      → Carries p q bytes
      → Submitted now q observer token p ds
          (submit e now observer token (service_of q) (context_of q) payload (failure q) p)
  unfolding submit transmit make_request
  submit-Sound now q observer token payload bytes p ds s own fits filled carries =
      elim (Bool-cases p.master) [
        | inr missing ↦ (p, _, ds, rw missing refl, s, inr (refl, refl, (own, inl (missing, refl))))
        | inl connected ↦ elim (Bool-cases (ltb (length ds) e.max_request_count)) [
          | inl room ↦
              let more : length ds < e.max_request_count =
                (ltb_iff (length ds) e.max_request_count).0 room in
              let (pool, requests, ran, h) = enqueue-Pending e d p ds s.pending refl more in
              (
                record p {
                  pool = pool;
                  requests = requests;
                  numbers =
                      set_number (service_of q) (e.advance (number_of (service_of q) p.numbers))
                        p.numbers;
                },
                _,
                ds ++ d ∷ [],
                simp (connected, ran, filled) refl,
                record {
                  pending = h;
                  fitting =
                      All-append (λ r. Fits p.info.fields r.service r.context) ds (d ∷ []) s.fitting
                        (fits, tt);
                  known = s.known;
                  small = s.small;
                  progress = s.progress;
                  named = s.named;
                },
                inl (record {
                  payload = bytes;
                  own = own;
                  carries = carries;
                  numbered = refl;
                  kept = (refl, refl);
                  connected = connected;
                  room = more;
                  waits = refl;
                  sent = refl;
                }),
              )
          | inr full ↦
              let (bound, sized) = Pending-bounds e p ds s.pending in
              let all : length ds ≡ e.max_request_count = ground (arith, full, bound) in
              (
                p,
                _,
                ds,
                simp (connected, enqueue_full e d p ds s.pending all) refl,
                s,
                inr (refl, refl, (own, inr (connected, all, refl))),
              )
        ]
      ]
    where
      d : ProxyRequestDescriptor
      d = make_request e now observer token (service_of q) (context_of q) p
