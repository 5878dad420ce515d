-- ===== src/Can/Proxy/Respond/Step.antt =====
-- An answer that belongs to a request ends it.
use i2c.Prelude.{
  ℕ, ◌<◌, ◌≡◌, inl, inr, refl, sym, subst, ◌∙◌, Bool, true, false, ◌||◌, ◌&&◌, not, some, List, [],
  ◌∷◌, append-nil, arith, length, Bool-cases, ltb, ◌==◌,
}
use i2c.Core.{FieldType, Result, is_success}
use i2c.Device.{on_field_info_request_error}
use i2c.Can.Transfer.{RxTransfer, Service, service_number, field_type_of, decode_integer_field}
use i2c.Can.Proxy.State.{
  Environment, Context, field_id, ProxyRequestDescriptor, State, CanProxy, device_ready, tell,
}
use i2c.Can.Proxy.Answer.{
  response_result, process_field_read_response, process_field_write_response,
  process_get_file_info_response, process_file_read_response, process_file_write_response,
}
use i2c.Can.Proxy.Info.{process_get_field_info_response, is_request_fields, is_field_not_found}
use i2c.Can.Proxy.Receive.{process_response}
use i2c.Can.Proxy.Sound.{Fits}
use i2c.Can.Proxy.Respond.{
  process_field_read_response-Answered, process_field_write_response-Answered,
  process_get_file_info_response-Answered, process_file_read_response-Answered,
  process_file_write_response-Answered,
}
use i2c.Can.Proxy.Respond.Counts.{answered-tell}
use i2c.Can.Proxy.Respond.Texts.{TextsFit}
use i2c.Can.Proxy.Respond.Learn.{Mid, Replies, unchanged-Replies, take_field_info-Replies}

module _ (e : Environment) where
  -- A payload has the length of a 16-bit number, and the texts in a description of a field fit in their
  -- arrays.
  abbrev pub Described : RxTransfer → Type 0
  Described t =
      (length t.payload < 65536)
      × (t.data_type_id ≡ service_number Service.get_field_info
          → is_success (response_result e t.payload) ≡ true
          → TextsFit e (field_type_of (decode_integer_field e.scalar t.payload 1 false 1))
              t.payload)

  process_get_field_info_response-Replies :
      (now : ℕ) (t : RxTransfer) (id : ℕ) (p : CanProxy) (before : List ProxyRequestDescriptor)
      (i : ℕ) (d : ProxyRequestDescriptor) (later : List ProxyRequestDescriptor)
      → Mid e p before i d later
      → d.context ≡ Context.field id
      → Described t
      → t.data_type_id ≡ service_number Service.get_field_info
      → Replies e before i d later (process_get_field_info_response e now t (some d) p)
  unfolding process_get_field_info_response field_id
  process_get_field_info_response-Replies now t id p before i d later m same (bounded, texts) kind =
      simp same (elim (Bool-cases wrong) [
        | inl bad ↦ simp bad (
            unchanged-Replies e p before i d later
              (some (tell d.observer d.token (on_field_info_request_error id Result.command_error)))
              m (_, refl))
        | inr good ↦ simp good (elim (Bool-cases (is_success result)) [
          | inl success ↦ simp success (
              take_field_info-Replies e now id type t.payload p before i d later m
                (texts kind success) bounded)
          | inr failed ↦ simp failed (elim (Bool-cases ended) [
            | inl end ↦ simp end (
              record p { state = State.idle },
              device_ready ∷ tell d.observer d.token (on_field_info_request_error id result),
              [],
              refl,
              subst (Mid e (record p { state = State.idle }) before i d) (sym (append-nil later))
                  (record {
                    at = m.at;
                    fitting = m.fitting;
                    known = m.known;
                    small = m.small;
                    progress = tt;
                    named = m.named;
                  }),
              tt,
              λ observer token. omega (
                arith,
                answered-tell observer token d.observer d.token
                    (on_field_info_request_error id result),
              ),
            )
            | inr other ↦ simp other (
                unchanged-Replies e p before i d later
                  (some (tell d.observer d.token (on_field_info_request_error id result))) m
                  (_, refl))
          ])
        ])
      ])
    where
      wrong : Bool
      wrong = (ltb (length t.payload) 6 || ltb 62 (length t.payload)) && not (length t.payload == 1)

      result : Result
      result = response_result e t.payload

      type : FieldType
      type = field_type_of (decode_integer_field e.scalar t.payload 1 false 1)

      ended : Bool
      ended = is_request_fields p.state && is_field_not_found result

  -- The answer to the request `d`, whatever its type.
  pub process_response-Replies :
      (now later_time : ℕ) (t : RxTransfer) (p : CanProxy) (before : List ProxyRequestDescriptor)
      (i : ℕ) (d : ProxyRequestDescriptor) (later : List ProxyRequestDescriptor) (context : Context)
      → Mid e p before i d later
      → Described t
      → t.data_type_id ≡ d.service
      → d.context ≡ context
      → Fits p.info.fields d.service context
      → Replies e before i d later (process_response e now later_time t (some d) p)
  unfolding process_response service_number
  process_response-Replies now later_time t p before i d later (Context.field id) m described kind
        same (inl info) =
      let type : t.data_type_id ≡ 201 = kind ∙ info in
      simp type
        (process_get_field_info_response-Replies now t id p before i d later m same described type)
  process_response-Replies now later_time t p before i d later (Context.field id) m described kind
        same (inr (inl read, inside)) =
      let type : t.data_type_id ≡ 202 = kind ∙ read in
      simp type (
        unchanged-Replies e p before i d later (process_field_read_response e t (some d) p) m
          (process_field_read_response-Answered e t d id p same inside m.known))
  process_response-Replies now later_time t p before i d later (Context.field id) m described kind
        same (inr (inr write, inside)) =
      let type : t.data_type_id ≡ 203 = kind ∙ write in
      simp type (
        unchanged-Replies e p before i d later (process_field_write_response e t (some d) p) m
          (process_field_write_response-Answered e t d id p same inside))
  process_response-Replies now later_time t p before i d later (Context.file id position) m
        described kind same (inl info) =
      let type : t.data_type_id ≡ 204 = kind ∙ info in
      simp type (
        unchanged-Replies e p before i d later (process_get_file_info_response e t (some d) p) m
          (process_get_file_info_response-Answered e t d id position p same))
  process_response-Replies now later_time t p before i d later (Context.file id position) m
        described kind same (inr (inl read)) =
      let type : t.data_type_id ≡ 205 = kind ∙ read in
      simp type (
        unchanged-Replies e p before i d later (process_file_read_response e t (some d) p) m
          (process_file_read_response-Answered e t d id position p same))
  process_response-Replies now later_time t p before i d later (Context.file id position) m
        described kind same (inr (inr write)) =
      let type : t.data_type_id ≡ 206 = kind ∙ write in
      simp type (
        unchanged-Replies e p before i d later (process_file_write_response e t (some d) p) m
          (process_file_write_response-Answered e t d id position p same))
