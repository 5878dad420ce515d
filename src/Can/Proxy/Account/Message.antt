-- ===== src/Can/Proxy/Account/Message.antt =====
-- Transfers from the device: its responses, its status messages and the values that it sends by itself.
use i2c.Prelude.{
  ℕ, zero, suc, ◌+◌, ◌-◌, ◌≤◌, ◌<◌, ◌≡◌, refl, sym, subst, Bool, true, false, ◌&&◌, some, List, [],
  ◌∷◌, append-nil, arith, length, Bool-cases, inl, inr, ltb, ltb_iff, leb, ◌==◌, if◌then◌else◌,
  get_elem?-lt,
}
use i2c.Core.{size_of_field_type, field_max_size}
use i2c.Core.Sizes.{size_of_field_type_le}
use i2c.Can.Transfer.{RxTransfer, decode_integer_field, uninitialized}
use i2c.Can.Transfer.Bytes.{decode_blob_field_within, length-uninitialized}
use i2c.Can.Proxy.State.{
  Environment, ProxyRequestDescriptor, CanProxy, Effect, feature_node_status,
  feature_scheduled_field, is_idle, Status,
}
use i2c.Can.Proxy.Info.{
  process_node_status, decode_node_status, packet_status, uptime_sec, microseconds_of, count_values,
  scheduled_values, process_composite_field_values,
}
use i2c.Can.Proxy.Sound.{Sound}
use i2c.Can.Proxy.Respond.Counts.{answered}
use i2c.Can.Proxy.Respond.Whole.{Unasked, unchanged-Unasked}

module _ (e : Environment) where
  -- The values that the first loop counts are read by the second one.
  values_lem :
      (rounds position : ℕ) (payload : List ℕ) (p : CanProxy)
      → p.info.fields ≤ length p.info.types
      → length payload - position < rounds
      → (count : ℕ) × (count_values e rounds position payload p ≡ some count)
        × ((first : Bool)
            → (effects : List Effect) × (scheduled_values e count first position payload p
                ≡ some effects)
              × ((observer token : ℕ) → answered observer token effects ≡ 0))
  unfolding count_values scheduled_values
  values_lem zero position payload p known enough = absurd (omega (arith, enough))
  values_lem (suc rounds) position payload p known enough =
      elim (Bool-cases (leb (length payload) position)) [
        | inl over ↦ (0, simp over refl, λ first. ([], refl, λ observer token. refl))
        | inr more ↦ elim (Bool-cases (ltb number p.info.fields)) [
          | inr unknown ↦
              (0, simp (more, unknown) refl, λ first. ([], refl, λ observer token. refl))
          | inl inside ↦
              let (t, at) =
                get_elem?-lt p.info.types number
                  (ground (arith, (ltb_iff number p.info.fields).0 inside, known)) in
              let (count, counted, read) =
                values_lem rounds (position + (1 + size_of_field_type t)) payload p known
                  (ground (arith, more, enough)) in
              (
                suc count,
                simp (more, inside, at, counted) refl,
                λ first.
                    let (value, ran, sized) =
                      decode_blob_field_within e.scalar payload (position + 1)
                        (size_of_field_type t) (uninitialized e.memory field_max_size)
                        (omega (
                          arith,
                          size_of_field_type_le t,
                          length-uninitialized e.memory field_max_size,
                        )) in
                    let (effects, ran', quiet) = read false in
                    (
                      feature_scheduled_field number t 1 value first (count == 0) ∷ effects,
                      simp (at, ran, ran') refl,
                      λ observer token. omega (arith, quiet observer token),
                    ),
              )
        ]
      ]
    where
      number : ℕ
      number = decode_integer_field e.scalar payload 1 false position

  pub process_composite_field_values_lem :
      (t : RxTransfer) (p : CanProxy)
      → p.info.fields ≤ length p.info.types
      → (effects : List Effect) × (process_composite_field_values e t p ≡ some effects)
        × ((observer token : ℕ) → answered observer token effects ≡ 0)
  unfolding process_composite_field_values
  process_composite_field_values_lem t p known =
      let (count, counted, read) =
        values_lem (length t.payload + 1) 0 t.payload p known (omega arith) in
      let (effects, ran, quiet) = read true in
      elim (Bool-cases (is_idle p.state && p.feature)) [
        | inl able ↦ (effects, simp (able, counted, ran) refl, quiet)
        | inr unable ↦ ([], simp unable refl, λ observer token. refl)
      ]

  pub process_node_status-Unasked :
      (now : ℕ) (t : RxTransfer) (p : CanProxy) (ds : List ProxyRequestDescriptor)
      → Sound e p ds
      → Unasked e ds (process_node_status e now t p)
  unfolding process_node_status decode_node_status
  process_node_status-Unasked now t p ds s = elim (Bool-cases (length t.payload == 7)) [
    | inr other ↦ simp other (unchanged-Unasked e p ds s)
    | inl whole ↦
        let (packet, ran, sized) =
          decode_blob_field_within e.scalar t.payload 0 7 (uninitialized e.memory 7)
            (omega (arith, length-uninitialized e.memory 7)) in
        let status = packet_status packet in
        let uptime = microseconds_of (uptime_sec packet) in
        let p' : CanProxy = record p {
          info = record p.info { status = status; uptime = uptime; timestamp = now };
        } in
        (
          p',
          (if p.feature then feature_node_status status uptime ∷ [] else []),
          [],
          simp (whole, ran) refl,
          subst (Sound e p') (sym (append-nil ds)) (record {
            pending = s.pending;
            fitting = s.fitting;
            known = s.known;
            small = s.small;
            progress = s.progress;
            named = s.named;
          }),
          tt,
          λ observer token. quiet p.feature observer token status uptime,
        )
  ]
    where
      quiet :
          (b : Bool) (observer token : ℕ) (status : Status) (uptime : ℕ)
          → answered observer token (if b then feature_node_status status uptime ∷ [] else []) ≡ 0
      quiet true observer token status uptime = refl
      quiet false observer token status uptime = refl
