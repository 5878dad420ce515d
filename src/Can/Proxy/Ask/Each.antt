-- ===== src/Can/Proxy/Ask/Each.antt =====
-- A client's request: it waits, or its observer is told an error, or the feature gets it.
use i2c.Prelude.{
  ℕ, ◌-◌, ◌≤◌, ◌<◌, ◌≡◌, ◌⊎◌, inl, inr, refl, ap, true, false, Option, some, List, [], ◌∷◌, ◌++◌,
  arith, length, get_elem?-lt, take, Bool-cases, ltb, ltb_iff, u8, if◌then◌else◌,
}
use i2c.Core.{FieldType, Result, size_of_field_type, file_max_chunk_length, to_bytes}
use i2c.Device.Field.{load}
use i2c.Can.Proxy.State.{
  Environment, ProxyRequestDescriptor, CanProxy, Effect, feature_request_info, feature_read,
  feature_write, tell,
}
use i2c.Can.Proxy.Client.{
  field_request_info, field_read, field_write_payload, field_write, file_request_info, file_read,
  file_write_payload, file_write,
}
use i2c.Can.Proxy.Sound.{Sound}
use i2c.Can.Proxy.Ask.{
  Question, ask_field_info, ask_field, ask_field_write, ask_file_info, ask_file_read,
  ask_file_write, failure, Ready, ask, Queued, Refused, Submitted, submit-Sound, Beyond,
}

-- The calls that give a request of a field to the feature.
abbrev pub delegated : Question → ℕ → Option ℕ → ℕ → List Effect
delegated (ask_field_info field) fields observer token =
    feature_request_info (u8 (field - fields)) observer token ∷ []
delegated (ask_field field) fields observer token =
    feature_read (u8 (field - fields)) observer token ∷ []
delegated (ask_field_write field value) fields observer token =
    feature_write (u8 (field - fields)) value observer token ∷ []
delegated _ fields observer token = []

module _ (e : Environment) where
  -- What becomes of a request.
  abbrev pub Asked :
      ℕ
      → Question
      → Option ℕ
      → ℕ
      → CanProxy
      → List ProxyRequestDescriptor
      → Option (CanProxy × List Effect)
      → Type 0
  Asked now q observer token p ds outcome =
      (p' : CanProxy) × (effects : List Effect) × (ds' : List ProxyRequestDescriptor) × (outcome
        ≡ some (p', effects))
      × Sound e p' ds'
      × (Queued e now q observer token p p' ds ds' effects
          ⊎ ((p' ≡ p)
              × (ds' ≡ ds)
              × (Refused e q observer token p ds effects
                  ⊎ (Beyond p q
                      × (((p.feature ≡ false)
                            × (effects ≡ tell observer token (failure q Result.field_not_found)))
                          ⊎ ((p.feature ≡ true)
                              × (effects ≡ delegated q p.info.fields observer token)))))))

  submit-Asked :
      (now : ℕ) (q : Question) (observer : Option ℕ) (token : ℕ) (p : CanProxy)
      (ds : List ProxyRequestDescriptor) (outcome : Option (CanProxy × List Effect))
      → Submitted e now q observer token p ds outcome
      → Asked now q observer token p ds outcome
  submit-Asked now q observer token p ds outcome (p', effects, ds', ran, s, inl queued) =
      (p', effects, ds', ran, s, inl queued)
  submit-Asked now q observer token p ds outcome
        (p', effects, ds', ran, s, inr (same, kept, refused)) =
      (p', effects, ds', ran, s, inr (same, kept, inl refused))

  -- A request of a field: one of the device, or else one of the feature.
  field-Asked :
      (now : ℕ) (q : Question) (observer : Option ℕ) (token field : ℕ) (p : CanProxy)
      (ds : List ProxyRequestDescriptor) (submitted : Option (CanProxy × List Effect))
      → Sound e p ds
      → (p.info.fields ≤ field → Beyond p q)
      → (field < p.info.fields → Submitted e now q observer token p ds submitted)
      → Asked now q observer token p ds (
          if ltb field p.info.fields
          then submitted
          else if p.feature
          then some (p, delegated q p.info.fields observer token)
          else some (p, tell observer token (failure q Result.field_not_found)))
  field-Asked now q observer token field p ds submitted s beyond inside =
      elim (Bool-cases (ltb field p.info.fields)) [
        | inl own ↦ rw own (
            submit-Asked now q observer token p ds submitted
              (inside ((ltb_iff field p.info.fields).0 own)))
        | inr other ↦ rw other (elim (Bool-cases p.feature) [
          | inl special ↦ (
            p,
            _,
            ds,
            ap
                (λ b.
                  if b
                  then some (p, delegated q p.info.fields observer token)
                  else some (p, tell observer token (failure q Result.field_not_found)))
                special,
            s,
            inr (refl, refl, inr (beyond (ground (arith, other)), inr (special, refl))),
          )
          | inr missing ↦ (
            p,
            _,
            ds,
            ap
                (λ b.
                  if b
                  then some (p, delegated q p.info.fields observer token)
                  else some (p, tell observer token (failure q Result.field_not_found)))
                missing,
            s,
            inr (refl, refl, inr (beyond (ground (arith, other)), inl (missing, refl))),
          )
        ])
      ]

  -- Whatever a client asks, with the memory that it names, the proxy stays sound. A request of a file, or of
  -- a field that the device has, waits behind the others, with its deadline, its number and what is asked,
  -- and is sent with its number and its bytes; or nothing changes and its observer is told that there is no
  -- master or no free descriptor. A request of another field goes to the feature, or its observer is told
  -- that there is no such field.
  pub ask-Sound :
      (now : ℕ) (q : Question) (observer : Option ℕ) (token : ℕ) (p : CanProxy)
      (ds : List ProxyRequestDescriptor)
      → Sound e p ds
      → Ready p q
      → Asked now q observer token p ds (ask e now q observer token p)
  unfolding ask field_request_info field_read field_write file_request_info file_read file_write
  ask-Sound now (ask_field_info field) observer token p ds s ready =
      let q = ask_field_info field in
      field-Asked now q observer token field p ds _ s (λ far. far)
        (λ inside. submit-Sound e now q observer token _ _ p ds s inside (inl refl) refl refl)
  ask-Sound now (ask_field field) observer token p ds s ready =
      let q = ask_field field in
      field-Asked now q observer token field p ds _ s (λ far. far)
        (λ inside.
          submit-Sound e now q observer token _ _ p ds s inside (inr (inl refl, inside)) refl refl)
  ask-Sound now (ask_field_write field value) observer token p ds s ready =
      let q = ask_field_write field value in
      field-Asked now q observer token field p ds _ s (λ far. far)
        (λ inside.
          let (t, known) = get_elem?-lt p.info.types field (omega (arith, inside, s.known)) in
          submit-Sound e now q observer token (field_write_payload field value p)
            (u8 field ∷ take (size_of_field_type t) value) p ds s inside (inr (inr refl, inside))
            (unfold field_write_payload load in rw (known, enough t (ready t known)) refl)
            (t, known, refl))
    where
      enough :
          (t : FieldType)
          → size_of_field_type t ≤ length value
          → ltb (length value) (size_of_field_type t) ≡ false
      enough t h = ground (arith, h)
  ask-Sound now (ask_file_info file flags) observer token p ds s ready =
      let q = ask_file_info file flags in
      submit-Asked now q observer token p ds _
        (submit-Sound e now q observer token _ _ p ds s tt (inl refl) refl refl)
  ask-Sound now (ask_file_read file offset size) observer token p ds s ready =
      let q = ask_file_read file offset size in
      submit-Asked now q observer token p ds _
        (submit-Sound e now q observer token _ _ p ds s tt (inr (inl refl)) refl refl)
  ask-Sound now (ask_file_write file offset bytes) observer token p ds s ready =
      let q = ask_file_write file offset bytes in
      submit-Asked now q observer token p ds _ (
        submit-Sound e now q observer token (file_write_payload file offset bytes)
          (u8 file ∷ to_bytes 4 offset ++ bytes) p ds s tt (inr (inr refl))
          (unfold file_write_payload in rw fits refl) refl)
    where
      fits : ltb file_max_chunk_length (length bytes) ≡ false
      fits = ground (arith, ready)
