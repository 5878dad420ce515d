-- ===== src/Device/Internal/Fields.antt =====
-- The requests that a device serves: which field is found, and what is told to the observer.
use i2c.Prelude.{
  ℕ, ◌+◌, ◌≤◌, ◌<◌, ◌⊎◌, ◌≡◌, ◌≢◌, refl, sym, ap, ◌∙◌, Bool, true, false, Option, none, some, List,
  [], ◌∷◌, arith, length, get_elem?, ◌==◌, if◌then◌else◌, ltb, Bool-cases, inl, inr, Option-cases,
  get_elem?-out, set, take, bit_and, nonzero,
}
use i2c.Core.{is_success, file_max_chunk_length, file_req_checksum, Result}
use i2c.Device.{
  Event, on_field_info_received, on_field_info_request_error, on_field_received, on_field_updated,
  on_field_request_error, on_file_info_received, on_file_info_request_error, on_file_read_end,
  on_file_write_end,
}
use i2c.Device.Field.{AbstractField}
use i2c.Device.Internal.{
  AbstractFile, Internal, info_of, get_impl, field_at, info_event, info_with, read_event, read_with,
  write_event, write_with, write_call, request_field_info, read_field, write_field, file_info_with,
  request_file_info, file_read_with, read_file, file_write_with, write_file, serve,
}
use i2c.Hub.{
  Request, field_request_info, field_read, field_write, file_request_info, file_read, file_write,
}

get_impl_lem {ℓ} :
    {F : Type ℓ} (n i : ℕ) (fields : List F)
    → n ≤ i
    → get_impl n fields i ≡ (if ltb i (n + length fields) then some i else none)
unfolding get_impl
get_impl_lem n i [] h = ground arith
get_impl_lem n i (f ∷ fields) h = elim (Bool-cases (i == n)) [
  | inl same ↦ ground arith
  | inr other ↦ rw other (
      get_impl_lem (n + 1) i fields (ground arith)
      ∙ ap (λ k. if ltb i k then some i else none) (omega arith))
]

module _ {ℓ κ} {F : Type ℓ} {G : Type κ} (field_of : AbstractField F)
    (file_of : AbstractFile G) where
  -- The recursion over the list of fields leads to the field at the index, or to none.
  pub field_at_lem :
      (d : Internal F G) (field : ℕ) → field_at field_of file_of d field ≡ get_elem? d.fields field
  unfolding field_at
  field_at_lem d field = elim (Bool-cases (ltb field (0 + length d.fields))) [
    | inl inside ↦ rw (get_impl_lem 0 field d.fields (omega arith), inside) refl
    | inr outside ↦
        rw (get_impl_lem 0 field d.fields (omega arith), outside)
          (sym (get_elem?-out d.fields field (ground arith)))
  ]

module _ {F G : Type 0} (field_of : AbstractField F) (file_of : AbstractFile G)
    (stack : List ℕ) where
  -- The field or the file that is asked for can carry the request out: a new value is long enough for
  -- the field, and a chunk is no access outside of an array.
  abbrev pub Ready : Request → Internal F G → Type 0
  Ready (field_write field buffer) d =
      (f : F) → get_elem? d.fields field ≡ some f → field_of.write f buffer ≢ none
  Ready (file_read file offset n) d =
      (g : G)
      → get_elem? d.files file ≡ some g
      → n ≤ file_max_chunk_length
      → file_of.read_chunk g offset stack n ≢ none
  Ready (file_write file offset chunk) d =
      (g : G) → get_elem? d.files file ≡ some g → file_of.write_chunk g offset chunk ≢ none
  Ready _ d = Unit

  -- The call that says that there is no such field or file.
  abbrev pub not_there : Request → Event
  not_there (field_request_info field) = on_field_info_request_error field Result.field_not_found
  not_there (field_read field) = on_field_request_error field Result.field_not_found
  not_there (field_write field buffer) = on_field_request_error field Result.field_not_found
  not_there (file_request_info file flags) = on_file_info_request_error file Result.file_not_found
  not_there (file_read file offset n) = on_file_read_end file offset [] Result.file_not_found
  not_there (file_write file offset chunk) = on_file_write_end file offset Result.file_not_found

  -- What a write does to a file: a chunk of length 0 starts an upload at the offset 0, and ends it at
  -- another one.
  abbrev pub Written : G → ℕ → List ℕ → Bool × G → Type 0
  Written g offset [] r =
      ((offset ≡ 0) × (r ≡ file_of.restart_write g))
      ⊎ ((0 < offset) × (r ≡ file_of.finalize_write g offset))
  Written g offset (b ∷ chunk) r = file_of.write_chunk g offset (b ∷ chunk) ≡ some r

  -- How a field answers: with its value or its description when it reads with success, and else with
  -- its own error; and what it writes.
  abbrev pub FieldAnswers : Request → F → Internal F G → Internal F G → Event → Type 0
  FieldAnswers (field_request_info field) f d d' event =
      (d' ≡ d)
      × (((is_success (field_of.read f).0 ≡ true)
            × (event
                ≡ on_field_info_received (info_of field_of file_of field f) (field_of.read f).1))
          ⊎ ((is_success (field_of.read f).0 ≡ false)
              × (event ≡ on_field_info_request_error field (field_of.read f).0)))
  FieldAnswers (field_read field) f d d' event =
      (d' ≡ d)
      × (((is_success (field_of.read f).0 ≡ true)
            × (event
                ≡ on_field_received field (field_of.read f).1 (field_of.field_type f)
                    (field_of.dimension f)))
          ⊎ ((is_success (field_of.read f).0 ≡ false)
              × (event ≡ on_field_request_error field (field_of.read f).0)))
  FieldAnswers (field_write field buffer) f d d' event =
      (f' : F) × (result : Result) × (field_of.write f buffer ≡ some (f', result))
      × (d' ≡ record d { fields = set d.fields field f' })
      × (((is_success result ≡ true) × (event ≡ on_field_updated field))
          ⊎ ((is_success result ≡ false) × (event ≡ on_field_request_error field result)))
  FieldAnswers _ f d d' event = ⊥

  abbrev pub FileAnswers : Request → G → Internal F G → Internal F G → Event → Type 0
  FileAnswers (file_request_info file flags) g d d' event =
      (d' ≡ d)
      × (event
          ≡ on_file_info_received (record {
            index = file;
            flags = file_of.get_flags g;
            size = file_of.get_size g;
            checksum =
                if nonzero (bit_and flags file_req_checksum) then file_of.get_checksum g else 0;
          }))
  FileAnswers (file_read file offset n) g d d' event =
      (d' ≡ d)
      × (((file_max_chunk_length < n) × (event ≡ on_file_read_end file offset [] Result.file_error))
          ⊎ ((n ≤ file_max_chunk_length)
              × (ok : Bool) × (buffer : List ℕ) × (file_of.read_chunk g offset stack n
                  ≡ some (ok, buffer))
              × (event
                  ≡ on_file_read_end file offset (if ok then take n buffer else [])
                      (if ok then Result.success else Result.file_position_error))))
  FileAnswers (file_write file offset chunk) g d d' event =
      (ok : Bool) × (g' : G) × Written g offset chunk (ok, g')
      × (d' ≡ record d { files = set d.files file g' })
      × (event ≡ on_file_write_end file offset (if ok then Result.success else Result.file_error))
  FileAnswers _ g d d' event = ⊥

  -- The field or the file that is asked for, if the device has it.
  abbrev pub Missing : Request → Internal F G → Type 0
  Missing (field_request_info field) d = get_elem? d.fields field ≡ none
  Missing (field_read field) d = get_elem? d.fields field ≡ none
  Missing (field_write field buffer) d = get_elem? d.fields field ≡ none
  Missing (file_request_info file flags) d = get_elem? d.files file ≡ none
  Missing (file_read file offset n) d = get_elem? d.files file ≡ none
  Missing (file_write file offset chunk) d = get_elem? d.files file ≡ none

  abbrev pub TheField : Request → Internal F G → F → Type 0
  TheField (field_request_info field) d f = get_elem? d.fields field ≡ some f
  TheField (field_read field) d f = get_elem? d.fields field ≡ some f
  TheField (field_write field buffer) d f = get_elem? d.fields field ≡ some f
  TheField _ d f = ⊥

  abbrev pub TheFile : Request → Internal F G → G → Type 0
  TheFile (file_request_info file flags) d g = get_elem? d.files file ≡ some g
  TheFile (file_read file offset n) d g = get_elem? d.files file ≡ some g
  TheFile (file_write file offset chunk) d g = get_elem? d.files file ≡ some g
  TheFile _ d g = ⊥

  -- One request on a device ends in exactly one event: that there is no such field or file, or the
  -- answer of the one that is asked for.
  abbrev pub Served : Request → Internal F G → Option (Internal F G × Option Event) → Type 0
  Served request d outcome =
      (d' : Internal F G) × (event : Event) × (outcome ≡ some (d', some event))
      × ((Missing request d × (d' ≡ d) × (event ≡ not_there request))
          ⊎ (((f : F) × TheField request d f × FieldAnswers request f d d' event)
              ⊎ ((g : G) × TheFile request d g × FileAnswers request g d d' event)))

  -- Every request ends in exactly one call of the observer: an error if the device has no such field or
  -- file, and else what that field or file says.
  pub serve-Served :
      (request : Request) (d : Internal F G)
      → Ready request d
      → Served request d (serve field_of file_of stack request d)
  unfolding serve request_field_info read_field write_field request_file_info file_info_with
      read_file write_file info_with info_event read_with read_event write_with write_event
      file_read_with file_write_with write_call
  serve-Served (field_request_info field) d ready = elim (Option-cases (get_elem? d.fields field)) [
    | inl missing ↦
        (d, _, rw (field_at_lem field_of file_of d field, missing) refl, inl (missing, refl, refl))
    | inr (f, found) ↦ elim (Bool-cases (is_success (field_of.read f).0)) [
      | inl fine ↦ (
        d,
        _,
        rw (field_at_lem field_of file_of d field, found, fine) refl,
        inr (inl (f, found, (refl, inl (fine, refl)))),
      )
      | inr failed ↦ (
        d,
        _,
        rw (field_at_lem field_of file_of d field, found, failed) refl,
        inr (inl (f, found, (refl, inr (failed, refl)))),
      )
    ]
  ]
  serve-Served (field_read field) d ready = elim (Option-cases (get_elem? d.fields field)) [
    | inl missing ↦
        (d, _, rw (field_at_lem field_of file_of d field, missing) refl, inl (missing, refl, refl))
    | inr (f, found) ↦ elim (Bool-cases (is_success (field_of.read f).0)) [
      | inl fine ↦ (
        d,
        _,
        rw (field_at_lem field_of file_of d field, found, fine) refl,
        inr (inl (f, found, (refl, inl (fine, refl)))),
      )
      | inr failed ↦ (
        d,
        _,
        rw (field_at_lem field_of file_of d field, found, failed) refl,
        inr (inl (f, found, (refl, inr (failed, refl)))),
      )
    ]
  ]
  serve-Served (field_write field buffer) d ready = elim (Option-cases (get_elem? d.fields field)) [
    | inl missing ↦
        (d, _, rw (field_at_lem field_of file_of d field, missing) refl, inl (missing, refl, refl))
    | inr (f, found) ↦ elim (Option-cases (field_of.write f buffer)) [
      | inl outside ↦ absurd (ready f found outside)
      | inr ((f', result), ran) ↦ elim (Bool-cases (is_success result)) [
        | inl fine ↦ (
          _,
          _,
          rw (field_at_lem field_of file_of d field, found, ran, fine) refl,
          inr (inl (f, found, (f', result, ran, refl, inl (fine, refl)))),
        )
        | inr failed ↦ (
          _,
          _,
          rw (field_at_lem field_of file_of d field, found, ran, failed) refl,
          inr (inl (f, found, (f', result, ran, refl, inr (failed, refl)))),
        )
      ]
    ]
  ]
  serve-Served (file_request_info file flags) d ready =
      elim (Option-cases (get_elem? d.files file)) [
        | inl missing ↦ (d, _, rw missing refl, inl (missing, refl, refl))
        | inr (g, found) ↦ (d, _, rw found refl, inr (inr (g, found, (refl, refl))))
      ]
  serve-Served (file_read file offset n) d ready = elim (Option-cases (get_elem? d.files file)) [
    | inl missing ↦ (d, _, rw missing refl, inl (missing, refl, refl))
    | inr (g, found) ↦ elim (Bool-cases (ltb file_max_chunk_length n)) [
      | inl long ↦ (
        d,
        _,
        rw (found, long) refl,
        inr (inr (g, found, (refl, inl (ground (arith, long), refl)))),
      )
      | inr fits ↦
          let small : n ≤ file_max_chunk_length = ground (arith, fits) in
          elim (Option-cases (file_of.read_chunk g offset stack n)) [
            | inl outside ↦ absurd (ready g found small outside)
            | inr ((true, buffer), ran) ↦ (
              d,
              _,
              rw (found, fits, ran) refl,
              inr (inr (g, found, (refl, inr (small, true, buffer, ran, refl)))),
            )
            | inr ((false, buffer), ran) ↦ (
              d,
              _,
              rw (found, fits, ran) refl,
              inr (inr (g, found, (refl, inr (small, false, buffer, ran, refl)))),
            )
          ]
    ]
  ]
  serve-Served (file_write file offset []) d ready = elim (Option-cases (get_elem? d.files file)) [
    | inl missing ↦ (d, _, rw missing refl, inl (missing, refl, refl))
    | inr (g, found) ↦ elim (Bool-cases (offset == 0)) [
      | inl first ↦ (
        _,
        _,
        rw (found, first) refl,
        inr (inr (g, found, (_, _, inl (ground (arith, first), refl), refl, refl))),
      )
      | inr last ↦ (
        _,
        _,
        rw (found, last) refl,
        inr (inr (g, found, (_, _, inr (ground (arith, last), refl), refl, refl))),
      )
    ]
  ]
  serve-Served (file_write file offset (b ∷ chunk)) d ready =
      elim (Option-cases (get_elem? d.files file)) [
        | inl missing ↦ (d, _, rw missing refl, inl (missing, refl, refl))
        | inr (g, found) ↦ elim (Option-cases (file_of.write_chunk g offset (b ∷ chunk))) [
          | inl outside ↦ absurd (ready g found outside)
          | inr ((ok, g'), ran) ↦
              (_, _, rw (found, ran) refl, inr (inr (g, found, (ok, g', ran, refl, refl))))
        ]
      ]
