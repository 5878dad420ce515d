-- ===== src/Device/Internal/Update.antt =====
-- What the fields of a device hold after a write through the device.
use i2c.Prelude.{
  ℕ, ◌≤◌, ◌≡◌, ◌≢◌, refl, sym, ap, ◌∙◌, true, false, some, List, length, get_elem?, set, take,
  get_elem?-set_self, get_elem?-set_ne, lt_of_get_elem?,
}
use i2c.Device.{on_field_received, on_field_updated}
use i2c.Device.Field.{Template, VolatileField, volatile_field}
use i2c.Device.Field.Stored.{read-write}
use i2c.Device.Internal.{
  AbstractFile, Internal, read_event, read_with, write_event, write_with, read_field, write_field,
}
use i2c.Device.Internal.Fields.{field_at_lem}

-- A field of a device that is not read-only is updated by a write of a long enough value, and reads
-- back that value, with the field's type and dimension; every other field reads as before.
pub read_field-write_field {κ} :
    {G : Type κ} (file_of : AbstractFile G) (t : Template) (d : Internal VolatileField G) (i : ℕ)
    (f : VolatileField) (input : List ℕ)
    → t.readonly ≡ false
    → get_elem? d.fields i ≡ some f
    → t.width ≤ length input
    → (d' : Internal VolatileField G) × (write_field (volatile_field t) file_of true i input d
        ≡ some (d', some (on_field_updated i)))
      × (read_field (volatile_field t) file_of true i d'
          ≡ some (on_field_received i (take t.width input) t.type_value t.elements))
      × ((j : ℕ)
          → i ≢ j
          → read_field (volatile_field t) file_of true j d'
            ≡ read_field (volatile_field t) file_of true j d)
unfolding write_field read_field write_with write_event read_with read_event volatile_field
read_field-write_field file_of t d i f input open_field found long =
    let (f', ran, back) = read-write t f input open_field long in
    let d' = record d { fields = set d.fields i f' } in
    (
      d',
      rw (field_at_lem (volatile_field t) file_of d i, found, ran) refl,
      rw
          (
            field_at_lem (volatile_field t) file_of d' i,
            get_elem?-set_self d.fields i f' (lt_of_get_elem? d.fields i f found),
          )
          (ap (λ r. some (read_event (volatile_field t) file_of i f' r)) back),
      λ j other.
          ap (λ o. some (read_with (volatile_field t) file_of j o))
            (field_at_lem (volatile_field t) file_of d' j
              ∙ get_elem?-set_ne d.fields i j f' other
              ∙ sym (field_at_lem (volatile_field t) file_of d j)),
    )
