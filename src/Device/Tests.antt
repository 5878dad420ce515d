-- ===== src/Device/Tests.antt =====
-- A device with two fields of 16 bits and a file of up to 8 bytes.
use i2c.Prelude.{
  ℕ, zero, suc, ◌+◌, ◌⊎◌, ap, ◌∙◌, leb, ◌≡◌, ◌≢◌, refl, Bool, true, false, none, some, List, [],
  ◌∷◌, arith, replicate, length, get_elem?,
}
use i2c.Core.{FieldType, Result}
use i2c.Device.{on_field_received, on_field_updated}
use i2c.Device.Field.{
  Template, VolatileField, volatile_field, volatile_write, load, ExtendedField, extended_field,
}
use i2c.Device.Field.Stored.{extended_write_bounds}
use i2c.Device.Internal.{Internal, serve, read_field, write_field, find_index}
use i2c.Device.Internal.Fields.{Served, serve-Served}
use i2c.Device.Internal.Update.{read_field-write_field}
use i2c.Device.Internal.Files.{memory_file}
use i2c.Device.Internal.Transfer.{serve_all, upload_requests, successes, upload_served}
use i2c.Device.Internal.Index.{IsFirst, find_index_lem, find_index_endless}
use i2c.File.MemoryFile.{MemoryFile, content, is_finalized}
use i2c.File.MemoryFile.Content.{IsValid}
use i2c.Hub.{field_write}

abbrev word : Template
word = record {
  width = 2;
  type_value = FieldType.uint16;
  highest = 255 ∷ 255 ∷ [];
  lowest = 0 ∷ 0 ∷ [];
  readonly = false;
  magnitude = 0;
  elements = 1;
  important = true;
}

abbrev speed : VolatileField
speed = record { name_string = 115 ∷ []; value = 1 ∷ 0 ∷ [] }

abbrev height : VolatileField
height = record { name_string = 104 ∷ []; value = 2 ∷ 0 ∷ [] }

abbrev partial : MemoryFile
partial = record { size = 3; bytes = 1 ∷ 2 ∷ 3 ∷ replicate 5 0; finalized = true }

abbrev sum : ℕ → List ℕ → ℕ
sum start bytes = start + length bytes

abbrev drone : Internal VolatileField MemoryFile
drone = record { fields = speed ∷ height ∷ []; files = partial ∷ [] }

abbrev memory : List ℕ
memory = replicate 240 9

partial-IsValid : IsValid 8 partial
partial-IsValid = record { sized = refl; bounded = omega arith; fits = omega arith }

serve-Served_example :
    Served
      (volatile_field word)
      (memory_file sum 8 false)
      memory
      (field_write 1 (7 ∷ 8 ∷ []))
      drone
      (serve
        (volatile_field word)
        (memory_file sum 8 false)
        memory
        (field_write 1 (7 ∷ 8 ∷ []))
        drone)
unfolding volatile_field volatile_write load
serve-Served_example =
    serve-Served (volatile_field word) (memory_file sum 8 false) memory (field_write 1 (7 ∷ 8 ∷ []))
      drone (λ f found e. cc)

read_field-write_field_example :
    (d' : Internal VolatileField MemoryFile) × (write_field
        (volatile_field word)
        (memory_file sum 8 false)
        true
        1
        (7 ∷ 8 ∷ 9 ∷ [])
        drone
      ≡ some (d', some (on_field_updated 1)))
    × (read_field (volatile_field word) (memory_file sum 8 false) true 1 d'
        ≡ some (on_field_received 1 (7 ∷ 8 ∷ []) FieldType.uint16 1))
    × ((j : ℕ)
        → 1 ≢ j
        → read_field (volatile_field word) (memory_file sum 8 false) true j d'
          ≡ read_field (volatile_field word) (memory_file sum 8 false) true j drone)
read_field-write_field_example =
    read_field-write_field (memory_file sum 8 false) word drone 1 height (7 ∷ 8 ∷ 9 ∷ []) refl refl
      (omega arith)

upload_served_example :
    let requests = upload_requests 0 ((7 ∷ 8 ∷ []) ∷ (9 ∷ []) ∷ []) in
    (d' : Internal VolatileField MemoryFile) × (final : MemoryFile) × (serve_all
        (volatile_field word)
        (memory_file sum 8 false)
        memory
        requests
        drone
      ≡ some (d', successes requests))
    × (get_elem? d'.files 0 ≡ some final)
    × (content final ≡ 7 ∷ 8 ∷ 9 ∷ [])
    × (is_finalized final ≡ true)
    × ((j : ℕ) → 0 ≢ j → get_elem? d'.files j ≡ get_elem? drone.files j)
upload_served_example =
    upload_served (volatile_field word) sum 8 memory 0 ((7 ∷ 8 ∷ []) ∷ (9 ∷ []) ∷ []) partial drone
      partial-IsValid refl (omega arith) (omega arith) (omega arith) (omega arith)

find_index_lem_example :
    (k : ℕ) × (find_index
        (volatile_field word)
        (memory_file sum 8 false)
        3
        0
        (104 ∷ [])
        drone.fields
      ≡ some k)
    × IsFirst (volatile_field word) (memory_file sum 8 false) (104 ∷ []) drone.fields k
find_index_lem_example =
    find_index_lem (volatile_field word) (memory_file sum 8 false) (104 ∷ []) drone.fields
      (omega arith)

abbrev at_most : List ℕ → List ℕ → Bool
at_most (a ∷ as') (b ∷ bs) = leb a b
at_most _ _ = true

abbrev gain : ExtendedField
gain = record {
  name_string = 103 ∷ [];
  value = 5 ∷ 0 ∷ [];
  max_value = 9 ∷ 0 ∷ [];
  min_value = 2 ∷ 0 ∷ [];
  unit_string = [];
}

extended_write_bounds_example :
    (f' : ExtendedField) × (result : Result) × ((extended_field word at_most).write gain
        (7 ∷ 0 ∷ [])
      ≡ some (f', result))
    × (at_most f'.min_value f'.value ≡ true)
    × (at_most f'.value f'.max_value ≡ true)
    × (((f'.value ≡ 7 ∷ 0 ∷ []) × (result ≡ Result.success))
        ⊎ ((f' ≡ gain) × (result ≢ Result.success)))
extended_write_bounds_example =
    extended_write_bounds word at_most gain (7 ∷ 0 ∷ []) refl refl (omega arith)

get_elem?-replicate : (n j : ℕ) (a v : VolatileField) → get_elem? (replicate n a) j ≡ some v → a ≡ v
get_elem?-replicate zero j a v e = cc
get_elem?-replicate (suc n) zero a v e = cc
get_elem?-replicate (suc n) (suc j) a v e = get_elem?-replicate n j a v e

speed-name : (f : VolatileField) → speed ≡ f → f.name_string ≢ []
speed-name f same e = absurd (wrong (ap (λ (f : VolatileField). f.name_string) same ∙ e))
  where
    wrong : {x : ℕ} → x ∷ [] ≡ [] → ⊥
    wrong e = cc

find_index_endless_example :
    find_index (volatile_field word) (memory_file sum 8 false) 1000 7 [] (replicate 256 speed)
    ≡ none
unfolding volatile_field
find_index_endless_example =
    find_index_endless (volatile_field word) (memory_file sum 8 false) [] (replicate 256 speed)
      (omega arith) (λ j f h found. speed-name f (get_elem?-replicate 256 j speed f found)) 1000 7
      (omega arith)
