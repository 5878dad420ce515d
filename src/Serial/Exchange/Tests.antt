-- ===== src/Serial/Exchange/Tests.antt =====
-- A client asks the second device of a hub for its second field.
use i2c.Prelude.{ℕ, ◌+◌, ◌≡◌, refl, false, some, List, [], ◌∷◌, arith, replicate, length}
use i2c.Queue.{advance, push, fresh}
use i2c.Core.{FieldType, size_of_field_type}
use i2c.Pool.{RequestPool, make, push_elements}
use i2c.Hub.{Entry}
use i2c.Crc.FastCrc8
use i2c.File.MemoryFile.{MemoryFile}
use i2c.Device.Field.{Template, VolatileField, volatile_field}
use i2c.Device.Internal.{Internal}
use i2c.Device.Internal.Files.{memory_file}
use i2c.Serial.Parser.Frames.{frame}
use i2c.Serial.Handler.{Descriptor, Handler, DeviceInfo}
use i2c.Serial.Handler.Requests.{Sound}
use i2c.Serial.Handler.Reach.{started-Sound}
use i2c.Serial.Exchange.{exchange}
use i2c.Serial.Exchange.Value.{exchange-get_value}

abbrev word : Template
word = record {
  width = 2;
  type_value = FieldType.uint16;
  highest = 255 ∷ 255 ∷ [];
  lowest = 0 ∷ 0 ∷ [];
  readonly = false;
  magnitude = 0;
  elements = 1;
  important = false;
}

abbrev height : VolatileField
height = record { name_string = 104 ∷ []; value = 2 ∷ 1 ∷ [] }

abbrev drone : Internal VolatileField MemoryFile
drone = record {
  fields = record { name_string = 115 ∷ []; value = 0 ∷ 0 ∷ [] } ∷ height ∷ [];
  files = [];
}

abbrev devices : List (Internal VolatileField MemoryFile)
devices = record { fields = []; files = [] } ∷ drone ∷ []

abbrev entries : List (Entry ℕ)
entries = record { address = 4; node = 0 } ∷ record { address = 9; node = 1 } ∷ []

abbrev sum : ℕ → List ℕ → ℕ
sum start bytes = start + length bytes

abbrev about : ℕ → DeviceInfo
about place = record {
  hw_major = 1;
  hw_minor = 0;
  sw_revision = 7;
  field_count = 2;
  hash = replicate 12 3;
  name = 100 ∷ [];
}

abbrev first_pool : RequestPool Descriptor
first_pool = record {
  pool = replicate 8 (record { destination = 0; refs = 0; number = 0 });
  requests = record {
    storage = 0 ∷ 1 ∷ 2 ∷ 3 ∷ 4 ∷ 5 ∷ 6 ∷ 7 ∷ [];
    elements = 8;
    head = 0;
    tail = 0;
  };
}

made : make 8 first_pool.pool (replicate 8 0) ≡ some first_pool
unfolding make push_elements push advance fresh
made = refl

exchange-get_value_example :
    (after : Handler) × (exchange
        (volatile_field word)
        (memory_file sum 8 false)
        FastCrc8.update
        (replicate 259 0)
        (replicate 240 0)
        about
        (5 ∷ 9 ∷ 4 ∷ 1 ∷ replicate 252 0)
        4
        entries
        devices
        (record { pool = first_pool; written = [] })
      ≡ some (devices, after))
    × (after.written ≡ frame FastCrc8.update (5 ∷ 9 ∷ 0 ∷ 7 ∷ 2 ∷ 1 ∷ []) ∷ [])
    × Sound after (1 ∷ 2 ∷ 3 ∷ 4 ∷ 5 ∷ 6 ∷ 7 ∷ 0 ∷ []) []
unfolding volatile_field size_of_field_type
exchange-get_value_example =
    exchange-get_value (volatile_field word) (memory_file sum 8 false) 256 FastCrc8.update
      (replicate 259 0) (replicate 240 0) about 5 9 1 2 0 1 (replicate 252 0) (2 ∷ 1 ∷ [])
      (record { address = 4; node = 0 } ∷ []) [] devices drone height
      (record { pool = first_pool; written = [] }) (1 ∷ 2 ∷ 3 ∷ 4 ∷ 5 ∷ 6 ∷ 7 ∷ []) [] (omega arith)
      refl
      (started-Sound FastCrc8.update [] first_pool first_pool.pool (replicate 8 0) refl refl made)
      (omega arith) refl refl refl refl (omega arith) (omega arith)
