-- ===== src/Hub/Tests.antt =====
-- A hub of two devices with the addresses 1 and 2, known by the numbers 10 and 20.
use i2c.Prelude.{ℕ, ◌≡◌, [], ◌∷◌, arith}
use i2c.Hub.{Entry, device_request_info, device_reserved_id}
use i2c.Hub.Routing.{device_request_info_broadcast}

abbrev first : Entry ℕ
first = record { address = 1; node = 10 }

abbrev second : Entry ℕ
second = record { address = 2; node = 20 }

device_request_info_broadcast_example :
    device_request_info (first ∷ second ∷ []) device_reserved_id
    ≡ record { node = 10; destination = 1; refs = 0 }
      ∷ record { node = 20; destination = 2; refs = 1 }
      ∷ []
device_request_info_broadcast_example =
    device_request_info_broadcast (first ∷ second ∷ []) (omega arith)
