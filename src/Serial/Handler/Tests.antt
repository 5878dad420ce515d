-- ===== src/Serial/Handler/Tests.antt =====
-- A handler with one message and one answer.
use i2c.Prelude.{ℕ, ◌+◌, ◌≤◌, ◌≡◌, ◌≢◌, refl, none, some, List, [], ◌∷◌, ◌++◌, arith, replicate}
use i2c.Queue.{is_empty, advance, push, pop, fresh}
use i2c.Pool.{RequestPool, make, push_elements, alloc, count}
use i2c.Pool.Ownership.{occurrences}
use i2c.Device.{on_field_updated}
use i2c.Crc.FastCrc8
use i2c.Serial.Packet.{command, query, Query}
use i2c.Serial.Reply.{make_default_header}
use i2c.Serial.Handler.{
  Descriptor, descriptor, Handler, Call, finish, process_with, process, response, on_event,
}
use i2c.Serial.Handler.Answers.{framed_response}
use i2c.Serial.Handler.Reach.{
  started, started-IsSound, Reach, here, next, message, Reach-conserves, Reach-answers,
  process_total,
}

-- The pool as it is constructed.
abbrev first_pool : RequestPool Descriptor
first_pool = record {
  pool = replicate 8 (record { destination = 0; refs = 0; number = 0 });
  requests = record {
    storage = 0 ∷ 1 ∷ 2 ∷ 3 ∷ 4 ∷ 5 ∷ 6 ∷ 7 ∷ [];
    elements = 8;
    head = 0;
    tail = 0;
  };
}

made : make 8 first_pool.pool (replicate 8 0) ≡ some first_pool
unfolding make push_elements push advance fresh
made = refl

-- GET_VALUE of field 2 of the device 9, with the number 5.
abbrev get_value : List ℕ
get_value = 5 ∷ 9 ∷ 4 ∷ 2 ∷ replicate 252 0

abbrev asked : Descriptor
asked = record { destination = 9; refs = 0; number = 5 }

abbrev one_waits : Handler
one_waits = record {
  pool = record {
    pool = asked ∷ replicate 7 (record { destination = 0; refs = 0; number = 0 });
    requests = record {
      storage = 0 ∷ 1 ∷ 2 ∷ 3 ∷ 4 ∷ 5 ∷ 6 ∷ 7 ∷ [];
      elements = 7;
      head = 1;
      tail = 0;
    };
  };
  written = [];
}

abbrev the_call : Call
the_call = record { token = 0; address = 9; asked = Query.device (i2c.Hub.Request.field_read 2) }

process_run :
    process get_value 4 (record { pool = first_pool; written = [] })
    ≡ some (one_waits, some the_call)
unfolding process alloc process_with finish command query pop advance push descriptor is_empty
process_run = refl

one_step :
    Reach FastCrc8.update
      (replicate 259 0)
      (started first_pool)
      (record { handler = one_waits; waiting = 0 ∷ [] })
one_step = next here (message _ one_waits [] get_value 4 (some the_call) process_run)

Reach-conserves_example : (count one_waits.pool + 1 ≡ 8) × ((i : ℕ) → occurrences i (0 ∷ []) ≤ 1)
Reach-conserves_example =
    Reach-conserves FastCrc8.update (replicate 259 0) first_pool first_pool.pool (replicate 8 0)
      (record { handler = one_waits; waiting = 0 ∷ [] }) refl refl made one_step

Reach-answers_example :
    (after : Handler) × (on_event FastCrc8.update (replicate 259 0) 0 (on_field_updated 2) one_waits
      ≡ some after)
    × (after.written
        ≡ [] ++ framed_response 256 FastCrc8.update (replicate 259 0) (some (5 ∷ 9 ∷ 0 ∷ [])))
    × Reach FastCrc8.update
        (replicate 259 0)
        (started first_pool)
        (record { handler = after; waiting = [] })
unfolding response make_default_header
Reach-answers_example =
    Reach-answers 256 FastCrc8.update (replicate 259 0) first_pool first_pool.pool (replicate 8 0)
      one_waits [] [] 0 (on_field_updated 2) asked (some (5 ∷ 9 ∷ 0 ∷ [])) (omega arith) refl refl
      refl made one_step refl refl

process_total_example : process get_value 4 (record { pool = first_pool; written = [] }) ≢ none
process_total_example =
    process_total get_value 4 (omega arith) (omega arith) (omega arith)
      (record { pool = first_pool; written = [] })
      (started-IsSound FastCrc8.update [] first_pool first_pool.pool (replicate 8 0) refl refl
        made).0
      []
      (started-IsSound FastCrc8.update [] first_pool first_pool.pool (replicate 8 0) refl refl
        made).1
