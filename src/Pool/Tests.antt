-- ===== src/Pool/Tests.antt =====
-- Runs of a pool of two descriptors; a descriptor is its reference count.
use i2c.Prelude.{ℕ, ◌≡◌, refl, some, [], ◌∷◌, arith}
use i2c.Queue.{advance, push, fresh}
use i2c.Queue.Refine.{slot}
use i2c.Pool.{RequestPool, make, free, push_elements}
use i2c.Pool.Ownership.{Owns}

-- The first descriptor is handed out.
abbrev half : RequestPool ℕ
half = record {
  pool = 5 ∷ 6 ∷ [];
  requests = record { storage = 0 ∷ 1 ∷ []; elements = 1; head = 1; tail = 0 };
}

half-Owns : Owns 2 half (1 ∷ []) (0 ∷ [])
unfolding advance slot
half-Owns = record {
  sized = refl;
  queued = record {
    sized = refl;
    bounded = omega arith;
    head_in = omega arith;
    count = refl;
    fits = omega arith;
    tail_at = refl;
    window = (refl, tt);
  };
  all = refl;
  once = λ i. ground arith;
}

-- Both descriptors are handed out.
abbrev drained : RequestPool ℕ
drained = record {
  pool = 5 ∷ 0 ∷ [];
  requests = record { storage = 0 ∷ 1 ∷ []; elements = 0; head = 0; tail = 0 };
}

drained-Owns : Owns 2 drained [] (1 ∷ 0 ∷ [])
unfolding advance slot
drained-Owns = record {
  sized = refl;
  queued = record {
    sized = refl;
    bounded = omega arith;
    head_in = omega arith;
    count = refl;
    fits = omega arith;
    tail_at = refl;
    window = tt;
  };
  all = refl;
  once = λ i. ground arith;
}

make_run :
    make {A = ℕ} 2 (5 ∷ 6 ∷ []) (0 ∷ 0 ∷ [])
    ≡ some (record {
      pool = 5 ∷ 6 ∷ [];
      requests = record { storage = 0 ∷ 1 ∷ []; elements = 2; head = 0; tail = 0 };
    })
unfolding make push_elements push advance fresh
make_run = refl

-- The descriptor 0 has the reference count 5.
free_shared_run : free 2 (λ r. r) 0 drained ≡ some drained
unfolding free
free_shared_run = refl
