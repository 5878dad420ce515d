-- ===== src/Queue/Tests.antt =====
-- Runs of a queue for three values.
use i2c.Prelude.{ℕ, ◌≡◌, refl, some, none, List, [], ◌∷◌, arith}
use i2c.Queue.{Queue, advance, push, pop}
use i2c.Queue.Refine.{Represents, slot}
use i2c.Queue.Calls.{Call, put, get, run, run_list, run_refines}

-- 8 and then 9, round the end of the array.
abbrev wrapped : Queue ℕ
wrapped = record { storage = 9 ∷ 7 ∷ 8 ∷ []; elements = 2; head = 2; tail = 1 }

wrapped-Represents : Represents 3 wrapped (8 ∷ 9 ∷ [])
unfolding advance slot
wrapped-Represents = record {
  sized = refl;
  bounded = omega arith;
  head_in = omega arith;
  count = refl;
  fits = omega arith;
  tail_at = refl;
  window = (refl, (refl, tt));
}

abbrev calls : List (Call ℕ)
calls = get ∷ put 4 ∷ put 5 ∷ get ∷ get ∷ get ∷ []

run-calls : run 3 calls wrapped ≡ some (8 ∷ 9 ∷ 4 ∷ 5 ∷ [])
unfolding run push pop advance
run-calls = refl

-- The fourth value does not fit.
calls_refused : run 3 (put 4 ∷ put 5 ∷ []) wrapped ≡ none
unfolding run push pop advance
calls_refused = refl

run_refines_example : run 3 calls wrapped ≡ run_list 3 calls (8 ∷ 9 ∷ [])
run_refines_example = run_refines 3 calls wrapped (8 ∷ 9 ∷ []) wrapped-Represents
