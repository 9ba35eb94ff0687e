-- ===== src/Runs/Threads.antt =====
-- A generator with a seed at a clock that stands still, and a pool that is filled with one word.
use rivid.Common.{
  ℕ, ◌+◌, ◌≡◌, refl, ◌⊎◌, none, some, false, true, List, [], ◌∷◌, Bytes, codes, length, take, drop,
  replicate, arith,
}
use rivid.Js.{integer, pos, negsuc, fractional, returns, throws}
use rivid.Engine.Crockford
use rivid.Engine.Monotonic.{World, fresh, id_of}
use rivid.Engine.Monotonic.Increasing.{IsSteady}
use rivid.Engine.Monotonic.Sequence.{IsAscending}
use rivid.Engine.Rng.{System, split_mix, empty_pool, next_pooled}
use rivid.Engine.Rng.Pool.{draws, fillings, draws-fillings}
use rivid.Binding.Batches.{IsStamped}
use rivid.Binding.Generators.{
  UlidGenerator, Thread, new_generator, ulid, next, is_timestamp, ts_out_of_range, encode_time,
}
use rivid.Binding.Generators.Prefix.{IsFront, encode_time-ulid}
use rivid.Binding.Generators.Calls.{Call, run}
use rivid.Binding.Generators.Interleaved.{IsStuckRun, run-IsAscending}
use rivid.Binding.Generators.Stamps.{given, next-IsStamped}
use rivid.Binding.Generators.Reproducible.{next_outcomes, next_outcomes-seed}

abbrev quiet : World
quiet = record {
  State = ℕ;
  next_u64 = λ w. (7, w + 1);
  now_ms = λ w. (1000, w);
  next_u64-lt = λ w. omega arith;
}

abbrev machine : System
machine = record { world = quiet; fill = λ w. (replicate 32 w, w + 1); length-fill = λ w. refl }

quiet-IsSteady : IsSteady quiet
quiet-IsSteady w = (omega arith, omega arith)

-- The first outputs of SplitMix64 for the seed 0 are those of its reference implementation.
split_mix-zero : (split_mix 0).0 ≡ 0xE220A8397B1DCDAF
unfolding split_mix
split_mix-zero = refl

draws-two_fillings : drop 31 (draws machine 33 empty_pool 5) ≡ 5 ∷ 6 ∷ []
unfolding draws next_pooled
draws-two_fillings = refl

draws-fillings_example : draws machine 34 empty_pool 5 ≡ take 34 (fillings machine 34 5)
draws-fillings_example = draws-fillings machine 34 5

abbrev calls : List Call
calls =
    Call.monotonic (some (integer (pos 5)))
    ∷ Call.next none
    ∷ Call.monotonic (some (integer (pos 3)))
    ∷ Call.next_many (pos 2)
    ∷ Call.monotonic (some (fractional (pos 1)))
    ∷ Call.monotonic_many (pos 2)
    ∷ []

run-IsAscending_example :
    ((ids : List Bytes) × (run machine 1 calls (new_generator (some 42)) (empty_pool, 0) ≡ some ids)
      × IsAscending (id_of fresh ∷ ids))
    ⊎ ((run machine 1 calls (new_generator (some 42)) (empty_pool, 0) ≡ none)
        × IsStuckRun machine 1 calls (new_generator (some 42)) (empty_pool, 0))
run-IsAscending_example = run-IsAscending machine 1 (some 42) calls (empty_pool, 0) quiet-IsSteady

next-IsStamped_example :
    ((id : Bytes) × (t : Thread machine) × (ulid machine (given (some 77)) (empty_pool, 0)
        ≡ (returns id, t))
      × IsStamped 77 id)
    × ((id : Bytes) × (g' : UlidGenerator) × (t : Thread machine) × (next machine
            (given (some 77))
            (new_generator (some 42))
            (empty_pool, 0)
          ≡ (returns id, g', t))
        × IsStamped 77 id)
next-IsStamped_example =
    next-IsStamped machine (some 77) (new_generator (some 42)) empty_pool 0 (omega arith)

abbrev other_machine : System
other_machine = record { world = quiet; fill = λ w. (replicate 32 1, w); length-fill = λ w. refl }

next_outcomes-seed_example :
    next_outcomes machine
      (integer (pos 77) ∷ fractional (negsuc 0) ∷ integer (pos 78) ∷ [])
      (new_generator (some 42))
      (empty_pool, 0)
    ≡ next_outcomes other_machine
        (integer (pos 77) ∷ fractional (negsuc 0) ∷ integer (pos 78) ∷ [])
        (new_generator (some 42))
        (empty_pool, 9)
next_outcomes-seed_example =
    next_outcomes-seed machine other_machine
      (integer (pos 77) ∷ fractional (negsuc 0) ∷ integer (pos 78) ∷ []) 42 (empty_pool, 0)
      (empty_pool, 9)

encode_time-ulid_example :
    ((is_timestamp (integer (pos 77)) ≡ true)
      × ((s : Bytes) × (encode_time (integer (pos 77)) ≡ returns s)
          × (length s ≡ 10)
          × IsFront machine (integer (pos 77)) (empty_pool, 0) s))
    ⊎ ((is_timestamp (integer (pos 77)) ≡ false)
        × (encode_time (integer (pos 77)) ≡ throws (ts_out_of_range (integer (pos 77))))
        × (ulid machine (some (integer (pos 77))) (empty_pool, 0)
            ≡ (throws (ts_out_of_range (integer (pos 77))), (empty_pool, 0))))
encode_time-ulid_example = encode_time-ulid machine (integer (pos 77)) (empty_pool, 0)

encode_time-last : encode_time (integer (pos 281474976710655)) ≡ returns (codes "7ZZZZZZZZZ")
unfolding encode_time Crockford.encode_time
encode_time-last = refl
