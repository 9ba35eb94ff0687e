-- ===== src/Binding/Generators.antt =====
-- src/lib.rs: `ulid`, `encode_time`, and the class UlidGenerator. A thread has its pool of random words and the
-- state of clock and random numbers; the locks are left out, since a thread's calls come in turn.
pub mod Stamps
pub mod Prefix
pub mod Reproducible
pub mod Calls
pub mod Chains
pub mod Interleaved
use rivid.Common.{
  ℕ, zero, suc, ◌+◌, Bool, true, false, Option, none, some, List, [], ◌∷◌, ◌++◌, Bytes, ltb, leb,
  if◌then◌else◌,
}
use rivid.Engine.Error.{timestamp_out_of_range}
use rivid.Engine.Bytes.{from_be_bytes}
use rivid.Engine.Crockford
use rivid.Engine.Crockford.{encode_value}
use rivid.Engine.Monotonic.{World, MonotonicState, fresh, from_parts, id_of, advance}
use rivid.Engine.Batch.{ulid_block, ulid_block_secure, ulid_strings}
use rivid.Engine.Rng.{DeterministicRng, new_rng, draw_u64, seeded, System, EntropyPool, random_80}
use rivid.Js.{
  ℤ, pos, negsuc, Number, integer, fractional, not_a_number, infinity, negative_infinity, Thrown,
  native, Outcome, returns, throws, native_time_exceeds, native_count, napi,
}
use rivid.Binding.Source.{last_time}
use rivid.Binding.Ksuids.{as_u64}
use rivid.Binding.Batches.{is_batch, as_usize}

-- An integer from 0 to TIME_MAX.
abbrev pub is_timestamp : Number → Bool
is_timestamp (integer (pos n)) = leb n last_time
is_timestamp (integer (negsuc n)) = false
is_timestamp (fractional n) = false
is_timestamp not_a_number = false
is_timestamp infinity = false
is_timestamp negative_infinity = false

-- The error holds `v as u64`.
abbrev pub ts_out_of_range : Number → Thrown
ts_out_of_range v = native (timestamp_out_of_range (as_u64 v))

unfoldable pub explicit_ts : Option Number → Outcome (Option ℕ)
explicit_ts none = returns none
explicit_ts (some v) =
    if is_timestamp v then returns (some (as_u64 v)) else throws (ts_out_of_range v)

unfoldable pub encode_time : Number → Outcome Bytes
encode_time timestamp_ms =
    if is_timestamp timestamp_ms
    then napi (Crockford.encode_time (as_u64 timestamp_ms))
    else throws (ts_out_of_range timestamp_ms)

pub record UlidGenerator : Type 0 where
  pub mono : MonotonicState
  pub det : Option DeterministicRng

-- The constructor, for the seed as an unsigned number.
unfoldable pub new_generator : Option ℕ → UlidGenerator
new_generator none = record { mono = fresh; det = none }
new_generator (some seed) = record { mono = fresh; det = some (new_rng seed) }

unfoldable pub deterministic : UlidGenerator → Bool
deterministic g = elim g.det [ none ↦ false | some rng ↦ true ]

-- A monotonic step: the states of the generator and of the world that it leaves.
pub record Stepped (State : Type 0) : Type 0 where
  pub mono : MonotonicState
  pub det : Option DeterministicRng
  pub state : State

abbrev pub secure_step : {State : Type 0} → Option (MonotonicState × State) → Option (Stepped State)
secure_step none = none
secure_step (some (s, w)) = some (record { mono = s; det = none; state = w })

abbrev pub seeded_step :
    {State : Type 0} → Option (MonotonicState × (DeterministicRng × State)) → Option (Stepped State)
seeded_step none = none
seeded_step (some (s, (rng, w))) = some (record { mono = s; det = some rng; state = w })

abbrev pub with_step :
    {State : Type 0}
    → Bytes
    → Option (List Bytes × Stepped State)
    → Option (List Bytes × Stepped State)
with_step id none = none
with_step id (some (ids, end)) = some (id ∷ ids, end)

abbrev pub then_steps :
    {State : Type 0}
    → (Stepped State → Option (List Bytes × Stepped State))
    → Option (Stepped State)
    → Option (List Bytes × Stepped State)
then_steps rest none = none
then_steps rest (some s) = with_step (id_of s.mono) (rest s)

-- What a call of a method leaves.
pub record Called (Thread : Type 0) : Type 0 where
  pub outcome : Outcome (List Bytes)
  pub generator : UlidGenerator
  pub thread : Thread

module _ (system : System) where
  open system use {world}
  open world use {State, now_ms}

  abbrev pub Thread : Type 0
  Thread = EntropyPool × State

  -- `unwrap_or_else(now_ms)`
  abbrev pub or_now : Option ℕ → State → ℕ × State
  or_now none w = now_ms w
  or_now (some ts) w = (ts, w)

  -- `encode_stack(ts, random_80())`
  abbrev pub stamp : ℕ → Thread → Bytes × Thread
  stamp ts (pool, w) =
      let (rand, pool', w') = random_80 system pool w in
      (encode_value (from_parts ts rand), (pool', w'))

  pub ulid_at : ℕ × State → EntropyPool → Outcome Bytes × Thread
  ulid_at (ts, w) pool =
      if ltb last_time ts
      then (throws (native_time_exceeds ts), (pool, w))
      else (returns (stamp ts (pool, w)).0, (stamp ts (pool, w)).1)

  unfoldable pub ulid : Option Number → Thread → Outcome Bytes × Thread
  unfolding ulid_at
  ulid timestamp_ms (pool, w) = elim (explicit_ts timestamp_ms) [
    | throws e ↦ (throws e, (pool, w))
    | returns ts ↦ ulid_at (or_now ts w) pool
  ]

  -- `next` for a checked timestamp. Without a seed, an explicit timestamp takes a block of the batch
  -- module and none takes `ulid::generate`.
  pub next_at : Option ℕ → UlidGenerator → Thread → Bytes × UlidGenerator × Thread
  next_at ts g (pool, w) = elim g.det [
    | some rng ↦
        let (t, w1) = or_now ts w in
        let (hi, rng1) = draw_u64 rng in
        let (lo, rng2) = draw_u64 rng1 in
        (
          encode_value (from_be_bytes (ulid_block t hi lo) 0),
          record { mono = g.mono; det = some rng2 },
          (pool, w1),
        )
    | none ↦ elim ts [
      | some t ↦
          let (block, w1) = ulid_block_secure world t w in
          (encode_value (from_be_bytes block 0), g, (pool, w1))
      | none ↦ let (t, w1) = now_ms w in let (id, thread) = stamp t (pool, w1) in (id, g, thread)
    ]
  ]

  unfoldable pub next :
      Option Number → UlidGenerator → Thread → Outcome Bytes × UlidGenerator × Thread
  unfolding next_at
  next timestamp_ms g thread = elim (explicit_ts timestamp_ms) [
    | throws e ↦ (throws e, g, thread)
    | returns ts ↦ let (id, g', thread') = next_at ts g thread in (returns id, g', thread')
  ]

  -- One monotonic step by the generator's own random numbers.
  unfoldable pub advance_by :
      ℕ → Option ℕ → MonotonicState → Option DeterministicRng → State → Option (Stepped State)
  advance_by rounds ts mono none w =
      let (now, w1) = or_now ts w in secure_step (advance world rounds now mono w1)
  advance_by rounds ts mono (some rng) w =
      let (now, w1) = or_now ts w in seeded_step (advance (seeded world) rounds now mono (rng, w1))

  -- `count` steps in turn, each with a reading of the clock.
  unfoldable pub monotonic_loop :
      ℕ → ℕ → MonotonicState → Option DeterministicRng → State → Option (List Bytes × Stepped State)
  monotonic_loop rounds zero mono det w = some ([], record { mono = mono; det = det; state = w })
  monotonic_loop rounds (suc count) mono det w =
      then_steps (λ s. monotonic_loop rounds count s.mono s.det s.state)
        (advance_by rounds none mono det w)

  abbrev pub stepped : EntropyPool → Option (List Bytes × Stepped State) → Option (Called Thread)
  stepped pool none = none
  stepped pool (some (ids, s)) = some (record {
    outcome = returns ids;
    generator = record { mono = s.mono; det = s.det };
    thread = (pool, s.state);
  })

  abbrev pub single : Option (Stepped State) → Option (List Bytes × Stepped State)
  single none = none
  single (some s) = some (id_of s.mono ∷ [], s)

  unfoldable pub monotonic : ℕ → Option Number → UlidGenerator → Thread → Option (Called Thread)
  monotonic rounds timestamp_ms g (pool, w) = elim (explicit_ts timestamp_ms) [
    | throws e ↦ some (record { outcome = throws e; generator = g; thread = (pool, w) })
    | returns ts ↦ stepped pool (single (advance_by rounds ts g.mono g.det w))
  ]

  unfoldable pub next_many : ℤ → UlidGenerator → Thread → Called Thread
  next_many count g (pool, w) =
      if is_batch count
      then (let (ts, w1) = now_ms w in
          elim g.det [
            | some rng ↦
                let (ids, (rng', w2)) = ulid_strings (seeded world) (as_usize count) ts (rng, w1) in
                record {
                  outcome = returns ids;
                  generator = record { mono = g.mono; det = some rng' };
                  thread = (pool, w2);
                }
            | none ↦
                let (ids, w2) = ulid_strings world (as_usize count) ts w1 in
                record { outcome = returns ids; generator = g; thread = (pool, w2) }
          ])
      else record { outcome = throws (native_count count); generator = g; thread = (pool, w) }

  unfoldable pub monotonic_many : ℕ → ℤ → UlidGenerator → Thread → Option (Called Thread)
  monotonic_many rounds count g (pool, w) =
      if is_batch count
      then stepped pool (monotonic_loop rounds (as_usize count) g.mono g.det w)
      else some
          (record { outcome = throws (native_count count); generator = g; thread = (pool, w) })
