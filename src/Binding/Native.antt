-- ===== src/Binding/Native.antt =====
-- src/lib.rs: the functions of the native module that generate identifiers for the JavaScript modules
-- and take no timestamp there, over the state of the process.
use rivid.Common.{
  ℕ, zero, suc, ◌≤◌, ◌≡◌, refl, ap, inr, true, Option, none, List, Bytes, length, if◌then◌else◌,
  arith,
}
use rivid.Engine.Monotonic.{World, MonotonicState, id_of}
use rivid.Engine.Monotonic.Increasing.{Passes, advance-some}
use rivid.Engine.Rng.{System}
use rivid.Engine.Batch.{ulid_strings, ulid_block_secure}
use rivid.Engine.Uuidv7
use rivid.Engine.Uuidv7.{generate_strings, block_strings}
use rivid.Js.{ℤ, pos, Number, Outcome, returns, throws, native_count}
use rivid.Binding.Source.{Source, max_batch, last_time}
use rivid.Binding.Batches.{is_batch, as_usize, generate_many}
use rivid.Binding.Generators.{Thread, explicit_ts, or_now, ulid}
use rivid.Binding.Generators.Stamps.{next-IsStamped}
use rivid.Binding.Generators.{new_generator}

-- The outcome of a call, with the state that it leaves where it returns.
abbrev pub leaving {ℓ κ} : {A : Type ℓ} {S : Type κ} → Outcome A → S → Outcome (A × S)
leaving (returns a) s = returns (a, s)
leaving (throws e) s = throws e

abbrev pub with_process {ℓ κ μ} :
    {A : Type ℓ} {S : Type κ} {R : Type μ} → Outcome (A × S) → (S → R) → Outcome (A × R)
with_process (returns (a, s)) f = returns (a, f s)
with_process (throws e) f = throws e

-- The clock passes every millisecond after some number of readings.
abbrev pub IsPassing : World → Type 0
IsPassing world = (ms : ℕ) (w : world.State) → (rounds : ℕ) × Passes world rounds ms w

module _ (system : System) (passing : IsPassing system.world) where
  open system use {world}
  open world use {State, now_ms}

  -- The state of `monotonicUlid`, and that of the thread.
  abbrev pub Process : Type 0
  Process = MonotonicState × Thread system

  -- `next_secure_at` with as many readings of the clock as the wait for the next millisecond takes.
  pub next_secure_at : ℕ → MonotonicState → State → MonotonicState × State
  next_secure_at now mono w =
      let (rounds, passes) = passing mono.last_ms w in
      (advance-some world rounds now mono w (inr (inr passes))).0

  unfoldable pub monotonic_ulid : Option Number → Process → Outcome (Bytes × Process)
  unfolding next_secure_at
  monotonic_ulid timestamp_ms (mono, (pool, w)) = elim (explicit_ts timestamp_ms) [
    | throws e ↦ throws e
    | returns ts ↦
        let (now, w1) = or_now system ts w in
        let (mono', w2) = next_secure_at now mono w1 in returns (id_of mono', (mono', (pool, w2)))
  ]

  unfoldable pub generate_uuid_v7_many : ℤ → State → Outcome (List Bytes × State)
  generate_uuid_v7_many count w =
      if is_batch count
      then returns (generate_strings world (as_usize count) w)
      else throws (native_count count)

  abbrev pub ulid_now : Process → Outcome (Bytes × Process)
  ulid_now (mono, t) = leaving (ulid system none t).0 (mono, (ulid system none t).1)

  abbrev pub uuidv7_now : Process → Outcome (Bytes × Process)
  uuidv7_now (mono, (pool, w)) =
      let (id, w1) = Uuidv7.generate world w in returns (id, (mono, (pool, w1)))

  abbrev pub ulids_now : ℕ → Process → Outcome (List Bytes × Process)
  ulids_now n (mono, (pool, w)) =
      with_process (generate_many world (pos n) w) (λ w1. (mono, (pool, w1)))

  abbrev pub uuids_now : ℕ → Process → Outcome (List Bytes × Process)
  uuids_now n (mono, (pool, w)) =
      with_process (generate_uuid_v7_many (pos n) w) (λ w1. (mono, (pool, w1)))

  abbrev pub clock_of : Process → ℕ
  clock_of (mono, (pool, w)) = (now_ms w).0

  pub ulid_now-returns :
      (s : Process)
      → clock_of s ≤ last_time
      → (id : Bytes) × (t : Process) × (ulid_now s ≡ returns (id, t))
  ulid_now-returns (mono, (pool, w)) h =
      let (made, _) = next-IsStamped system none (new_generator none) pool w (omega (arith, h)) in
      let (id, t, e, _) = made in (id, (mono, t), ap (λ r. leaving r.0 (mono, r.1)) e)

  length-ulid_strings : (n ts : ℕ) (w : State) → length (ulid_strings world n ts w).0 ≡ n
  unfolding ulid_strings
  length-ulid_strings zero ts w = refl
  length-ulid_strings (suc n) ts w =
      ap suc (length-ulid_strings n ts (ulid_block_secure world ts w).1)

  length-block_strings : (n ts : ℕ) (w : State) → length (block_strings world n ts w).0 ≡ n
  unfolding block_strings
  length-block_strings zero ts w = refl
  length-block_strings (suc n) ts w =
      ap suc (length-block_strings n ts (Uuidv7.generate_block world ts w).1)

  few_are_batch : (n : ℕ) → n ≤ max_batch → is_batch (pos n) ≡ true
  few_are_batch n h = ground (arith, h)

  pub ulids_now-returns :
      (n : ℕ) (s : Process)
      → n ≤ max_batch
      → (ids : List Bytes) × (t : Process) × (ulids_now n s ≡ returns (ids, t)) × (length ids ≡ n)
  unfolding generate_many
  ulids_now-returns n (mono, (pool, w)) h =
      let made = ulid_strings world n (now_ms w).0 (now_ms w).1 in
      (
        made.0,
        (mono, (pool, made.1)),
        rw (few_are_batch n h) refl,
        length-ulid_strings n (now_ms w).0 (now_ms w).1,
      )

  pub uuids_now-returns :
      (n : ℕ) (s : Process)
      → n ≤ max_batch
      → (ids : List Bytes) × (t : Process) × (uuids_now n s ≡ returns (ids, t)) × (length ids ≡ n)
  unfolding generate_uuid_v7_many generate_strings
  uuids_now-returns n (mono, (pool, w)) h =
      let made = block_strings world n (now_ms w).0 (now_ms w).1 in
      (
        made.0,
        (mono, (pool, made.1)),
        rw (few_are_batch n h) refl,
        length-block_strings n (now_ms w).0 (now_ms w).1,
      )

  pub uuidv7_now-returns :
      (s : Process) → (id : Bytes) × (t : Process) × (uuidv7_now s ≡ returns (id, t))
  uuidv7_now-returns (mono, (pool, w)) = (_, _, refl)

  -- The native module as the JavaScript modules see it.
  abbrev pub native_source : Source
  native_source = record {
    State = Process;
    clock = clock_of;
    ulid = ulid_now;
    monotonic_ulid = monotonic_ulid none;
    uuidv7 = uuidv7_now;
    generate_many = ulids_now;
    generate_uuidv7_many = uuids_now;
    ulid-returns = ulid_now-returns;
    uuidv7-returns = uuidv7_now-returns;
    generate_many-returns = ulids_now-returns;
    generate_uuidv7_many-returns = uuids_now-returns;
  }
