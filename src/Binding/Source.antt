-- ===== src/Binding/Source.antt =====
-- The identifier generators of src/lib.rs, as their callers in JavaScript see them: what a call
-- returns, the state of clock and random numbers it leaves, and the documented limits.
use rivid.Common.{ℕ, ◌≤◌, ◌≡◌, List, Bytes, length}
use rivid.Js.{Outcome, returns}

-- The largest batch, `MAX_BATCH`.
abbrev pub max_batch : ℕ
max_batch = 100000000

-- The last millisecond of a ULID, `TIME_MAX`.
abbrev pub last_time : ℕ
last_time = 281474976710655

pub record Source : Type 1 where
  pub State : Type 0
  pub clock : State → ℕ
  pub ulid : State → Outcome (Bytes × State)
  pub monotonic_ulid : State → Outcome (Bytes × State)
  pub uuidv7 : State → Outcome (Bytes × State)
  pub generate_many : ℕ → State → Outcome (List Bytes × State)
  pub generate_uuidv7_many : ℕ → State → Outcome (List Bytes × State)
  -- Within the limits a call returns as many identifiers as it was asked for.
  pub ulid-returns :
      (s : State) → clock s ≤ last_time → (id : Bytes) × (t : State) × (ulid s ≡ returns (id, t))
  pub uuidv7-returns : (s : State) → (id : Bytes) × (t : State) × (uuidv7 s ≡ returns (id, t))
  pub generate_many-returns :
      (n : ℕ) (s : State)
      → n ≤ max_batch
      → (ids : List Bytes) × (t : State) × (generate_many n s ≡ returns (ids, t)) × (length ids ≡ n)
  pub generate_uuidv7_many-returns :
      (n : ℕ) (s : State)
      → n ≤ max_batch
      → (ids : List Bytes) × (t : State) × (generate_uuidv7_many n s ≡ returns (ids, t))
        × (length ids ≡ n)
