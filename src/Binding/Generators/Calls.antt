-- ===== src/Binding/Generators/Calls.antt =====
-- Calls of a generator's methods in any order, and what the monotonic ones return.
use rivid.Common.{ℕ, Option, none, some, List, [], ◌∷◌, ◌++◌, Bytes}
use rivid.Js.{ℤ, Number, Outcome, returns, throws}
use rivid.Engine.Rng.{System}
use rivid.Binding.Generators
use rivid.Binding.Generators.{UlidGenerator, Called, Thread}

pub data Call : Type 0 where
  next : Option Number → Call
  monotonic : Option Number → Call
  next_many : ℤ → Call
  monotonic_many : ℤ → Call

abbrev pub outcome_ids : Outcome (List Bytes) → List Bytes
outcome_ids (returns ids) = ids
outcome_ids (throws e) = []

-- The identifiers that a monotonic call returns; those of other calls are left out.
abbrev pub issued : Call → Outcome (List Bytes) → List Bytes
issued (Call.next ts) o = []
issued (Call.next_many count) o = []
issued (Call.monotonic ts) o = outcome_ids o
issued (Call.monotonic_many count) o = outcome_ids o

abbrev pub with_ids : List Bytes → Option (List Bytes) → Option (List Bytes)
with_ids ids none = none
with_ids ids (some rest) = some (ids ++ rest)

module _ (system : System) where
  abbrev pub one : Outcome Bytes × UlidGenerator × Thread system → Called (Thread system)
  one (returns id, g, t) = record { outcome = returns (id ∷ []); generator = g; thread = t }
  one (throws e, g, t) = record { outcome = throws e; generator = g; thread = t }

  unfoldable pub call : ℕ → Call → UlidGenerator → Thread system → Option (Called (Thread system))
  call rounds (Call.next ts) g t = some (one (Generators.next system ts g t))
  call rounds (Call.monotonic ts) g t = Generators.monotonic system rounds ts g t
  call rounds (Call.next_many count) g t = some (Generators.next_many system count g t)
  call rounds (Call.monotonic_many count) g t = Generators.monotonic_many system rounds count g t

  abbrev pub then_calls :
      Call
      → (UlidGenerator → Thread system → Option (List Bytes))
      → Option (Called (Thread system))
      → Option (List Bytes)
  then_calls c rest none = none
  then_calls c rest (some r) = with_ids (issued c r.outcome) (rest r.generator r.thread)

  -- The identifiers that the monotonic calls of a sequence of calls return.
  unfoldable pub run : ℕ → List Call → UlidGenerator → Thread system → Option (List Bytes)
  run rounds [] g t = some []
  run rounds (c ∷ calls) g t = then_calls c (λ g' t'. run rounds calls g' t') (call rounds c g t)
