-- ===== src/Binding/Generators/Interleaved.antt =====
-- The monotonic calls among any calls of one generator.
use rivid.Common.{
  ℕ, true, ◌≡◌, refl, sym, subst, ◌⊎◌, inl, inr, Option, none, some, List, [], ◌∷◌, Bytes,
  Bool-cases, Option-cases, arith,
}
use rivid.Js.{
  ℤ, pos, negsuc, Number, integer, fractional, not_a_number, infinity, negative_infinity, returns,
  Outcome-cases,
}
use rivid.Engine.Monotonic.{MonotonicState, fresh, id_of}
use rivid.Engine.Monotonic.Increasing.{IsState, IsSteady}
use rivid.Engine.Monotonic.Sequence.{IsAscending}
use rivid.Engine.Rng.{System}
use rivid.Binding.Batches.{is_batch, as_usize}
use rivid.Binding.Generators
use rivid.Binding.Generators.{
  UlidGenerator, Called, Stepped, Thread, new_generator, explicit_ts, is_timestamp, monotonic,
  monotonic_many, stepped, single, advance_by, monotonic_loop, next_at,
}
use rivid.Binding.Generators.Calls.{Call, issued, with_ids, one, call, then_calls, run}
use rivid.Binding.Generators.Chains.{
  Chain, Chain-append, Chain-IsState, Chain-IsAscending, IsStuckStep, IsStuckLoop, IsTimestamp,
  LoopResult, single-LoopResult, monotonic_loop-LoopResult,
}

explicit-IsTimestamp :
    (v : Option Number) (ts : Option ℕ) → explicit_ts v ≡ returns ts → IsTimestamp ts
unfolding explicit_ts
explicit-IsTimestamp none none h = tt
explicit-IsTimestamp none (some ts) h = absurd (ground (arith, h))
explicit-IsTimestamp (some v) none h = tt
explicit-IsTimestamp (some (integer (pos n))) (some ts) h = ground (arith, h)
explicit-IsTimestamp (some (integer (negsuc n))) (some ts) h = absurd (ground (arith, h))
explicit-IsTimestamp (some (fractional n)) (some ts) h = absurd (ground (arith, h))
explicit-IsTimestamp (some not_a_number) (some ts) h = absurd (ground (arith, h))
explicit-IsTimestamp (some infinity) (some ts) h = absurd (ground (arith, h))
explicit-IsTimestamp (some negative_infinity) (some ts) h = absurd (ground (arith, h))

module _ (system : System) (rounds : ℕ) where
  open system use {world}

  -- The call is a monotonic one, and a step of it is stuck.
  abbrev pub IsStuckCall : Call → UlidGenerator → Thread system → Type 0
  IsStuckCall (Call.next v) g t = ⊥
  IsStuckCall (Call.next_many count) g t = ⊥
  IsStuckCall (Call.monotonic v) g t =
      (ts : Option ℕ) × (explicit_ts v ≡ returns ts) × IsStuckStep system rounds ts g.mono t.1
  IsStuckCall (Call.monotonic_many count) g t =
      (is_batch count ≡ true) × IsStuckLoop system rounds (as_usize count) g.mono g.det t.1

  -- One of the calls is stuck, where those before it lead.
  abbrev pub IsStuckRun : List Call → UlidGenerator → Thread system → Type 0
  IsStuckRun [] g t = ⊥
  IsStuckRun (c ∷ calls) g t =
      IsStuckCall c g t
      ⊎ ((r : Called (Thread system)) × (call system rounds c g t ≡ some r)
          × IsStuckRun calls r.generator r.thread)

  -- What a call makes of the generator: its monotonic identifiers lead from the state before it to
  -- that after it.
  abbrev CallResult : Type 0 → Call → MonotonicState → Option (Called (Thread system)) → Type 0
  CallResult stuck c s none = stuck
  CallResult stuck c s (some r) = Chain s (issued c r.outcome) r.generator.mono

  monotonic-CallResult :
      (v : Option Number) (g : UlidGenerator) (t : Thread system)
      → IsSteady world
      → IsState g.mono
      → CallResult
          (IsStuckCall (Call.monotonic v) g t)
          (Call.monotonic v)
          g.mono
          (monotonic system rounds v g t)
  unfolding monotonic
  monotonic-CallResult v g (pool, w) steady k = elim (Outcome-cases (explicit_ts v)) [
    | inr (e, h) ↦ rw (h, CallResult, monotonic) refl
    | inl (ts, h) ↦
        rw (h, CallResult, monotonic)
          (by_loop ts h (single system (advance_by system rounds ts g.mono g.det w)) (
            single-LoopResult system rounds ts g.mono g.det w steady (explicit-IsTimestamp v ts h)
              k))
  ]
    where
      by_loop :
          (ts : Option ℕ)
          → explicit_ts v ≡ returns ts
          → (o : Option (List Bytes × Stepped world.State))
          → LoopResult system rounds (IsStuckStep system rounds ts g.mono w) g.mono o
          → CallResult
              (IsStuckCall (Call.monotonic v) g (pool, w))
              (Call.monotonic v)
              g.mono
              (stepped system pool o)
      by_loop ts e none h = (ts, e, h)
      by_loop ts e (some (ids, r)) h = h

  monotonic_many-CallResult :
      (count : ℤ) (g : UlidGenerator) (t : Thread system)
      → IsSteady world
      → IsState g.mono
      → CallResult
          (IsStuckCall (Call.monotonic_many count) g t)
          (Call.monotonic_many count)
          g.mono
          (monotonic_many system rounds count g t)
  unfolding monotonic_many
  monotonic_many-CallResult count g (pool, w) steady k = elim (Bool-cases (is_batch count)) [
    | inr other ↦ rw other refl
    | inl fits ↦ rw fits (
        by_loop (monotonic_loop system rounds (as_usize count) g.mono g.det w)
          (monotonic_loop-LoopResult system rounds (as_usize count) g.mono g.det w steady k))
  ]
    where
      by_loop :
          (o : Option (List Bytes × Stepped world.State))
          → LoopResult system rounds
              (IsStuckLoop system rounds (as_usize count) g.mono g.det w)
              g.mono
              o
          → CallResult
              ((true ≡ true) × IsStuckLoop system rounds (as_usize count) g.mono g.det w)
              (Call.monotonic_many count)
              g.mono
              (stepped system pool o)
      by_loop none h = (refl, h)
      by_loop (some (ids, r)) h = h

  -- The other calls leave the monotonic state alone.
  next_at-mono :
      (ts : Option ℕ) (g : UlidGenerator) (t : Thread system)
      → (next_at system ts g t).1.mono ≡ g.mono
  unfolding next_at
  next_at-mono none g (pool, w) = elim (Option-cases g.det) [
    | inl e ↦ rw (e, next_at) refl
    | inr (rng, e) ↦ rw (e, next_at) refl
  ]
  next_at-mono (some ts) g (pool, w) = elim (Option-cases g.det) [
    | inl e ↦ rw (e, next_at) refl
    | inr (rng, e) ↦ rw (e, next_at) refl
  ]

  next-CallResult :
      (v : Option Number) (g : UlidGenerator) (t : Thread system)
      → CallResult ⊥ (Call.next v) g.mono (some (one system (Generators.next system v g t)))
  unfolding Generators.next
  next-CallResult v g t = elim (Outcome-cases (explicit_ts v)) [
    | inr (e, h) ↦ rw (h, CallResult, Generators.next, one) refl
    | inl (ts, h) ↦ rw (h, CallResult, Generators.next, one) (sym (next_at-mono ts g t))
  ]

  next_many-CallResult :
      (count : ℤ) (g : UlidGenerator) (t : Thread system)
      → CallResult ⊥ (Call.next_many count) g.mono (some (Generators.next_many system count g t))
  unfolding Generators.next_many
  next_many-CallResult count g (pool, w) = elim (Bool-cases (is_batch count)) [
    | inr other ↦ rw other refl
    | inl fits ↦ rw fits (elim (Option-cases g.det) [
      | inl e ↦ rw (e, CallResult) refl
      | inr (rng, e) ↦ rw (e, CallResult) refl
    ])
  ]

  call-CallResult :
      (c : Call) (g : UlidGenerator) (t : Thread system)
      → IsSteady world
      → IsState g.mono
      → CallResult (IsStuckCall c g t) c g.mono (call system rounds c g t)
  unfolding call
  call-CallResult (Call.next v) g t steady k = next-CallResult v g t
  call-CallResult (Call.monotonic v) g t steady k = monotonic-CallResult v g t steady k
  call-CallResult (Call.next_many count) g t steady k = next_many-CallResult count g t
  call-CallResult (Call.monotonic_many count) g t steady k =
      monotonic_many-CallResult count g t steady k

  abbrev RunResult : Type 0 → MonotonicState → Option (List Bytes) → Type 0
  RunResult stuck s none = stuck
  RunResult stuck s (some ids) = (t : MonotonicState) × Chain s ids t

  RunResult-with_ids :
      (stuck later : Type 0) (s m : MonotonicState) (ids : List Bytes) (o : Option (List Bytes))
      → Chain s ids m
      → (later → stuck)
      → RunResult later m o
      → RunResult stuck s (with_ids ids o)
  RunResult-with_ids stuck later s m ids none h up k = up k
  RunResult-with_ids stuck later s m ids (some rest) h up (t, k) =
      (t, Chain-append s m t ids rest h k)

  then_calls-RunResult :
      (c : Call) (calls : List Call) (g : UlidGenerator) (t : Thread system)
      (rest : UlidGenerator → Thread system → Option (List Bytes))
      (rest_result : (h : UlidGenerator) (u : Thread system)
        → IsState h.mono
        → RunResult (IsStuckRun calls h u) h.mono (rest h u))
      (o : Option (Called (Thread system)))
      → IsState g.mono
      → call system rounds c g t ≡ o
      → CallResult (IsStuckCall c g t) c g.mono o
      → RunResult (IsStuckRun (c ∷ calls) g t) g.mono (then_calls system c rest o)
  then_calls-RunResult c calls g t rest rest_result none k e stuck = inl stuck
  then_calls-RunResult c calls g t rest rest_result (some r) k e chain =
      RunResult-with_ids (IsStuckRun (c ∷ calls) g t) (IsStuckRun calls r.generator r.thread) g.mono
        r.generator.mono (issued c r.outcome) (rest r.generator r.thread) chain (λ h. inr (r, e, h))
        (rest_result r.generator r.thread (Chain-IsState _ _ _ chain k))

  run-RunResult :
      (calls : List Call) (g : UlidGenerator) (t : Thread system)
      → IsSteady world
      → IsState g.mono
      → RunResult (IsStuckRun calls g t) g.mono (run system rounds calls g t)
  unfolding run
  run-RunResult [] g t steady k = (g.mono, refl)
  run-RunResult (c ∷ calls) g t steady k =
      then_calls-RunResult c calls g t _ (λ h u is. run-RunResult calls h u steady is) _ k refl
        (call-CallResult c g t steady k)

  -- For a new generator, with a seed or without, and any sequence of calls of its methods: either
  -- they all return or throw, and the identifiers that `monotonic` and `monotonicMany` return are
  -- ascending texts in the order of the calls, whatever other calls stand between them; or one of them
  -- does not return, and it is a monotonic call that, in the state to which the calls before it lead,
  -- comes to a step with no random bits left, a time not past the state's millisecond, and a clock that
  -- does not pass it within `rounds` readings. The clock is steady and stays within the timestamps of a ULID.
  pub run-IsAscending :
      (seed : Option ℕ) (calls : List Call) (t : Thread system)
      → IsSteady world
      → ((ids : List Bytes) × (run system rounds calls (new_generator seed) t ≡ some ids)
          × IsAscending (id_of fresh ∷ ids))
        ⊎ ((run system rounds calls (new_generator seed) t ≡ none)
            × IsStuckRun calls (new_generator seed) t)
  run-IsAscending seed calls t steady =
      let g = new_generator seed in
      let new : g.mono ≡ fresh = is_fresh seed in
      let fits : IsState g.mono = subst IsState (sym new) (omega arith, omega arith) in
      let result = run-RunResult calls g t steady fits in
      elim (Option-cases (run system rounds calls g t)) [
        | inl e ↦ inr (e, subst (RunResult (IsStuckRun calls g t) g.mono) e result)
        | inr (ids, e) ↦
            let (end, chain) : RunResult (IsStuckRun calls g t) g.mono (some ids) =
              subst (RunResult (IsStuckRun calls g t) g.mono) e result in
            inl (
              ids,
              e,
              subst (λ s. IsAscending (id_of s ∷ ids)) new
                  (Chain-IsAscending g.mono end ids chain fits),
            )
      ]
    where
      is_fresh : (o : Option ℕ) → (new_generator o).mono ≡ fresh
      is_fresh none = unfold new_generator in refl
      is_fresh (some n) = unfold new_generator in refl
