-- ===== src/Binding/Generators/Chains.antt =====
-- The identifiers that monotonic steps return lie between the states before and after them.
use rivid.Common.{
  ℕ, ◌≤◌, ◌⊎◌, zero, suc, ◌^◌, ◌<◌, ◌≡◌, refl, sym, subst, inl, inr, true, Option, none, some, List,
  [], ◌∷◌, ◌++◌, Bytes, ltb, str_lt, Bool-cases, Option-cases, arith,
}
use rivid.Engine.Monotonic.{World, MonotonicState, random_mask, advance, id_of}
use rivid.Engine.Monotonic.Increasing.{
  IsState, IsSteady, IsNext, Passes, value, advance-IsNext, id_of-str_lt, advance-some,
}
use rivid.Engine.Monotonic.Sequence.{IsAscending}
use rivid.Engine.Rng.{DeterministicRng, System, seeded}
use rivid.Binding.Generators.{
  Stepped, secure_step, seeded_step, advance_by, monotonic_loop, with_step, then_steps, or_now,
  single,
}

-- From `s` to `t` the identifiers are those of states of greater and greater value.
abbrev pub Chain : MonotonicState → List Bytes → MonotonicState → Type 0
Chain s [] t = s ≡ t
Chain s (id ∷ ids) t =
    (m : MonotonicState) × (id ≡ id_of m) × IsState m × (value s < value m) × Chain m ids t

pub Chain-append :
    (s t u : MonotonicState) (xs ys : List Bytes)
    → Chain s xs t
    → Chain t ys u
    → Chain s (xs ++ ys) u
Chain-append s t u [] ys h k = subst (λ m. Chain m ys u) (sym h) k
Chain-append s t u (x ∷ xs) ys (m, e, is, less, h) k =
    (m, e, is, less, Chain-append m t u xs ys h k)

pub Chain-IsState :
    (s t : MonotonicState) (ids : List Bytes) → Chain s ids t → IsState s → IsState t
Chain-IsState s t [] h k = subst IsState h k
Chain-IsState s t (id ∷ ids) (m, e, is, less, h) k = Chain-IsState m t ids h is

pub Chain-IsAscending :
    (s t : MonotonicState) (ids : List Bytes)
    → Chain s ids t
    → IsState s
    → IsAscending (id_of s ∷ ids)
Chain-IsAscending s t [] h k = tt
Chain-IsAscending s t (id ∷ ids) (m, e, is, less, h) k =
    subst (λ i. (str_lt (id_of s) i ≡ true) × IsAscending (i ∷ ids)) (sym e)
      (id_of-str_lt s m k is less, Chain-IsAscending m t ids h is)

-- At the time `now` the state `s` has no random bits left in its millisecond, which `now` is not
-- past, and from `w` on the clock does not pass it in `rounds` readings.
abbrev pub IsStuck : (world : World) → ℕ → ℕ → MonotonicState → world.State → Type 0
IsStuck world rounds now s w =
    (now ≤ s.last_ms) × (s.last_rand ≡ random_mask) × ¬ (Passes world rounds s.last_ms w)

module _ (world : World) where
  Passes-seeded :
      (rounds ms : ℕ) (rng : DeterministicRng) (w : world.State)
      → Passes world rounds ms w
      → Passes (seeded world) rounds ms (rng, w)
  Passes-seeded zero ms rng w p = p
  Passes-seeded (suc rounds) ms rng w (inl p) = inl p
  Passes-seeded (suc rounds) ms rng w (inr p) =
      inr (Passes-seeded rounds ms rng (world.now_ms w).1 p)

  IsSteady-seeded : IsSteady world → IsSteady (seeded world)
  IsSteady-seeded steady (rng, w) = steady w

  -- Where a call does not return, it is stuck.
  spent-none :
      (rounds now : ℕ) (s : MonotonicState) (w : world.State)
      → IsState s
      → advance world rounds now s w ≡ none
      → IsStuck world rounds now s w
  spent-none rounds now s w h e = (
    elim (Bool-cases (ltb s.last_ms now)) [
      | inl past ↦
          let (r, some_r) = advance-some world rounds now s w (inl (ground (arith, past))) in
          absurd (ground (arith, e, some_r))
      | inr not_past ↦ ground (arith, not_past)
    ],
    elim (Bool-cases (ltb s.last_rand random_mask)) [
      | inl left ↦
          let (r, some_r) = advance-some world rounds now s w (inr (inl (ground (arith, left)))) in
          absurd (ground (arith, e, some_r))
      | inr all ↦ ground (arith, all, h)
    ],
    λ p.
        let (r, some_r) = advance-some world rounds now s w (inr (inr p)) in
        absurd (ground (arith, e, some_r)),
  )

abbrev pub IsTimestamp : Option ℕ → Type 0
IsTimestamp none = Unit
IsTimestamp (some ts) = ts < 2 ^ 48

module _ (system : System) (rounds : ℕ) where
  open system use {world}

  -- The step of these arguments is stuck, at the time it takes.
  abbrev pub IsStuckStep : Option ℕ → MonotonicState → world.State → Type 0
  IsStuckStep ts s w = IsStuck world rounds (or_now system ts w).0 s (or_now system ts w).1

  -- One of `count` steps in turn is stuck, where those before it lead.
  abbrev pub IsStuckLoop : ℕ → MonotonicState → Option DeterministicRng → world.State → Type 0
  IsStuckLoop zero s det w = ⊥
  IsStuckLoop (suc count) s det w =
      IsStuckStep none s w
      ⊎ ((r : Stepped world.State) × (advance_by system rounds none s det w ≡ some r)
          × IsStuckLoop count r.mono r.det r.state)

  -- A step leaves a state of a greater value, or `stuck` holds.
  abbrev StepResult : Type 0 → MonotonicState → Option (Stepped world.State) → Type 0
  StepResult stuck s none = stuck
  StepResult stuck s (some r) = IsState r.mono × (value s < value r.mono)

  abbrev pub LoopResult :
      Type 0 → MonotonicState → Option (List Bytes × Stepped world.State) → Type 0
  LoopResult stuck s none = stuck
  LoopResult stuck s (some (ids, r)) = Chain s ids r.mono

  or_now-lt :
      (ts : Option ℕ) (w : world.State)
      → IsSteady world
      → IsTimestamp ts
      → (or_now system ts w).0 < 2 ^ 48
  or_now-lt none w steady h = (steady w).0
  or_now-lt (some ts) w steady h = h

  secure_step-StepResult :
      (now : ℕ) (s : MonotonicState) (w : world.State)
      → IsSteady world
      → now < 2 ^ 48
      → IsState s
      → StepResult (IsStuck world rounds now s w) s (secure_step (advance world rounds now s w))
  secure_step-StepResult now s w steady h k = elim (Option-cases (advance world rounds now s w)) [
    | inl e ↦ rw e (spent-none world rounds now s w k e)
    | inr ((t, w'), e) ↦
        let after : IsNext world s (some (t, w')) =
          subst (IsNext world s) e (advance-IsNext world rounds now s w steady h k) in
        rw e after
  ]

  seeded_step-StepResult :
      (now : ℕ) (s : MonotonicState) (rng : DeterministicRng) (w : world.State)
      → IsSteady world
      → now < 2 ^ 48
      → IsState s
      → StepResult
          (IsStuck world rounds now s w)
          s
          (seeded_step (advance (seeded world) rounds now s (rng, w)))
  seeded_step-StepResult now s rng w steady h k =
      let twin = seeded world in
      elim (Option-cases (advance twin rounds now s (rng, w))) [
        | inl e ↦
            let (early, spent, waits) = spent-none twin rounds now s (rng, w) k e in
            rw e (early, spent, λ p. waits (Passes-seeded world rounds s.last_ms rng w p))
        | inr ((t, (rng', w')), e) ↦
            let after : IsNext twin s (some (t, (rng', w'))) =
              subst (IsNext twin s) e
                (advance-IsNext twin rounds now s (rng, w) (IsSteady-seeded world steady) h k) in
            rw e after
      ]

  advance_by-StepResult :
      (ts : Option ℕ) (s : MonotonicState) (det : Option DeterministicRng) (w : world.State)
      → IsSteady world
      → IsTimestamp ts
      → IsState s
      → StepResult (IsStuckStep ts s w) s (advance_by system rounds ts s det w)
  unfolding advance_by
  advance_by-StepResult ts s none w steady h k =
      secure_step-StepResult _ s _ steady (or_now-lt ts w steady h) k
  advance_by-StepResult ts s (some rng) w steady h k =
      seeded_step-StepResult _ s rng _ steady (or_now-lt ts w steady h) k

  LoopResult-with_step :
      (stuck later : Type 0) (s t : MonotonicState) (o : Option (List Bytes × Stepped world.State))
      → IsState t
      → value s < value t
      → (later → stuck)
      → LoopResult later t o
      → LoopResult stuck s (with_step (id_of t) o)
  LoopResult-with_step stuck later s t none k less up h = up h
  LoopResult-with_step stuck later s t (some (ids, r)) k less up h = (t, refl, k, less, h)

  pub single-LoopResult :
      (ts : Option ℕ) (s : MonotonicState) (det : Option DeterministicRng) (w : world.State)
      → IsSteady world
      → IsTimestamp ts
      → IsState s
      → LoopResult (IsStuckStep ts s w) s (single system (advance_by system rounds ts s det w))
  single-LoopResult ts s det w steady h k =
      by_step (advance_by system rounds ts s det w) (advance_by-StepResult ts s det w steady h k)
    where
      by_step :
          (o : Option (Stepped world.State))
          → StepResult (IsStuckStep ts s w) s o
          → LoopResult (IsStuckStep ts s w) s (single system o)
      by_step none stuck = stuck
      by_step (some r) (is, less) = (r.mono, refl, is, less, refl)

  -- A loop of one more step, from the loops where the step leads.
  then_steps-LoopResult :
      (count : ℕ) (s : MonotonicState) (det : Option DeterministicRng) (w : world.State)
      (rest : Stepped world.State → Option (List Bytes × Stepped world.State))
      (rest_result : (r : Stepped world.State)
        → IsState r.mono
        → LoopResult (IsStuckLoop count r.mono r.det r.state) r.mono (rest r))
      (o : Option (Stepped world.State))
      → advance_by system rounds none s det w ≡ o
      → StepResult (IsStuckStep none s w) s o
      → LoopResult (IsStuckLoop (suc count) s det w) s (then_steps rest o)
  then_steps-LoopResult count s det w rest rest_result none e stuck = inl stuck
  then_steps-LoopResult count s det w rest rest_result (some r) e (is, less) =
      LoopResult-with_step (IsStuckLoop (suc count) s det w)
        (IsStuckLoop count r.mono r.det r.state) s r.mono (rest r) is less (λ h. inr (r, e, h))
        (rest_result r is)

  pub monotonic_loop-LoopResult :
      (count : ℕ) (s : MonotonicState) (det : Option DeterministicRng) (w : world.State)
      → IsSteady world
      → IsState s
      → LoopResult (IsStuckLoop count s det w) s (monotonic_loop system rounds count s det w)
  unfolding monotonic_loop
  monotonic_loop-LoopResult zero s det w steady k = refl
  monotonic_loop-LoopResult (suc count) s det w steady k =
      then_steps-LoopResult count s det w _
        (λ r is. monotonic_loop-LoopResult count r.mono r.det r.state steady is) _ refl
        (advance_by-StepResult none s det w steady tt k)
