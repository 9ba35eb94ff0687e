-- ===== src/Binding/Generators/Reproducible.antt =====
-- A seeded generator with explicit timestamps depends on its seed and on them alone.
use rivid.Common.{arith, ℕ, ◌≡◌, refl, ap, inl, inr, none, some, List, [], ◌∷◌, Bytes}
use rivid.Js.{Number, Outcome, returns, throws, Outcome-cases}
use rivid.Engine.Bytes.{from_be_bytes}
use rivid.Engine.Crockford.{encode_value}
use rivid.Engine.Monotonic.{MonotonicState, fresh}
use rivid.Engine.Batch.{ulid_block}
use rivid.Engine.Rng.{DeterministicRng, System, draw_u64, new_rng}
use rivid.Binding.Generators.{UlidGenerator, Thread, explicit_ts, next_at, next, new_generator}

-- What the calls of `next` with these timestamps return or throw, in turn.
unfoldable pub next_outcomes :
    (system : System) → List Number → UlidGenerator → Thread system → List (Outcome Bytes)
next_outcomes system [] g t = []
next_outcomes system (v ∷ vs) g t =
    let (o, g', t') = next system (some v) g t in o ∷ next_outcomes system vs g' t'

explicit-some : (v : Number) → explicit_ts (some v) ≡ returns none → ⊥
unfolding explicit_ts
explicit-some v h = ground (arith, h)

seeded-outcomes :
    (a b : System) (vs : List Number) (rng : DeterministicRng) (m n : MonotonicState) (s : Thread a)
    (t : Thread b)
    → next_outcomes a vs (record { mono = m; det = some rng }) s
      ≡ next_outcomes b vs (record { mono = n; det = some rng }) t
unfolding next_outcomes next next_at
seeded-outcomes a b [] rng m n s t = refl
seeded-outcomes a b (v ∷ vs) rng m n (pool, w) (pool', w') =
    elim (Outcome-cases (explicit_ts (some v))) [
      | inr (e, h) ↦
          rw (h, next)
            (ap (λ os. throws e ∷ os) (seeded-outcomes a b vs rng m n (pool, w) (pool', w')))
      | inl (none, h) ↦ absurd (explicit-some v h)
      | inl (some ts, h) ↦
          let (hi, rng1) = draw_u64 rng in
          let (lo, rng2) = draw_u64 rng1 in
          let id = encode_value (from_be_bytes (ulid_block ts hi lo) 0) in
          rw (h, next)
            (ap (λ os. returns id ∷ os) (seeded-outcomes a b vs rng2 m n (pool, w) (pool', w')))
    ]

-- Two generators with one seed, on any two systems and threads, answer the same calls of `next` with
-- explicit timestamps alike: they return the same strings, and throw the same errors where a
-- timestamp is not one of a ULID.
pub next_outcomes-seed :
    (a b : System) (vs : List Number) (seed : ℕ) (s : Thread a) (t : Thread b)
    → next_outcomes a vs (new_generator (some seed)) s
      ≡ next_outcomes b vs (new_generator (some seed)) t
unfolding new_generator
next_outcomes-seed a b vs seed s t = seeded-outcomes a b vs (new_rng seed) fresh fresh s t
