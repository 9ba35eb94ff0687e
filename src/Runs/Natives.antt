-- ===== src/Runs/Natives.antt =====
-- The Prisma extension over the native generators, with a clock that goes on by one at each reading.
use rivid.Common.{
  ℕ, zero, suc, ◌+◌, ◌<◌, refl, inl, inr, none, some, [], ◌∷◌, codes, replicate, arith,
}
use rivid.Js.{Outcome, returns}
use rivid.Engine.Monotonic.{World, fresh}
use rivid.Engine.Monotonic.Increasing.{Passes}
use rivid.Engine.Rng.{System, empty_pool}
use rivid.Binding.Native.{IsPassing, Process}
use rivid.Prisma.{Heap, RidOptions}

abbrev ticking : World
ticking = record {
  State = ℕ;
  next_u64 = λ w. (7, w);
  now_ms = λ w. (w, w + 1);
  next_u64-lt = λ w. omega arith;
}

abbrev machine : System
machine = record { world = ticking; fill = λ w. (replicate 32 w, w); length-fill = λ w. refl }

ticking-Passes : (k ms w : ℕ) → ms < w + k → Passes ticking (suc k) ms w
ticking-Passes zero ms w h = inl (omega (arith, h))
ticking-Passes (suc k) ms w h = inr (ticking-Passes k ms (w + 1) (omega (arith, h)))

ticking-IsPassing : IsPassing ticking
ticking-IsPassing ms w = (suc (suc ms), ticking-Passes (suc ms) ms w (omega arith))

abbrev start : Process machine ticking-IsPassing
start = (fresh, (empty_pool, 5))

abbrev users_only : RidOptions
users_only = record { models = some (codes "User" ∷ []); field = none; mode = none }

abbrev rows_seen : Heap → Process machine ticking-IsPassing → Outcome Heap
rows_seen heap s = returns heap
