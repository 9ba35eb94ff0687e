-- ===== src/Engine/Rng.antt =====
-- crates/core/src/rng.rs: the deterministic generator, and the pool of random words. What fills the
-- pool is third-party code, hence a parameter.
pub mod Pool
use Prim.Native.Nat.{bit_and, bit_or, bit_xor}
use rivid.Common.{
  ℕ, zero, suc, ◌+◌, ◌-◌, ◌*◌, ◌/◌, ◌%◌, ◌^◌, ◌<◌, ◌≡◌, List, [], ◌∷◌, length, get_or, replicate,
  ◌==◌, if◌then◌else◌, arith,
}
use rivid.Engine.Monotonic.{random_mask, World}

-- `SplitMix64::next`: the output, and the state.
unfoldable pub split_mix : ℕ → ℕ × ℕ
split_mix state =
    let next = (state + 0x9E3779B97F4A7C15) % 2 ^ 64 in
    let first = bit_xor next (next / 2 ^ 30) * 0xBF58476D1CE4E5B9 % 2 ^ 64 in
    let second = bit_xor first (first / 2 ^ 27) * 0x94D049BB133111EB % 2 ^ 64 in
    (bit_xor second (second / 2 ^ 31), next)

pub record DeterministicRng : Type 0 where
  pub s0 : ℕ
  pub s1 : ℕ
  pub s2 : ℕ
  pub s3 : ℕ

unfoldable pub new_rng : ℕ → DeterministicRng
unfolding split_mix
new_rng seed =
    let (a, first) = split_mix seed in
    let (b, second) = split_mix first in
    let (c, third) = split_mix second in
    let (d, fourth) = split_mix third in record { s0 = a; s1 = b; s2 = c; s3 = d }

unfoldable pub rotate_left : ℕ → ℕ → ℕ
rotate_left x bits = bit_or (x * 2 ^ bits % 2 ^ 64) (x / 2 ^ (64 - bits))

-- `next_xoshiro`, which `draw_u64` and `next_u64` hand out.
unfoldable pub draw_u64 : DeterministicRng → ℕ × DeterministicRng
unfolding rotate_left
draw_u64 r =
    let result = rotate_left (r.s1 * 5 % 2 ^ 64) 7 * 9 % 2 ^ 64 in
    let t = r.s1 * 2 ^ 17 % 2 ^ 64 in
    let s2 = bit_xor r.s2 r.s0 in
    let s3 = bit_xor r.s3 r.s1 in
    (
      result,
      record {
        s0 = bit_xor r.s0 s3;
        s1 = bit_xor r.s1 s2;
        s2 = bit_xor s2 t;
        s3 = rotate_left s3 45;
      },
    )

pub draw_u64-lt : (r : DeterministicRng) → (draw_u64 r).0 < 2 ^ 64
unfolding draw_u64
draw_u64-lt r = omega arith

-- The deterministic generator in place of a world's random numbers; the clock is the world's.
abbrev pub seeded : World → World
seeded world = record {
  State = DeterministicRng × world.State;
  next_u64 = λ s. ((draw_u64 s.0).0, ((draw_u64 s.0).1, s.1));
  now_ms = λ s. ((world.now_ms s.1).0, (s.0, (world.now_ms s.1).1));
  next_u64-lt = λ s. draw_u64-lt s.0;
}

-- A world with the source that fills the pool's 32 words.
pub record System : Type 1 where
  pub world : World
  pub fill : world.State → List ℕ × world.State
  pub length-fill : (w : world.State) → length (fill w).0 ≡ 32

pub record EntropyPool : Type 0 where
  pub idx : ℕ
  pub words : List ℕ

-- The pool of a new thread: no word is left.
abbrev pub empty_pool : EntropyPool
empty_pool = record { idx = 32; words = replicate 32 0 }

module _ (system : System) where
  open system use {world, fill}

  -- The pool before a draw: filled anew where it is used up.
  pub refilled : EntropyPool → world.State → EntropyPool × world.State
  refilled p w =
      if p.idx == length p.words
      then (record { idx = 0; words = (fill w).0 }, (fill w).1)
      else (p, w)

  unfoldable pub next_pooled : EntropyPool → world.State → ℕ × EntropyPool × world.State
  unfolding refilled
  next_pooled p w =
      let (q, w') = refilled p w in
      (get_or q.words q.idx 0, record { idx = q.idx + 1; words = q.words }, w')

  unfoldable pub random_80 : EntropyPool → world.State → ℕ × EntropyPool × world.State
  random_80 p w = let (v, q, w') = next_pooled p w in (bit_and v random_mask, q, w')
