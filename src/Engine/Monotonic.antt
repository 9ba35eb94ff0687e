-- ===== src/Engine/Monotonic.antt =====
-- crates/core/src/monotonic.rs, and `from_parts` of crates/core/src/id128.rs. The clock and the random
-- generator are third-party code, hence a parameter.
pub mod Increasing
pub mod Sequence
use Prim.Native.Nat.{bit_and, bit_or}
use rivid.Common.{
  ℕ, zero, suc, ◌+◌, ◌-◌, ◌*◌, ◌%◌, ◌^◌, ◌<◌, Option, none, some, List, [], ◌∷◌, Bytes, ltb, leb,
  if◌then◌else◌,
}
use rivid.Engine.Crockford.{encode_value}

abbrev pub random_mask : ℕ
random_mask = 2 ^ 80 - 1

unfoldable pub from_parts : ℕ → ℕ → ℕ
from_parts timestamp_ms randomness =
    bit_or (bit_and timestamp_ms (2 ^ 48 - 1) * 2 ^ 80 % 2 ^ 128) (bit_and randomness random_mask)

-- A clock and a generator of 64-bit numbers; each call leaves another state of the world.
pub record World : Type 1 where
  pub State : Type 0
  pub next_u64 : State → ℕ × State
  pub now_ms : State → ℕ × State
  pub next_u64-lt : (w : State) → (next_u64 w).0 < 2 ^ 64

pub record MonotonicState : Type 0 where
  pub last_ms : ℕ
  pub last_rand : ℕ

abbrev pub fresh : MonotonicState
fresh = record { last_ms = 0; last_rand = 0 }

unfoldable pub id_of : MonotonicState → Bytes
id_of s = encode_value (from_parts s.last_ms s.last_rand)

abbrev pub with_first : Bytes → Option (List Bytes) → Option (List Bytes)
with_first id none = none
with_first id (some ids) = some (id ∷ ids)

module _ (world : World) where
  open world use {State, next_u64, now_ms}

  unfoldable pub draw_80 : State → ℕ × State
  draw_80 w =
      let (hi, w1) = next_u64 w in
      let (lo, w2) = next_u64 w1 in (bit_and (bit_or (hi * 2 ^ 64 % 2 ^ 128) lo) random_mask, w2)

  -- At most `rounds` readings of the clock; `none` where it has not passed `current` by then.
  unfoldable pub spin_until_next_ms : ℕ → ℕ → State → Option State
  spin_until_next_ms zero current w = none
  spin_until_next_ms (suc rounds) current w =
      let later = spin_until_next_ms rounds current (now_ms w).1 in
      if leb (now_ms w).0 current then later else some (now_ms w).1

  abbrev pub reseed : Option State → Option (MonotonicState × State)
  reseed none = none
  reseed (some w) =
      let (ms, w1) = now_ms w in
      let (rand, w2) = draw_80 w1 in some (record { last_ms = ms; last_rand = rand }, w2)

  unfoldable pub advance : ℕ → ℕ → MonotonicState → State → Option (MonotonicState × State)
  advance rounds now s w =
      if ltb s.last_ms now
      then some (record { last_ms = now; last_rand = (draw_80 w).0 }, (draw_80 w).1)
      else if ltb s.last_rand random_mask
      then some (record { last_ms = s.last_ms; last_rand = s.last_rand + 1 }, w)
      else reseed (spin_until_next_ms rounds s.last_ms w)

  -- `next_with` for each of the timestamps in turn.
  abbrev pub then_rest :
      (MonotonicState → State → Option (List Bytes))
      → Option (MonotonicState × State)
      → Option (List Bytes)
  then_rest rest none = none
  then_rest rest (some (s, w)) = with_first (id_of s) (rest s w)

  unfoldable pub next_each : ℕ → List ℕ → MonotonicState → State → Option (List Bytes)
  next_each rounds [] s w = some []
  next_each rounds (now ∷ nows) s w =
      then_rest (λ s' w'. next_each rounds nows s' w') (advance rounds now s w)
