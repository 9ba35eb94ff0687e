-- ===== src/Binding/Generators/Stamps.antt =====
-- The timestamps of `ulid` and of a generator's `next`.
use rivid.Common.{
  ℕ, ◌+◌, ◌*◌, ◌^◌, ◌<◌, ◌≡◌, refl, ap, ◌∙◌, inl, inr, false, Option, none, some, Bytes, ltb,
  Option-cases, arith,
}
use rivid.Common.Bits.{bit_and_low}
use rivid.Engine.Error.{ok}
use rivid.Engine.Crockford.{encode_value}
use rivid.Engine.Crockford.RoundTrip.{length-encode_value, decode_chars-encode_value}
use rivid.Engine.Ulid.Timestamp.{decode_time-decode_chars}
use rivid.Engine.Monotonic.{from_parts}
use rivid.Engine.Monotonic.Increasing.{from_parts-value}
use rivid.Engine.Batch.{ulid_block_secure}
use rivid.Engine.Rng.{System, EntropyPool, random_80, next_pooled, draw_u64}
use rivid.Js.{pos, Number, integer, returns}
use rivid.Binding.Source.{last_time}
use rivid.Binding.Batches.{IsStamped, block-IsStamped}
use rivid.Binding.Generators.{
  UlidGenerator, Thread, explicit_ts, or_now, stamp, ulid_at, ulid, next_at, next,
}

-- An explicit timestamp as JavaScript hands it over.
abbrev pub given : Option ℕ → Option Number
given none = none
given (some n) = some (integer (pos n))

parts-IsStamped :
    (ts rand : ℕ) → ts < 2 ^ 48 → rand < 2 ^ 80 → IsStamped ts (encode_value (from_parts ts rand))
parts-IsStamped ts rand h small =
    let v = ts * 2 ^ 80 + rand in
    let fits : v < 2 ^ 128 = omega arith in
    rw (from_parts-value ts rand h small) (
      length-encode_value v,
      decode_time-decode_chars (encode_value v) v (decode_chars-encode_value v fits)
          ∙ ap ok (omega (arith, small)),
    )

pub explicit-given :
    (v : Option ℕ) → ((n : ℕ) → v ≡ some n → n < 2 ^ 48) → explicit_ts (given v) ≡ returns v
unfolding explicit_ts
explicit-given none h = refl
explicit-given (some n) h = ground (arith, h n refl)

module _ (system : System) where
  open system use {world}

  pub stamp-IsStamped :
      (ts : ℕ) (t : Thread system) → ts < 2 ^ 48 → IsStamped ts (stamp system ts t).0
  unfolding random_80
  stamp-IsStamped ts (pool, w) h =
      parts-IsStamped ts _ h (omega (arith, bit_and_low 80 (next_pooled system pool w).0))

  given-lt :
      (v : Option ℕ) (w : world.State)
      → (or_now system v w).0 < 2 ^ 48
      → (n : ℕ) → v ≡ some n
      → n < 2 ^ 48
  given-lt none w h n e = absurd (ground (arith, e))
  given-lt (some m) w h n e = ground (arith, h, e)

  ulid_at-IsStamped :
      (ts : ℕ) (w : world.State) (pool : EntropyPool)
      → ts < 2 ^ 48
      → (id : Bytes) × (t : Thread system) × (ulid_at system (ts, w) pool ≡ (returns id, t))
        × IsStamped ts id
  unfolding ulid_at
  ulid_at-IsStamped ts w pool h =
      let fits : ltb last_time ts ≡ false = ground (arith, h) in
      rw fits (
        (stamp system ts (pool, w)).0,
        (stamp system ts (pool, w)).1,
        refl,
        stamp-IsStamped ts (pool, w) h,
      )

  next_at-IsStamped :
      (v : Option ℕ) (g : UlidGenerator) (pool : EntropyPool) (w : world.State)
      → (or_now system v w).0 < 2 ^ 48
      → IsStamped (or_now system v w).0 (next_at system v g (pool, w)).0
  unfolding next_at ulid_block_secure
  next_at-IsStamped none g pool w h = elim (Option-cases g.det) [
    | inr (rng, e) ↦
        rw (e, next_at) (block-IsStamped _ (draw_u64 rng).0 (draw_u64 (draw_u64 rng).1).0 h)
    | inl e ↦ rw (e, next_at) (stamp-IsStamped _ (pool, (world.now_ms w).1) h)
  ]
  next_at-IsStamped (some ts) g pool w h = elim (Option-cases g.det) [
    | inr (rng, e) ↦
        rw (e, next_at) (block-IsStamped ts (draw_u64 rng).0 (draw_u64 (draw_u64 rng).1).0 h)
    | inl e ↦
        rw (e, next_at)
          (block-IsStamped ts (world.next_u64 w).0 (world.next_u64 (world.next_u64 w).1).0 h)
  ]

  -- `ulid` and a generator's `next`, each with a timestamp of a ULID or with none, return a string of
  -- 26 characters whose `decodeTime` is that timestamp, or the clock's reading where none is given
  -- and the reading is within the timestamps of a ULID. This holds with a seed and without.
  pub next-IsStamped :
      (v : Option ℕ) (g : UlidGenerator) (pool : EntropyPool) (w : world.State)
      → (or_now system v w).0 < 2 ^ 48
      → ((id : Bytes) × (t : Thread system) × (ulid system (given v) (pool, w) ≡ (returns id, t))
          × IsStamped (or_now system v w).0 id)
        × ((id : Bytes) × (g' : UlidGenerator) × (t : Thread system) × (next system
                (given v)
                g
                (pool, w)
              ≡ (returns id, g', t))
            × IsStamped (or_now system v w).0 id)
  unfolding ulid next
  next-IsStamped v g pool w h =
      let checked = explicit-given v (given-lt v w h) in
      let (id, t, e, stamped) =
        ulid_at-IsStamped (or_now system v w).0 (or_now system v w).1 pool h in
      (
        (id, t, rw (checked, ulid) e, stamped),
        (
          (next_at system v g (pool, w)).0,
          (next_at system v g (pool, w)).1,
          (next_at system v g (pool, w)).2,
          rw (checked, next) refl,
          next_at-IsStamped v g pool w h,
        ),
      )
