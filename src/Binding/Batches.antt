-- ===== src/Binding/Batches.antt =====
-- src/lib.rs: `generate_many`, over a clock and random numbers.
use Prim.Native.Nat.{bit_and, bit_or}
use rivid.Common.{
  ℕ, zero, suc, ◌+◌, ◌*◌, ◌%◌, ◌^◌, ◌<◌, ◌≡◌, refl, ap, ◌∙◌, ◌⊎◌, inl, inr, ◌-◌, Bool, true, false,
  List, Bytes, length, All, ltb, if◌then◌else◌, Bool-cases, arith,
}
use rivid.Common.Bits.{bit_and_low}
use rivid.Engine.Error.{ok}
use rivid.Engine.Bytes.{from_be_bytes, from_be_bytes-to_be_bytes}
use rivid.Engine.Crockford.{encode_value}
use rivid.Engine.Crockford.RoundTrip.{length-encode_value, decode_chars-encode_value}
use rivid.Engine.Ulid.{decode_time}
use rivid.Engine.Ulid.Timestamp.{decode_time-decode_chars}
use rivid.Engine.Monotonic.{World, random_mask}
use rivid.Engine.Monotonic.Increasing.{from_parts-value}
use rivid.Engine.Batch.{ulid_block, ulid_block_secure, ulid_strings}
use rivid.Js.{ℤ, pos, negsuc, Outcome, returns, throws, native_count}
use rivid.Binding.Source.{max_batch}

-- A 64-bit count is in the range of a batch.
abbrev pub is_batch : ℤ → Bool
is_batch (pos n) = if ltb max_batch n then false else true
is_batch (negsuc n) = false

-- The loop's bound, `count as usize`.
abbrev pub as_usize : ℤ → ℕ
as_usize (pos n) = n
as_usize (negsuc n) = 2 ^ 64 - (n + 1)

-- The string carries the timestamp.
abbrev pub IsStamped : ℕ → Bytes → Type 0
IsStamped ts id = (length id ≡ 26) × (decode_time id ≡ ok ts)

pub block-IsStamped :
    (ts hi lo : ℕ)
    → ts < 2 ^ 48
    → IsStamped ts (encode_value (from_be_bytes (ulid_block ts hi lo) 0))
unfolding ulid_block
block-IsStamped ts hi lo h =
    let rand = bit_and (bit_or (hi * 2 ^ 64 % 2 ^ 128) lo) random_mask in
    let small : rand < 2 ^ 80 = omega (arith, bit_and_low 80 (bit_or (hi * 2 ^ 64 % 2 ^ 128) lo)) in
    let v = ts * 2 ^ 80 + rand in
    let fits : v < 2 ^ 128 = omega arith in
    rw (from_parts-value ts rand h small, from_be_bytes-to_be_bytes 16 v fits)
      (
        length-encode_value v,
        decode_time-decode_chars (encode_value v) v (decode_chars-encode_value v fits)
            ∙ ap ok (omega (arith, small)),
      )

module _ (world : World) where
  open world use {State, now_ms}

  unfoldable pub generate_many : ℤ → State → Outcome (List Bytes × State)
  generate_many count w =
      let (ts, w1) = now_ms w in
      if is_batch count
      then returns (ulid_strings world (as_usize count) ts w1)
      else throws (native_count count)

  ulid_strings-IsStamped :
      (count ts : ℕ) (w : State)
      → ts < 2 ^ 48
      → (length (ulid_strings world count ts w).0 ≡ count)
        × All (IsStamped ts) (ulid_strings world count ts w).0
  unfolding ulid_strings ulid_block_secure
  ulid_strings-IsStamped zero ts w h = (refl, tt)
  ulid_strings-IsStamped (suc count) ts w h =
      let rest = ulid_strings-IsStamped count ts _ h in
      (ap suc rest.0, (block-IsStamped ts _ _ h, rest.1))

  -- With a clock within the timestamps of a ULID, a batch of a count from 0 to the largest batch
  -- returns exactly so many strings of 26 characters, each with the one timestamp that was read; for
  -- any other count, also a negative one, it throws, and names the count.
  pub generate_many-IsStamped :
      (count : ℤ) (w : State)
      → (now_ms w).0 < 2 ^ 48
      → ((is_batch count ≡ true)
          × ((ids : List Bytes) × (w' : State) × (generate_many count w ≡ returns (ids, w'))
              × (pos (length ids) ≡ count)
              × All (IsStamped (now_ms w).0) ids))
        ⊎ ((is_batch count ≡ false) × (generate_many count w ≡ throws (native_count count)))
  unfolding generate_many
  generate_many-IsStamped (negsuc n) w h = inr (refl, refl)
  generate_many-IsStamped (pos n) w h = elim (Bool-cases (ltb max_batch n)) [
    | inl many ↦ rw many (inr (refl, refl))
    | inr few ↦
        let made = ulid_strings-IsStamped n (now_ms w).0 (now_ms w).1 h in
        rw few (
          inl (
            refl,
            (
              (ulid_strings world n (now_ms w).0 (now_ms w).1).0,
              (ulid_strings world n (now_ms w).0 (now_ms w).1).1,
              refl,
              ap pos made.0,
              made.1,
            ),
          ))
  ]
