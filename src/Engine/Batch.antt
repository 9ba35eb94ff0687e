-- ===== src/Engine/Batch.antt =====
-- crates/core/src/batch.rs: blocks of a ULID. A batch reads the clock once.
use Prim.Native.Nat.{bit_and, bit_or}
use rivid.Common.{
  ℕ, zero, suc, ◌+◌, ◌*◌, ◌/◌, ◌%◌, ◌^◌, List, [], ◌∷◌, ◌++◌, Bytes, length, ◌==◌, if◌then◌else◌,
}
use rivid.Engine.Error.{Result, ok, err, invalid_length}
use rivid.Engine.Bytes.{to_be_bytes, from_be_bytes}
use rivid.Engine.Crockford.{encode_value}
use rivid.Engine.Monotonic.{random_mask, from_parts, World}

unfoldable pub ulid_block : ℕ → ℕ → ℕ → Bytes
ulid_block timestamp_ms r_hi r_lo =
    let rand = bit_and (bit_or (r_hi * 2 ^ 64 % 2 ^ 128) r_lo) random_mask in
    to_be_bytes 16 (from_parts timestamp_ms rand) []

module _ (world : World) where
  open world use {State, next_u64}

  unfoldable pub ulid_block_secure : ℕ → State → Bytes × State
  ulid_block_secure timestamp_ms w =
      let (hi, w1) = next_u64 w in let (lo, w2) = next_u64 w1 in (ulid_block timestamp_ms hi lo, w2)

  -- The strings of `count` blocks.
  unfoldable pub ulid_strings : ℕ → ℕ → State → List Bytes × State
  ulid_strings zero ts w = ([], w)
  ulid_strings (suc count) ts w =
      let (block, w1) = ulid_block_secure ts w in
      let (ids, w2) = ulid_strings count ts w1 in (encode_value (from_be_bytes block 0) ∷ ids, w2)

  -- The blocks of `count` chunks of a buffer.
  unfoldable pub blocks : ℕ → ℕ → State → Bytes × State
  blocks zero ts w = ([], w)
  blocks (suc count) ts w =
      let (block, w1) = ulid_block_secure ts w in
      let (rest, w2) = blocks count ts w1 in (block ++ rest, w2)

  -- `fill_ulid_secure` and the two functions that it calls: the buffer is checked before the clock is
  -- read. The buffer afterwards stands beside the result.
  unfoldable pub fill_ulid_secure : Bytes → State → Result ℕ × Bytes × State
  fill_ulid_secure buf w =
      if length buf % 16 == 0
      then (let (ts, w1) = world.now_ms w in
          let (filled, w2) = blocks (length buf / 16) ts w1 in (ok (length buf / 16), filled, w2))
      else (err (invalid_length ((length buf / 16 + 1) * 16) (length buf)), buf, w)
