-- ===== src/Engine/Uuidv7.antt =====
-- crates/core/src/uuidv7.rs and the UUID text of crates/core/src/convert.rs.
use Prim.Native.Nat.{bit_and, bit_or}
use rivid.Common.{
  ℕ, zero, suc, ◌+◌, ◌*◌, ◌/◌, ◌%◌, ◌^◌, ◌||◌, List, [], ◌∷◌, ◌++◌, Bytes, codes, get_or, set, take,
  drop, ◌==◌, if◌then◌else◌,
}
use rivid.Engine.Bytes.{to_be_bytes, from_be_bytes}
use rivid.Engine.Monotonic.{World}

-- The timestamp in the first six bytes, then the version and the variant.
unfoldable pub uuidv7_block : ℕ → Bytes → Bytes
uuidv7_block timestamp_ms bytes =
    let stamped = drop 2 (to_be_bytes 8 timestamp_ms []) ++ drop 6 bytes in
    let version = set stamped 6 (bit_or (bit_and (get_or stamped 6 0) 0x0f) 0x70) in
    set version 8 (bit_or (bit_and (get_or version 8 0) 0x3f) 0x80)

unfoldable pub timestamp_ms : Bytes → ℕ
timestamp_ms bytes = from_be_bytes (0 ∷ 0 ∷ take 6 bytes) 0

unfoldable pub hex : ℕ → ℕ
hex d = get_or (codes "0123456789abcdef") d 0

-- The bytes from index `i` on.
unfoldable pub format_from : Bytes → ℕ → Bytes
format_from [] i = []
format_from (b ∷ bytes) i =
    let rest = hex (b / 2 ^ 4) ∷ hex (bit_and b 0x0f) ∷ format_from bytes (i + 1) in
    if i == 4 || i == 6 || i == 8 || i == 10 then b'-' ∷ rest else rest

unfoldable pub format_hyphenated_lower : Bytes → Bytes
format_hyphenated_lower bytes = format_from bytes 0

module _ (world : World) where
  open world use {State, next_u64, now_ms}

  unfoldable pub generate_block : ℕ → State → Bytes × State
  generate_block ts w =
      let (hi, w1) = next_u64 w in
      let (lo, w2) = next_u64 w1 in
      (uuidv7_block ts (to_be_bytes 16 (bit_or (hi * 2 ^ 64 % 2 ^ 128) lo) []), w2)

  unfoldable pub generate : State → Bytes × State
  generate w =
      let (ts, w1) = now_ms w in
      let (block, w2) = generate_block ts w1 in (format_hyphenated_lower block, w2)

  -- The strings of `count` blocks with one timestamp.
  unfoldable pub block_strings : ℕ → ℕ → State → List Bytes × State
  block_strings zero ts w = ([], w)
  block_strings (suc count) ts w =
      let (block, w1) = generate_block ts w in
      let (ids, w2) = block_strings count ts w1 in (format_hyphenated_lower block ∷ ids, w2)

  unfoldable pub generate_strings : ℕ → State → List Bytes × State
  generate_strings count w = let (ts, w1) = now_ms w in block_strings count ts w1
