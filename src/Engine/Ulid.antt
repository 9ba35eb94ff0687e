-- ===== src/Engine/Ulid.antt =====
-- crates/core/src/ulid.rs: validation, timestamps, the byte form and comparison of ULIDs.
pub mod RoundTrip
pub mod Timestamp
use Prim.Native.Nat.{compare, Ordering}
use rivid.Common.{
  ℕ, Bool, true, false, ◌&&◌, List, [], ◌∷◌, Bytes, length, take, ◌==◌, if◌then◌else◌,
}
use rivid.Engine.Error.{Result, ok, err, ◌>>=◌, invalid_length}
use rivid.Engine.Bytes.{to_be_bytes, from_be_bytes}
use rivid.Engine.Crockford.{is_alphabet_char, encode_value, decode_chars, decode_time_bytes}

unfoldable pub all_chars : Bytes → Bool
all_chars [] = true
all_chars (b ∷ bs) = is_alphabet_char b && all_chars bs

unfoldable pub is_valid : Bytes → Bool
is_valid id = if length id == 26 then all_chars id else false

unfoldable pub decode_time : Bytes → Result ℕ
decode_time id =
    if length id == 26 then decode_time_bytes (take 10 id) else err (invalid_length 26 (length id))

unfoldable pub decode : Bytes → Result Bytes
decode id = do v ← decode_chars id; ok (to_be_bytes 16 v [])

unfoldable pub encode : Bytes → Result Bytes
encode bytes =
    if length bytes == 16
    then ok (encode_value (from_be_bytes bytes 0))
    else err (invalid_length 16 (length bytes))

unfoldable pub compare_ids : Bytes → Bytes → Result Ordering
compare_ids a b = do va ← decode_chars a; vb ← decode_chars b; ok (compare va vb)
