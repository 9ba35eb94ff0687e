-- ===== src/Engine/Ksuid.antt =====
-- crates/core/src/ksuid.rs: 160-bit identifiers of a 32-bit second and a random payload, in base 62.
pub mod Digits
pub mod Limbs
pub mod Numerals
pub mod RoundTrip
pub mod Time
pub mod Validity
use Prim.Native.Nat.{bit_or}
use rivid.Common.{
  ℕ, zero, suc, ◌+◌, ◌-◌, ◌*◌, ◌/◌, ◌%◌, ◌^◌, Bool, true, false, ◌&&◌, Option, none, some, List, [],
  ◌∷◌, ◌++◌, Bytes, codes, length, get_or, set, take, drop, replicate, ltb, leb, ◌==◌,
  if◌then◌else◌,
}
use rivid.Engine.Bytes.{to_be_bytes, from_be_bytes}
use rivid.Engine.Alphabet.Table.{letter_of, table_of, digit_of}
use rivid.Engine.Error.{
  Result, ok, err, ◌>>=◌, invalid_length, invalid_character, ksuid_value_too_large,
  ksuid_timestamp_out_of_range,
}

abbrev pub epoch_seconds : ℕ
epoch_seconds = 1400000000

abbrev pub epoch_ms : ℕ
epoch_ms = epoch_seconds * 1000

abbrev pub time_max_seconds : ℕ
time_max_seconds = epoch_seconds + 0xffffffff

abbrev pub time_max_ms : ℕ
time_max_ms = time_max_seconds * 1000

abbrev pub max_string : Bytes
max_string = codes "aWgEPTl1tmebfsQzFP4bxwgy80V"

abbrev pub alphabet : Bytes
alphabet = codes "0123456789ABCDEFGHIJKLMNOPQRSTUVWXYZabcdefghijklmnopqrstuvwxyz"

unfoldable pub letter : ℕ → ℕ
letter d = letter_of alphabet d

unfoldable pub decode_table : List (Option ℕ)
unfolding table_of
decode_table = table_of alphabet

unfoldable pub decode_char : ℕ → Result ℕ
decode_char b = digit_of decode_table b

-- The bytes from index 0, 4, 8, ... on, as integers of 32 bits.
pub read_limbs : ℕ → Bytes → List ℕ
read_limbs zero bytes = []
read_limbs (suc n) bytes = from_be_bytes (take 4 bytes) 0 ∷ read_limbs n (drop 4 bytes)

pub write_limbs : List ℕ → Bytes
write_limbs [] = []
write_limbs (limb ∷ limbs) = to_be_bytes 4 limb (write_limbs limbs)

-- The long division: the limbs of the quotient, and the remainder.
pub divide : List ℕ → ℕ → List ℕ × ℕ
divide [] rem = ([], rem)
divide (limb ∷ limbs) rem =
    let value = bit_or (rem * 2 ^ 32 % 2 ^ 64) limb in
    let (quotient, last) = divide limbs (value % 62) in ((value / 62 % 2 ^ 32) ∷ quotient, last)

-- The rounds down to `pos` 0; `out` is what stands behind `pos`.
encode_rounds : ℕ → List ℕ → Bytes → Bytes
encode_rounds zero limbs out = out
encode_rounds (suc pos) limbs out =
    let (quotient, rem) = divide limbs 0 in encode_rounds pos quotient (letter rem ∷ out)

unfoldable pub encode_value : Bytes → Bytes
unfolding encode_rounds read_limbs divide
encode_value bytes = encode_rounds 27 (read_limbs 5 bytes) []

unfoldable pub encode : Bytes → Result Bytes
encode bytes =
    if length bytes == 20 then ok (encode_value bytes) else err (invalid_length 20 (length bytes))

-- The limbs from the last to the first, and the carry out of the first.
pub multiply : List ℕ → ℕ → List ℕ × ℕ
multiply [] carry = ([], carry)
multiply (limb ∷ limbs) digit =
    let (low, carry) = multiply limbs digit in
    let value = (limb * 62 + carry) % 2 ^ 64 in ((value % 2 ^ 32) ∷ low, value / 2 ^ 32)

decode_loop : Bytes → List ℕ → Result (List ℕ)
decode_loop [] limbs = ok limbs
decode_loop (byte ∷ id) limbs = do
  digit ← decode_char byte
  let (product, carry) = multiply limbs digit
  let rest = decode_loop id product
  if carry == 0 then rest else err ksuid_value_too_large

unfoldable pub decode_bytes : Bytes → Result Bytes
unfolding decode_loop write_limbs multiply
decode_bytes id =
    if length id == 27
    then (do limbs ← decode_loop id (replicate 5 0); ok (write_limbs limbs))
    else err (invalid_length 27 (length id))

is_ok : Result Bytes → Bool
is_ok (ok a) = true
is_ok (err e) = false

unfoldable pub is_valid : Bytes → Bool
unfolding is_ok
is_valid id = is_ok (decode_bytes id)

unfoldable pub timestamp_field : ℕ → Result ℕ
timestamp_field unix_seconds =
    if leb epoch_seconds unix_seconds && leb unix_seconds time_max_seconds
    then ok ((unix_seconds - epoch_seconds) % 2 ^ 32)
    else err (ksuid_timestamp_out_of_range unix_seconds)

-- `now_ms` is the clock's answer; a second before or after the window is its nearest end.
unfoldable pub current_timestamp_field : ℕ → ℕ
current_timestamp_field now_ms =
    let now = now_ms / 1000 in
    let clamped =
      if ltb now epoch_seconds
      then epoch_seconds
      else if ltb time_max_seconds now
      then time_max_seconds
      else now in
    (clamped - epoch_seconds) % 2 ^ 32

unfoldable pub from_field : ℕ → Bytes → Bytes
from_field field payload = to_be_bytes 4 field [] ++ payload

unfoldable pub generate_at_unix_seconds : ℕ → Bytes → Result Bytes
generate_at_unix_seconds unix_seconds payload = do
  field ← timestamp_field unix_seconds
  ok (from_field field payload)

unfoldable pub generate_at_unix_ms : ℕ → Bytes → Result Bytes
generate_at_unix_ms unix_ms payload =
    if leb epoch_ms unix_ms && leb unix_ms time_max_ms
    then generate_at_unix_seconds (unix_ms / 1000) payload
    else err (ksuid_timestamp_out_of_range unix_ms)

unfoldable pub timestamp_seconds : Bytes → ℕ
timestamp_seconds bytes = from_be_bytes (take 4 bytes) 0 + epoch_seconds

unfoldable pub time_seconds : Bytes → Result ℕ
time_seconds bytes =
    if length bytes == 20
    then ok (from_be_bytes (take 4 bytes) 0 + epoch_seconds)
    else err (invalid_length 20 (length bytes))

unfoldable pub time_ms : Bytes → Result ℕ
time_ms bytes = do s ← time_seconds bytes; ok (s * 1000)

unfoldable pub decode_time_ms : Bytes → Result ℕ
decode_time_ms id = do k ← decode_bytes id; ok (timestamp_seconds k * 1000)
