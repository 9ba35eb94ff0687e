-- ===== src/Engine/Base58.antt =====
-- crates/core/src/base58.rs: bytes as a number in base 58, with a `1` for each leading zero byte.
-- A loop `while carry > 0` takes as many rounds as `carry`, which is enough since it divides `carry`.
pub mod Digits
pub mod Rounds
pub mod RoundTrip
pub mod Lengths
use Prim.Native.Nat.{bit_and}
use mathlib.Core.List.{reverse}
use rivid.Common.{
  ℕ, zero, suc, ◌+◌, ◌*◌, ◌/◌, ◌%◌, ◌^◌, Option, List, [], ◌∷◌, ◌++◌, Bytes, codes, length, map,
  drop, replicate, ltb, ◌==◌, if◌then◌else◌,
}
use rivid.Engine.Alphabet.Table.{letter_of, table_of, digit_of}
use rivid.Engine.Error.{Result, ok, err, ◌>>=◌, invalid_length}

abbrev pub alphabet : Bytes
alphabet = codes "123456789ABCDEFGHJKLMNPQRSTUVWXYZabcdefghijkmnopqrstuvwxyz"

abbrev pub max_input_len : ℕ
max_input_len = 4096

unfoldable pub letter : ℕ → ℕ
letter d = letter_of alphabet d

unfoldable pub decode_table : List (Option ℕ)
unfolding table_of
decode_table = table_of alphabet

unfoldable pub digit : ℕ → Result ℕ
digit c = digit_of decode_table c

-- `take_while(|&&b| b == first).count()`
pub leading : ℕ → Bytes → ℕ
leading first [] = 0
leading first (b ∷ bytes) = let rest = leading first bytes in if b == first then suc rest else 0

-- The digits that the loop on `carry` pushes.
pub push_digits : ℕ → ℕ → Bytes
push_digits zero carry = []
push_digits (suc rounds) carry =
    let rest = push_digits rounds (carry / 58) in if ltb 0 carry then (carry % 58) ∷ rest else []

-- One byte, as the first carry, into the digits; the lowest digit comes first.
pub add_byte : Bytes → ℕ → Bytes
add_byte [] carry = push_digits carry carry
add_byte (d ∷ digits) carry =
    let sum = (carry + d * 2 ^ 8 % 2 ^ 32) % 2 ^ 32 in (sum % 58) ∷ add_byte digits (sum / 58)

pub encode_loop : Bytes → Bytes → Bytes
encode_loop [] digits = digits
encode_loop (byte ∷ bytes) digits = encode_loop bytes (add_byte digits byte)

unfoldable pub encode : Bytes → Bytes
unfolding leading encode_loop add_byte push_digits
encode bytes =
    let zeros = leading 0 bytes in
    replicate zeros b'1' ++ map letter (reverse (encode_loop (drop zeros bytes) []))

-- The bytes that the loop on `carry` pushes.
pub push_bytes : ℕ → ℕ → Bytes
push_bytes zero carry = []
push_bytes (suc rounds) carry =
    let rest = push_bytes rounds (carry / 2 ^ 8) in
    if ltb 0 carry then bit_and carry 0xff ∷ rest else []

-- One digit, as the first carry, into the bytes; the lowest byte comes first.
pub add_digit : Bytes → ℕ → Bytes
add_digit [] carry = push_bytes carry carry
add_digit (b ∷ output) carry =
    let sum = (carry + b * 58 % 2 ^ 32) % 2 ^ 32 in
    bit_and sum 0xff ∷ add_digit output (sum / 2 ^ 8)

pub decode_loop : Bytes → Bytes → Result Bytes
decode_loop [] output = ok output
decode_loop (c ∷ bytes) output = do val ← digit c; decode_loop bytes (add_digit output val)

unfoldable pub decode : Bytes → Result Bytes
unfolding leading decode_loop add_digit push_bytes
decode bytes =
    let ones = leading b'1' bytes in
    if ltb max_input_len (length bytes)
    then err (invalid_length max_input_len (length bytes))
    else (do output ← decode_loop (drop ones bytes) []; ok (replicate ones 0 ++ reverse output))
