-- ===== src/Engine/Base64url.antt =====
-- crates/core/src/base64url.rs: bytes as characters of six bits.
pub mod Digits
pub mod Groups
pub mod Inverse
pub mod Padding
pub mod Canonical
pub mod RoundTrip
use Prim.Native.Nat.{bit_and, bit_or}
use rivid.Common.{
  ℕ, zero, suc, ◌+◌, ◌-◌, ◌*◌, ◌/◌, ◌%◌, ◌^◌, Bool, not, ◌&&◌, ◌||◌, Option, List, [], ◌∷◌, ◌++◌,
  Bytes, codes, length, get_or, take, ltb, leb, ◌==◌, if◌then◌else◌,
}
use rivid.Engine.Alphabet.Table.{letter_of, table_of, digit_of}
use rivid.Engine.Error.{Result, ok, err, ◌>>=◌, invalid_length, non_canonical}

abbrev pub alphabet : Bytes
alphabet = codes "ABCDEFGHIJKLMNOPQRSTUVWXYZabcdefghijklmnopqrstuvwxyz0123456789-_"

abbrev pub max_input_len : ℕ
max_input_len = 8192

unfoldable pub letter : ℕ → ℕ
letter d = letter_of alphabet d

unfoldable pub decode_table : List (Option ℕ)
unfolding table_of
decode_table = table_of alphabet

unfoldable pub digit : ℕ → Result ℕ
digit b = digit_of decode_table b

-- `ALPHABET[(n >> shift) & 63]`
unfoldable pub sextet : ℕ → ℕ → ℕ
sextet n shift = letter (bit_and (n / 2 ^ shift) 63)

-- Chunks of three bytes, and the remainder.
unfoldable pub encode : Bytes → Bytes
unfolding sextet
encode [] = []
encode (a ∷ []) = let n = a * 2 ^ 16 % 2 ^ 32 in sextet n 18 ∷ sextet n 12 ∷ []
encode (a ∷ b ∷ []) =
    let n = bit_or (a * 2 ^ 16 % 2 ^ 32) (b * 2 ^ 8 % 2 ^ 32) in
    sextet n 18 ∷ sextet n 12 ∷ sextet n 6 ∷ []
encode (a ∷ b ∷ c ∷ bytes) =
    let n = bit_or (bit_or (a * 2 ^ 16 % 2 ^ 32) (b * 2 ^ 8 % 2 ^ 32)) c in
    sextet n 18 ∷ sextet n 12 ∷ sextet n 6 ∷ sextet n 0 ∷ encode bytes

-- `end` after at most `left` padding characters are taken off.
pub strip : ℕ → Bytes → ℕ → ℕ
strip zero bytes end = end
strip (suc left) bytes zero = zero
strip (suc left) bytes (suc end) =
    if get_or bytes end 0 == b'=' then strip left bytes end else suc end

-- The check of the bits that are left over.
pub finish : ℕ → ℕ → Result Bytes
finish acc nbits =
    if ltb 0 nbits && not (bit_and acc (2 ^ nbits - 1) == 0) then err non_canonical else ok []

-- The bytes that the loop pushes from here on, where it and the check behind it succeed.
pub decode_loop : Bytes → ℕ → ℕ → Result Bytes
decode_loop [] acc nbits = finish acc nbits
decode_loop (c ∷ body) acc nbits = do
  d ← digit c
  let acc' = bit_or (acc * 2 ^ 6 % 2 ^ 32) d
  let pushes = leb 8 (nbits + 6)
  let nbits' = if pushes then nbits + 6 - 8 else nbits + 6
  out ← decode_loop body acc' nbits'
  ok (if pushes then (acc' / 2 ^ nbits' % 256) ∷ out else out)

unfoldable pub decode : Bytes → Result Bytes
unfolding strip decode_loop finish
decode bytes =
    let end = strip 2 bytes (length bytes) in
    let pad = length bytes - end in
    if ltb max_input_len (length bytes)
    then err (invalid_length max_input_len (length bytes))
    else if (end % 4 == 1) || (ltb 0 pad && not ((end + pad) % 4 == 0))
    then err (invalid_length 0 (length bytes))
    else decode_loop (take end bytes) 0 0
