-- ===== src/Engine/Sortable.antt =====
-- crates/core/src/sortable.rs: 128 bits as 22 characters that sort as the numbers do.
pub mod Digits
pub mod Numerals
pub mod Canonical
use Prim.Native.Nat.{bit_and, bit_or}
use rivid.Common.{
  ℕ, zero, suc, ◌+◌, ◌-◌, ◌*◌, ◌/◌, ◌%◌, ◌^◌, Option, List, [], ◌∷◌, ◌++◌, Bytes, codes, length,
  get_or, ◌==◌, if◌then◌else◌,
}
use rivid.Engine.Alphabet.Table.{letter_of, table_of, digit_of}
use rivid.Engine.Error.{Result, ok, err, ◌>>=◌, invalid_length, non_canonical}

abbrev pub alphabet : Bytes
alphabet = codes "-0123456789ABCDEFGHIJKLMNOPQRSTUVWXYZ_abcdefghijklmnopqrstuvwxyz"

unfoldable pub letter : ℕ → ℕ
letter d = letter_of alphabet d

unfoldable pub decode_table : List (Option ℕ)
unfolding table_of
decode_table = table_of alphabet

unfoldable pub digit : ℕ → Result ℕ
digit b = digit_of decode_table b

-- The rounds from index `i` on, before the last character.
unfoldable pub encode_rounds : ℕ → ℕ → ℕ → Bytes
encode_rounds zero i value = letter (bit_and value 3 * 2 ^ 4) ∷ []
encode_rounds (suc left) i value =
    letter (bit_and (value / 2 ^ (122 - 6 * i)) 63) ∷ encode_rounds left (i + 1) value

unfoldable pub encode_value : ℕ → Bytes
unfolding encode_rounds
encode_value value = encode_rounds 21 0 value

-- The last character, after 21 others.
decode_last : Bytes → ℕ → Result ℕ
decode_last [] value = ok value
decode_last (c ∷ cs) value = do
  last ← digit c
  if bit_and last 0x0f == 0 then ok (bit_or value (last / 2 ^ 4)) else err non_canonical

-- The rounds from index `i` on.
decode_rounds : ℕ → ℕ → Bytes → ℕ → Result ℕ
decode_rounds zero i cs value = decode_last cs value
decode_rounds (suc left) i [] value = ok value
decode_rounds (suc left) i (c ∷ cs) value = do
  d ← digit c
  decode_rounds left (i + 1) cs (bit_or value (d * 2 ^ (122 - 6 * i) % 2 ^ 128))

unfoldable pub decode_chars : Bytes → Result ℕ
unfolding decode_rounds decode_last
decode_chars chars =
    if length chars == 22
    then decode_rounds 21 0 chars 0
    else err (invalid_length 22 (length chars))
