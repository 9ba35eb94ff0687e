-- ===== src/Engine/Crockford.antt =====
-- crates/core/src/crockford.rs: the Crockford Base32 codec of ULIDs.
pub mod Digits
pub mod Numerals
pub mod RoundTrip
pub mod Ascii
pub mod Times
use Prim.Native.Nat.{bit_and, bit_or}
use rivid.Common.{
  ℕ, zero, suc, ◌+◌, ◌-◌, ◌*◌, ◌/◌, ◌%◌, ◌^◌, Bool, true, false, ◌&&◌, Option, none, some, List, [],
  ◌∷◌, Bytes, codes, length, get_or, set, replicate, ltb, leb, ◌==◌, if◌then◌else◌,
}
use rivid.Engine.Error.{
  Result, ok, err, ◌>>=◌, invalid_length, invalid_character, value_too_large,
  timestamp_out_of_range,
}

abbrev pub alphabet : Bytes
alphabet = codes "0123456789ABCDEFGHJKMNPQRSTVWXYZ"

-- The 48-bit ULID timestamps (lib.rs).
abbrev pub time_max : ℕ
time_max = 2 ^ 48 - 1

unfoldable pub letter : ℕ → ℕ
letter d = get_or alphabet d 0

is_ascii_uppercase : ℕ → Bool
is_ascii_uppercase c = leb b'A' c && leb c b'Z'

-- `INVALID` is `none`. The letters from `i` on are entered, upper case also as lower case.
fill_table : Bytes → ℕ → List (Option ℕ) → List (Option ℕ)
unfolding is_ascii_uppercase
fill_table [] i table = table
fill_table (c ∷ cs) i table =
    let entered = set table c (some i) in
    fill_table cs (i + 1) (if is_ascii_uppercase c then set entered (c + 32) (some i) else entered)

unfoldable pub decode_table : List (Option ℕ)
unfolding fill_table
decode_table = fill_table alphabet 0 (replicate 256 none)

unfoldable pub digit : ℕ → Result ℕ
digit b = elim (get_or decode_table b none) [ none ↦ err (invalid_character b) | some d ↦ ok d ]

unfoldable pub is_alphabet_char : ℕ → Bool
is_alphabet_char b = elim (get_or decode_table b none) [ none ↦ false | some d ↦ true ]

-- An entry of the table of letter pairs.
pair : ℕ → ℕ × ℕ
pair i = (letter (bit_and (i / 2 ^ 5) 0x1f), letter (bit_and i 0x1f))

-- The groups of ten bits that are left, from the lowest; `out` is what stands behind `pos`.
encode_groups : ℕ → ℕ → Bytes → Bytes
encode_groups zero rest out = out
encode_groups (suc groups) rest out =
    let (first, second) = pair (bit_and rest 0x3ff) in
    encode_groups groups (rest / 2 ^ 10) (first ∷ second ∷ out)

unfoldable pub encode_value : ℕ → Bytes
unfolding encode_groups pair letter
encode_value value = encode_groups 13 value []

-- The loop at index `i`, over the characters from there on.
unfoldable pub decode_loop : Bytes → ℕ → ℕ → Result ℕ
decode_loop [] i value = ok value
decode_loop (c ∷ cs) i value = do
  d ← digit c
  let next = decode_loop cs (i + 1) (bit_or value (d * 2 ^ (125 - 5 * i) % 2 ^ 128))
  if i == 0 && ltb 7 d then err value_too_large else next

unfoldable pub decode_chars : Bytes → Result ℕ
decode_chars chars =
    if length chars == 26 then decode_loop chars 0 0 else err (invalid_length 26 (length chars))

-- The rounds down to `pos` 0.
unfoldable pub time_letters : ℕ → ℕ → Bytes → Bytes
time_letters zero ts out = out
time_letters (suc left) ts out = time_letters left (ts / 2 ^ 5) (letter (bit_and ts 0x1f) ∷ out)

unfoldable pub encode_time : ℕ → Result Bytes
unfolding time_letters letter
encode_time timestamp_ms =
    if ltb time_max timestamp_ms
    then err (timestamp_out_of_range timestamp_ms)
    else ok (time_letters 10 timestamp_ms [])

unfoldable pub time_loop : Bytes → ℕ → Result ℕ
time_loop [] time = ok time
time_loop (b ∷ bs) time = do d ← digit b; time_loop bs ((time * 32 % 2 ^ 64 + d) % 2 ^ 64)

unfoldable pub decode_time_bytes : Bytes → Result ℕ
decode_time_bytes chars =
    if length chars == 10
    then (do time ← time_loop chars 0; if ltb time_max time then err value_too_large else ok time)
    else err (invalid_length 10 (length chars))
