-- ===== src/Engine/Ksuid/Digits.antt =====
-- The base 62 tables as an alphabet whose letters ascend.
use rivid.Common.{ℕ, ◌<◌, ◌≤◌, ◌≡◌, refl, true, length, arith}
use rivid.Engine.Error.{ok}
use rivid.Engine.Alphabet.{Alphabet}
use rivid.Engine.Alphabet.Order.{IsSorted, IsLetter}
use rivid.Engine.Alphabet.Table
use rivid.Engine.Alphabet.Table.{
  letters_agree, digits_agree, letters_ascend, letter_of-lt, letter-digit,
}
use rivid.Engine.Ksuid.{alphabet, letter, decode_char, decode_table}

letters : letters_agree 62 alphabet decode_table ≡ true
unfolding letters_agree decode_table
letters = refl

digits : digits_agree 62 alphabet decode_table ≡ true
unfolding digits_agree decode_table
digits = refl

ascend : letters_ascend 62 alphabet ≡ true
unfolding letters_ascend
ascend = refl

small : length decode_table ≤ 256
unfolding decode_table
small = omega arith

pub digit-letter : (d : ℕ) → d < 62 → decode_char (letter d) ≡ ok d
unfolding letter decode_char
digit-letter = Table.digit-letter 62 alphabet decode_table letters

pub digit-lt : (c d : ℕ) → decode_char c ≡ ok d → d < 62
unfolding decode_char
digit-lt c d h = (letter-digit 62 alphabet decode_table digits small c d h).0

-- The 62 letters as an alphabet.
unfoldable pub base62 : Alphabet
base62 = record {
  base = 62;
  letter = letter;
  digit = decode_char;
  base_pos = omega arith;
  digit-letter = digit-letter;
  digit-lt = digit-lt;
}

pub base62-IsSorted : IsSorted base62
unfolding base62 letter
base62-IsSorted = letter_of-lt 62 alphabet decode_table ascend

-- Every character with a digit is the letter of that digit.
pub digit-IsLetter : (c d : ℕ) → decode_char c ≡ ok d → IsLetter base62 c
unfolding base62 decode_char letter
digit-IsLetter c d h =
    let (fits, same) = letter-digit 62 alphabet decode_table digits small c d h in (d, fits, same)
