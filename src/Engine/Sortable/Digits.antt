-- ===== src/Engine/Sortable/Digits.antt =====
-- The tables as an alphabet whose letters ascend.
use rivid.Common.{ℕ, ◌<◌, ◌≤◌, ◌≡◌, refl, true, length, arith}
use rivid.Engine.Error.{ok}
use rivid.Engine.Alphabet.{Alphabet}
use rivid.Engine.Alphabet.Order.{IsSorted, IsLetter}
use rivid.Engine.Alphabet.Table
use rivid.Engine.Alphabet.Table.{
  letters_agree, digits_agree, letters_ascend, letter_of-lt, letter-digit,
}
use rivid.Engine.Sortable.{alphabet, letter, digit, decode_table}

letters : letters_agree 64 alphabet decode_table ≡ true
unfolding letters_agree decode_table
letters = refl

digits : digits_agree 64 alphabet decode_table ≡ true
unfolding digits_agree decode_table
digits = refl

ascend : letters_ascend 64 alphabet ≡ true
unfolding letters_ascend
ascend = refl

small : length decode_table ≤ 256
unfolding decode_table
small = omega arith

pub digit-letter : (d : ℕ) → d < 64 → digit (letter d) ≡ ok d
unfolding letter digit
digit-letter = Table.digit-letter 64 alphabet decode_table letters

pub digit-lt : (c d : ℕ) → digit c ≡ ok d → d < 64
unfolding digit
digit-lt c d h = (letter-digit 64 alphabet decode_table digits small c d h).0

-- The 64 letters as an alphabet.
unfoldable pub sextets : Alphabet
sextets = record {
  base = 64;
  letter = letter;
  digit = digit;
  base_pos = omega arith;
  digit-letter = digit-letter;
  digit-lt = digit-lt;
}

pub sextets-IsSorted : IsSorted sextets
unfolding sextets letter
sextets-IsSorted = letter_of-lt 64 alphabet decode_table ascend

-- Every character with a digit is the letter of that digit.
pub digit-IsLetter : (c d : ℕ) → digit c ≡ ok d → IsLetter sextets c
unfolding sextets digit letter
digit-IsLetter c d h =
    let (fits, same) = letter-digit 64 alphabet decode_table digits small c d h in (d, fits, same)
