-- ===== src/Engine/Base64url/Digits.antt =====
-- The table against the alphabet: both directions, and no letter is the padding character.
use rivid.Common.{
  ℕ, ◌<◌, ◌≤◌, ◌≡◌, refl, true, false, not, length, ◌==◌, all_below, all_below_sound, arith,
}
use rivid.Engine.Error.{ok}
use rivid.Engine.Alphabet.Table
use rivid.Engine.Alphabet.Table.{letter_of, letters_agree, digits_agree}
use rivid.Engine.Base64url.{alphabet, letter, digit, decode_table}

letters : letters_agree 64 alphabet decode_table ≡ true
unfolding letters_agree decode_table
letters = refl

digits : digits_agree 64 alphabet decode_table ≡ true
unfolding digits_agree decode_table
digits = refl

small : length decode_table ≤ 256
unfolding decode_table
small = omega arith

unpadded : all_below 64 (λ d. not (letter d == b'=')) ≡ true
unfolding all_below letter letter_of
unpadded = refl

pub digit-letter : (d : ℕ) → d < 64 → digit (letter d) ≡ ok d
unfolding letter digit
digit-letter = Table.digit-letter 64 alphabet decode_table letters

-- Every character with a digit is the letter of that digit.
pub letter-digit : (c d : ℕ) → digit c ≡ ok d → (d < 64) × (letter d ≡ c)
unfolding letter digit
letter-digit = Table.letter-digit 64 alphabet decode_table digits small

not_padding : (d : ℕ) → not (letter d == b'=') ≡ true → (letter d == b'=') ≡ false
not_padding d h = ground (arith, h)

pub letter_unpadded : (d : ℕ) → d < 64 → (letter d == b'=') ≡ false
letter_unpadded d h = not_padding d (all_below_sound 64 (λ e. not (letter e == b'=')) d unpadded h)
