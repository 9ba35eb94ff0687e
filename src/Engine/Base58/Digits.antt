-- ===== src/Engine/Base58/Digits.antt =====
-- The table against the alphabet, and the letters of a list of digits.
use rivid.Common.{
  ℕ, zero, suc, ◌<◌, ◌≤◌, ◌≡◌, refl, ap, ap₂, true, false, not, [], ◌∷◌, ◌++◌, length, map,
  replicate, ◌==◌, all_below, all_below_sound, arith,
}
use rivid.Engine.Error.{ok}
use rivid.Engine.Alphabet.Table
use rivid.Engine.Alphabet.Table.{letter_of, letters_agree, digits_agree}
use rivid.Engine.Radix.{Digits, IsBelow, zeros}
use rivid.Engine.Base58.{alphabet, letter, digit, decode_table, leading}

letters : letters_agree 58 alphabet decode_table ≡ true
unfolding letters_agree decode_table
letters = refl

digits : digits_agree 58 alphabet decode_table ≡ true
unfolding digits_agree decode_table
digits = refl

small : length decode_table ≤ 256
unfolding decode_table
small = omega arith

others : all_below 57 (λ d. not (letter (suc d) == b'1')) ≡ true
unfolding all_below letter letter_of
others = refl

pub digit-letter : (d : ℕ) → d < 58 → digit (letter d) ≡ ok d
unfolding letter digit
digit-letter = Table.digit-letter 58 alphabet decode_table letters

-- Every character with a digit is the letter of that digit.
pub letter-digit : (c d : ℕ) → digit c ≡ ok d → (d < 58) × (letter d ≡ c)
unfolding letter digit
letter-digit = Table.letter-digit 58 alphabet decode_table digits small

pub letter-zero : letter 0 ≡ b'1'
unfolding letter letter_of
letter-zero = refl

letter-suc : (d : ℕ) → d < 57 → (letter (suc d) == b'1') ≡ false
letter-suc d h = ground (arith, all_below_sound 57 (λ e. not (letter (suc e) == b'1')) d others h)

-- The leading letters `1` are those of the leading zeros.
pub leading-letters : (ds : Digits) → IsBelow 58 ds → leading b'1' (map letter ds) ≡ zeros ds
unfolding leading zeros
leading-letters [] h = refl
leading-letters (zero ∷ ds) h = rw letter-zero (ap suc (leading-letters ds h.1))
leading-letters (suc d ∷ ds) h =
    let other : (letter (suc d) == b'1') ≡ false = letter-suc d (omega (arith, h.0)) in
    rw other refl

pub letters-replicate :
    (k : ℕ) (ds : Digits) → map letter (replicate k 0 ++ ds) ≡ replicate k b'1' ++ map letter ds
letters-replicate zero ds = refl
letters-replicate (suc k) ds = ap₂ ◌∷◌ letter-zero (letters-replicate k ds)

pub length-letters : (ds : Digits) → length (map letter ds) ≡ length ds
length-letters [] = refl
length-letters (d ∷ ds) = ap suc (length-letters ds)
