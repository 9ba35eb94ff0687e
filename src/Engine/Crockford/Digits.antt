-- ===== src/Engine/Crockford/Digits.antt =====
-- The decode table against the alphabet: both directions, and the order of the letters.
use rivid.Common.{
  ℕ, ◌<◌, ◌≡◌, refl, Bool, true, false, Option, none, some, get_or, get_or_outside, ltb, ◌==◌,
  all_below, all_below_sound, arith, ltb→lt,
}
use native.Mathlib.Decide.{dec_lt}
use rivid.Engine.Error.{Result, ok, err}
use rivid.Engine.Crockford.{letter, digit, decode_table}
use rivid.Engine.Alphabet.{Alphabet}
use rivid.Engine.Alphabet.Order.{IsSorted}

is_digit : ℕ → Result ℕ → Bool
is_digit d (ok e) = d == e
is_digit d (err e) = false

is_digit→eq : (d : ℕ) (r : Result ℕ) → is_digit d r ≡ true → r ≡ ok d
unfolding is_digit
is_digit→eq d (ok e) h = ground arith
is_digit→eq d (err e) h = ground arith

letters_table : all_below 32 (λ d. is_digit d (digit (letter d))) ≡ true
unfolding all_below is_digit digit decode_table letter
letters_table = refl

below_32 : Option ℕ → Bool
below_32 none = true
below_32 (some d) = ltb d 32

digits_table : all_below 256 (λ c. below_32 (get_or decode_table c none)) ≡ true
unfolding all_below below_32 decode_table
digits_table = refl

ascending_table : all_below 32 (λ e. all_below e (λ d. ltb (letter d) (letter e))) ≡ true
unfolding all_below letter
ascending_table = refl

pub digit-letter : (d : ℕ) → d < 32 → digit (letter d) ≡ ok d
digit-letter d h = is_digit→eq d _ (all_below_sound 32 _ d letters_table h)

pub digit-lt : (c d : ℕ) → digit c ≡ ok d → d < 32
unfolding digit below_32
digit-lt c d h = elim (dec_lt c 256) [
  | yes p ↦ ground (arith, all_below_sound 256 _ c digits_table p)
  | no p ↦ ground (arith, get_or_outside decode_table c none (unfold decode_table in omega arith))
]

pub letter_lt : (d e : ℕ) → d < e → e < 32 → letter d < letter e
letter_lt d e h k = ltb→lt _ _ (all_below_sound e _ d (all_below_sound 32 _ e ascending_table k) h)

-- The 32 letters as an alphabet.
unfoldable pub crockford : Alphabet
crockford = record {
  base = 32;
  letter = letter;
  digit = digit;
  base_pos = omega arith;
  digit-letter = digit-letter;
  digit-lt = digit-lt;
}

pub crockford-IsSorted : IsSorted crockford
unfolding crockford
crockford-IsSorted = letter_lt
