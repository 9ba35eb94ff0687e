-- ===== src/Engine/Alphabet/Table.antt =====
-- A codec's tables: the alphabet as a byte string, and the digit of each byte that its loop enters.
-- What is checked of the two by evaluation makes them an alphabet.
use rivid.Common.{
  ℕ, ◌+◌, ◌<◌, ◌≤◌, ◌≡◌, Bool, true, false, Option, none, some, List, [], ◌∷◌, Bytes, length,
  get_or, get_or_outside, set, replicate, ltb, ◌==◌, if◌then◌else◌, all_below, all_below_sound,
  subst, ltb→lt, arith,
}
use native.Mathlib.Decide.{dec_lt}
use rivid.Engine.Error.{Result, ok, err, invalid_character}

unfoldable pub letter_of : Bytes → ℕ → ℕ
letter_of alphabet d = get_or alphabet d 0

-- `INVALID` is `none`. The letters from `i` on are entered.
fill_table : Bytes → ℕ → List (Option ℕ) → List (Option ℕ)
fill_table [] i table = table
fill_table (c ∷ cs) i table = fill_table cs (i + 1) (set table c (some i))

unfoldable pub table_of : Bytes → List (Option ℕ)
unfolding fill_table
table_of alphabet = fill_table alphabet 0 (replicate 256 none)

unfoldable pub digit_of : List (Option ℕ) → ℕ → Result ℕ
digit_of table b = elim (get_or table b none) [ none ↦ err (invalid_character b) | some d ↦ ok d ]

spells : ℕ → Option ℕ → Bool
spells d none = false
spells d (some e) = d == e

-- A digit in the table is below the base, and the byte is its letter.
fits_letter : ℕ → Bytes → ℕ → Option ℕ → Bool
fits_letter base alphabet c none = true
fits_letter base alphabet c (some d) = if ltb d base then letter_of alphabet d == c else false

unfoldable pub letters_agree : ℕ → Bytes → List (Option ℕ) → Bool
unfolding spells letter_of all_below
letters_agree base alphabet table =
    all_below base (λ d. spells d (get_or table (letter_of alphabet d) none))

unfoldable pub digits_agree : ℕ → Bytes → List (Option ℕ) → Bool
unfolding fits_letter letter_of all_below
digits_agree base alphabet table =
    all_below 256 (λ c. fits_letter base alphabet c (get_or table c none))

unfoldable pub letters_ascend : ℕ → Bytes → Bool
unfolding letter_of all_below
letters_ascend base alphabet =
    all_below base (λ e. all_below e (λ d. ltb (letter_of alphabet d) (letter_of alphabet e)))

spells-digit_of :
    (table : List (Option ℕ)) (c d : ℕ)
    → spells d (get_or table c none) ≡ true
    → digit_of table c ≡ ok d
unfolding spells digit_of
spells-digit_of table c d h = ground arith

digit_of-some :
    (table : List (Option ℕ)) (c d : ℕ) → digit_of table c ≡ ok d → get_or table c none ≡ some d
unfolding digit_of
digit_of-some table c d h = ground arith

fits_some :
    (base : ℕ) (alphabet : Bytes) (c d : ℕ)
    → fits_letter base alphabet c (some d) ≡ true
    → (d < base) × (letter_of alphabet d ≡ c)
unfolding fits_letter
fits_some base alphabet c d h = (ground (arith, h), ground (arith, h))

module _ (base : ℕ) (alphabet : Bytes) (table : List (Option ℕ)) where
  pub digit-letter :
      letters_agree base alphabet table ≡ true
      → (d : ℕ) → d < base
      → digit_of table (letter_of alphabet d) ≡ ok d
  unfolding letters_agree
  digit-letter agree d h = spells-digit_of table _ d (all_below_sound base _ d agree h)

  -- Every byte with a digit is the letter of that digit.
  pub letter-digit :
      digits_agree base alphabet table ≡ true
      → length table ≤ 256
      → (c d : ℕ) → digit_of table c ≡ ok d
      → (d < base) × (letter_of alphabet d ≡ c)
  unfolding digits_agree
  letter-digit agree small c d h = elim (dec_lt c 256) [
    | yes p ↦
        let t : fits_letter base alphabet c (get_or table c none) ≡ true =
          all_below_sound 256 (λ b. fits_letter base alphabet b (get_or table b none)) c agree p in
        fits_some base alphabet c d
          (subst (λ o. fits_letter base alphabet c o ≡ true) (digit_of-some table c d h) t)
    | no p ↦
        let t : get_or table c none ≡ none = get_or_outside table c none (omega (arith, small)) in
        absurd (ground (arith, t, digit_of-some table c d h))
  ]

  pub letter_of-lt :
      letters_ascend base alphabet ≡ true
      → (d e : ℕ) → d < e
      → e < base
      → letter_of alphabet d < letter_of alphabet e
  unfolding letters_ascend
  letter_of-lt ascend d e h k =
      ltb→lt _ _ (all_below_sound e _ d (all_below_sound base _ e ascend k) h)
