-- ===== src/Engine/Crockford/RoundTrip.antt =====
-- Encoding and decoding undo one another, up to the case of the letters.
use rivid.Common.{
  ℕ, suc, Bool, ◌*◌, ◌+◌, ◌-◌, ◌^◌, ◌<◌, ◌≡◌, refl, ap, sym, ◌∙◌, true, ◌&&◌, Option, none, some,
  [], ◌∷◌, Bytes, length, map, All, get_or, get_or_outside, leb, ◌==◌, if◌then◌else◌, all_below,
  all_below_sound, arith,
}
use rivid.Engine.Error.{ok}
use rivid.Engine.Alphabet.{read, read-numeral, length-write, read-cons-eq-ok, read-cons-ok}
use rivid.Engine.Alphabet.Order.{IsLetter, write-IsLetter, read_injective}
use rivid.Engine.Crockford.{letter, digit, decode_table, encode_value, decode_chars}
use rivid.Engine.Crockford.Digits.{crockford, crockford-IsSorted, digit-lt, digit-letter}
use rivid.Engine.Crockford.Numerals.{encode_value-write, decode_chars_sound, decode_chars_complete}
use native.Mathlib.Decide.{dec_lt}

pub length-encode_value : (v : ℕ) → length (encode_value v) ≡ 26
length-encode_value v = rw encode_value-write (omega (arith, length-write crockford 26 v []))

pub encode_value-IsLetter : (v : ℕ) → All (IsLetter crockford) (encode_value v)
encode_value-IsLetter v = rw encode_value-write (write-IsLetter crockford 26 v [] tt)

pub read-encode_value : (v : ℕ) → v < 2 ^ 128 → read crockford (encode_value v) 0 ≡ ok v
unfolding crockford
read-encode_value v h = rw encode_value-write (read-numeral crockford 26 v (omega arith))

-- `decode_chars` reads every number below 2 ^ 128 back from the 26 letters of `encode_value`.
pub decode_chars-encode_value : (v : ℕ) → v < 2 ^ 128 → decode_chars (encode_value v) ≡ ok v
decode_chars-encode_value v h =
    decode_chars_complete (encode_value v) v (length-encode_value v) (read-encode_value v h) h

-- ASCII upper case.
abbrev pub to_upper : ℕ → ℕ
to_upper c = if leb b'a' c && leb c b'z' then c - 32 else c

upper_of : ℕ → Option ℕ → Bool
upper_of c none = true
upper_of c (some d) = letter d == to_upper c

upper_table : all_below 256 (λ c. upper_of c (get_or decode_table c none)) ≡ true
unfolding all_below upper_of decode_table letter
upper_table = refl

-- A character with a digit is the letter of that digit, in either case.
pub letter-digit_upper : (c d : ℕ) → digit c ≡ ok d → letter d ≡ to_upper c
unfolding digit upper_of
letter-digit_upper c d h = elim (dec_lt c 256) [
  | yes p ↦ ground (arith, all_below_sound 256 _ c upper_table p)
  | no p ↦ ground (arith, get_or_outside decode_table c none (unfold decode_table in omega arith))
]

upper-IsLetter : (c d : ℕ) → digit c ≡ ok d → IsLetter crockford (to_upper c)
unfolding crockford
upper-IsLetter c d h = (d, digit-lt c d h, letter-digit_upper c d h)

digit-upper : (c d : ℕ) → digit c ≡ ok d → digit (to_upper c) ≡ ok d
digit-upper c d h = rw (← letter-digit_upper c d h) (digit-letter d (digit-lt c d h))

length-upper : (cs : Bytes) → length (map to_upper cs) ≡ length cs
length-upper [] = refl
length-upper (c ∷ cs) = ap suc (length-upper cs)

-- What can be read can be read in upper case, and is then made of letters.
read-upper :
    (cs : Bytes) (acc v : ℕ)
    → read crockford cs acc ≡ ok v
    → (read crockford (map to_upper cs) acc ≡ ok v) × All (IsLetter crockford) (map to_upper cs)
unfolding read crockford
read-upper [] acc v h = (h, tt)
read-upper (c ∷ cs) acc v h =
    let (d, hd, hr) = read-cons-eq-ok crockford c cs acc v h in
    let (p, q) = read-upper cs (acc * crockford.base + d) v hr in
    (
      read-cons-ok crockford (to_upper c) d _ acc (digit-upper c d hd) ∙ p,
      (upper-IsLetter c d hd, q),
    )

-- A string that `decode_chars` accepts in any case is what `encode_value` writes for its value, but
-- for the case of the letters.
pub encode_value-decode_chars :
    (s : Bytes) (v : ℕ) → decode_chars s ≡ ok v → encode_value v ≡ map to_upper s
encode_value-decode_chars s v h =
    let (n, r, fits) = decode_chars_sound s v h in
    let (p, q) = read-upper s 0 v r in
    read_injective crockford crockford-IsSorted (encode_value v) (map to_upper s) 0 v
      (length-encode_value v ∙ sym (length-upper s ∙ n)) (encode_value-IsLetter v) q
      (read-encode_value v fits) p
