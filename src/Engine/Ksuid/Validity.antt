-- ===== src/Engine/Ksuid/Validity.antt =====
-- `is_valid` against a description of its own: the length, the characters, and the largest text.
use rivid.Common.{
  ℕ, ◌+◌, ◌-◌, ◌*◌, ◌^◌, ◌<◌, ◌≡◌, refl, sym, ◌∙◌, [], ◌∷◌, Bytes, length, Bool, true, false, not,
  ◌&&◌, ◌||◌, Option, none, some, ltb, leb, ◌==◌, str_lt, inl, inr, Bool-cases, Option-cases,
  ==_iff, ◌↔◌, get_or, get_or_outside, all_below, all_below_sound, arith,
}
use native.Mathlib.Decide.{dec_lt}
use rivid.Engine.Bytes.{to_be_bytes}
use rivid.Engine.Error.{ok, Result-cases}
use rivid.Engine.Alphabet.{read, read-cons-eq-ok}
use rivid.Engine.Alphabet.Table.{digit_of}
use rivid.Engine.Alphabet.Order.{str_lt-read}
use rivid.Engine.Ksuid.{decode_char, decode_table, decode_bytes, is_ok, is_valid, max_string}
use rivid.Engine.Ksuid.Digits.{base62, base62-IsSorted}
use rivid.Engine.Ksuid.Numerals.{decode_bytes-read_160, read_160_complete}
use rivid.Engine.Ksuid.RoundTrip.{read-IsLetter, length-decode_bytes, decode_bytes_sound}

-- `0-9A-Za-z`
abbrev pub is_base62 : ℕ → Bool
is_base62 c = (leb b'0' c && leb c b'9') || (leb b'A' c && leb c b'Z') || (leb b'a' c && leb c b'z')

abbrev pub all_base62 : Bytes → Bool
all_base62 [] = true
all_base62 (c ∷ cs) = is_base62 c && all_base62 cs

same : Bool → Bool → Bool
same true b = b
same false b = not b

is_some : Option ℕ → Bool
is_some none = false
is_some (some d) = true

chars_table : all_below 256 (λ c. same (is_base62 c) (is_some (get_or decode_table c none))) ≡ true
unfolding all_below same is_some decode_table
chars_table = refl

base62-decode_char : (c : ℕ) → is_base62 c ≡ true → (d : ℕ) × (decode_char c ≡ ok d)
unfolding same is_some decode_char decode_table digit_of
base62-decode_char c h =
    let t = all_below_sound 256 _ c chars_table (ground (arith, h)) in
    elim (Option-cases (get_or decode_table c none)) [
      | inl e ↦ absurd (ground (arith, h, t, e))
      | inr (d, e) ↦ (d, rw e)
    ]

decode_char-base62 : (c d : ℕ) → decode_char c ≡ ok d → is_base62 c ≡ true
unfolding same is_some decode_char digit_of
decode_char-base62 c d h = elim (dec_lt c 256) [
  | yes p ↦ ground (arith, h, all_below_sound 256 _ c chars_table p)
  | no p ↦
      ground (arith, h, get_or_outside decode_table c none (unfold decode_table in omega arith))
]

read_total : (cs : Bytes) (acc : ℕ) → all_base62 cs ≡ true → (v : ℕ) × (read base62 cs acc ≡ ok v)
unfolding read base62
read_total [] acc h = (acc, refl)
read_total (c ∷ cs) acc h =
    let (d, p) = base62-decode_char c (ground (arith, h)) in
    let (v, r) = read_total cs (acc * 62 + d) (ground (arith, h)) in (v, rw p r)

read-all_base62 : (cs : Bytes) (acc v : ℕ) → read base62 cs acc ≡ ok v → all_base62 cs ≡ true
unfolding base62
read-all_base62 [] acc v h = refl
read-all_base62 (c ∷ cs) acc v h =
    let (d, hd, hr) = read-cons-eq-ok base62 c cs acc v h in
    ground (arith, decode_char-base62 c d hd, read-all_base62 cs (acc * base62.base + d) v hr)

read-max_string : read base62 max_string 0 ≡ ok (2 ^ 160 - 1)
unfolding read base62 decode_char decode_table digit_of
read-max_string = refl

-- A text of 27 characters is compared with the largest one as numbers are.
above_max :
    (id : Bytes) (v : ℕ)
    → length id ≡ 27
    → read base62 id 0 ≡ ok v
    → str_lt max_string id ≡ ltb (2 ^ 160 - 1) v
above_max id v n r =
    str_lt-read base62 base62-IsSorted max_string id 0 _ v (sym n)
      (read-IsLetter max_string 0 _ read-max_string) (read-IsLetter id 0 v r) read-max_string r

-- The description: 27 characters of `0-9A-Za-z`, and not beyond the largest text.
abbrev pub is_ksuid_text : Bytes → Bool
is_ksuid_text id = (length id == 27) && (all_base62 id && not (str_lt max_string id))

pub three_tests :
    (a b c : Bool) → ((a && (b && not c)) ≡ true) ↔ ((a ≡ true) × (b ≡ true) × (c ≡ false))
three_tests true true true = ground arith
three_tests true true false = ground arith
three_tests true false c = ground arith
three_tests false b c = ground arith

pub accepted : (id bytes : Bytes) → decode_bytes id ≡ ok bytes → is_ksuid_text id ≡ true
accepted id bytes h =
    let n = length-decode_bytes id bytes h in
    let (v, r, fits, _) = decode_bytes_sound id bytes h in
    let low : ltb (2 ^ 160 - 1) v ≡ false = ground (arith, fits) in
    (three_tests _ _ _).1
      ((==_iff (length id) 27).1 n, read-all_base62 id 0 v r, above_max id v n r ∙ low)

below_max : (v : ℕ) → ltb (2 ^ 160 - 1) v ≡ false → v < 2 ^ 160
below_max v h = ground arith

described : (id : Bytes) → is_ksuid_text id ≡ true → (bytes : Bytes) × (decode_bytes id ≡ ok bytes)
described id h =
    let (n, chars, below) = (three_tests _ _ _).0 h in
    let e = (==_iff (length id) 27).0 n in
    let (v, r) = read_total id 0 chars in
    let fits = below_max v (sym (above_max id v e r) ∙ below) in
    (to_be_bytes 20 v [], decode_bytes-read_160 id e ∙ rw (read_160_complete id 0 v r fits))

-- `is_valid` accepts exactly the texts of 27 characters of `0-9A-Za-z` that do not come after the
-- largest text, aWgEPTl1tmebfsQzFP4bxwgy80V, as strings.
pub is_valid-is_ksuid_text : (id : Bytes) → is_valid id ≡ is_ksuid_text id
unfolding is_valid is_ok
is_valid-is_ksuid_text id = elim (Result-cases (decode_bytes id)) [
  | inl (bytes, p) ↦ rw p (sym (accepted id bytes p))
  | inr (e, p) ↦ elim (Bool-cases (is_ksuid_text id)) [
    | inl t ↦ let (bytes, q) = described id t in absurd (ground (arith, p, q))
    | inr f ↦ rw p (sym f)
  ]
]
