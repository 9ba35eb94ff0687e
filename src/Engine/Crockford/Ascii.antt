-- ===== src/Engine/Crockford/Ascii.antt =====
-- What the codec accepts is ASCII, so the way of a JavaScript string into Rust leaves it as it is.
use rivid.Common.{
  ℕ, ◌*◌, ◌+◌, ◌<◌, ◌≡◌, refl, Bool, true, Option, none, some, [], ◌∷◌, Bytes, get_or,
  get_or_outside, ltb, all_below, all_below_sound, arith, ap, ◌∙◌, sym, inl, inr, Bool-cases,
  Option-cases,
}
use rivid.Engine.Error.{ok}
use rivid.Engine.Alphabet.{read, read-cons-eq-ok}
use rivid.Engine.Ulid.{all_chars, is_valid}
use rivid.Engine.Crockford.{is_alphabet_char, digit, decode_table, decode_chars}
use rivid.Engine.Crockford.Digits.{crockford}
use rivid.Engine.Crockford.Numerals.{decode_chars_sound}
use rivid.Js.{Host, IsAscii}
use native.Mathlib.Decide.{dec_lt}

ascii_entry : ℕ → Option ℕ → Bool
ascii_entry c none = true
ascii_entry c (some d) = ltb c 128

ascii_table : all_below 256 (λ c. ascii_entry c (get_or decode_table c none)) ≡ true
unfolding all_below ascii_entry decode_table
ascii_table = refl

digit-ascii : (c d : ℕ) → digit c ≡ ok d → c < 128
unfolding digit ascii_entry
digit-ascii c d h = elim (dec_lt c 256) [
  | yes p ↦ ground (arith, all_below_sound 256 _ c ascii_table p)
  | no p ↦ ground (arith, get_or_outside decode_table c none (unfold decode_table in omega arith))
]

read-IsAscii : (cs : Bytes) (acc v : ℕ) → read crockford cs acc ≡ ok v → IsAscii cs
unfolding crockford
read-IsAscii [] acc v h = tt
read-IsAscii (c ∷ cs) acc v h =
    let (d, hd, hr) = read-cons-eq-ok crockford c cs acc v h in
    (digit-ascii c d hd, read-IsAscii cs (acc * 32 + d) v hr)

pub decode_chars-IsAscii : (s : Bytes) (v : ℕ) → decode_chars s ≡ ok v → IsAscii s
decode_chars-IsAscii s v h = read-IsAscii s 0 v (decode_chars_sound s v h).1

-- A decodable string arrives unchanged, and what arrives decodable was that string.
pub utf8-decodable : (host : Host) (s : Bytes) (v : ℕ) → decode_chars s ≡ ok v → host.utf8 s ≡ s
utf8-decodable host s v h = host.utf8_ascii s (decode_chars-IsAscii s v h)

pub utf8-decodes :
    (host : Host) (s : Bytes) (v : ℕ) → decode_chars (host.utf8 s) ≡ ok v → decode_chars s ≡ ok v
utf8-decodes host s v h =
    ap decode_chars (sym (host.ascii_utf8 s (decode_chars-IsAscii (host.utf8 s) v h))) ∙ h

alphabet-ascii : (c : ℕ) → is_alphabet_char c ≡ true → c < 128
unfolding is_alphabet_char digit decode_table
alphabet-ascii c h = elim (Option-cases (get_or decode_table c none)) [
  | inl e ↦ absurd (ground (arith, h, e))
  | inr (d, e) ↦ digit-ascii c d (rw e refl)
]

all_chars-IsAscii : (s : Bytes) → all_chars s ≡ true → IsAscii s
unfolding all_chars
all_chars-IsAscii [] h = tt
all_chars-IsAscii (c ∷ s) h =
    (alphabet-ascii c (ground (arith, h)), all_chars-IsAscii s (ground (arith, h)))

is_valid-IsAscii : (s : Bytes) → is_valid s ≡ true → IsAscii s
unfolding is_valid
is_valid-IsAscii s h = all_chars-IsAscii s (ground (arith, h))

-- A string is well formed exactly where what arrives is.
pub is_valid-utf8 : (host : Host) (s : Bytes) → is_valid (host.utf8 s) ≡ is_valid s
is_valid-utf8 host s = elim (Bool-cases (is_valid s)) [
  | inl here ↦ ap is_valid (host.utf8_ascii s (is_valid-IsAscii s here))
  | inr not_here ↦ elim (Bool-cases (is_valid (host.utf8 s))) [
    | inl there ↦ ap is_valid (host.ascii_utf8 s (is_valid-IsAscii (host.utf8 s) there))
    | inr not_there ↦ not_there ∙ sym not_here
  ]
]
