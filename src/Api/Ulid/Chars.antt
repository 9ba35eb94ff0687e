-- ===== src/Api/Ulid/Chars.antt =====
-- The character tables of src/ulid.ts against the engine's decode table.
use rivid.Common.{
  ℕ, ◌<◌, ◌≤◌, ◌≡◌, refl, Bool, true, false, not, ◌&&◌, ◌||◌, Option, none, some, [], ◌∷◌, Bytes,
  All, get_or, get_or_outside, ltb, ◌==◌, all_below, all_below_sound, arith,
}
use rivid.Engine.Error.{ok}
use rivid.Engine.Alphabet.Order.{IsLetter}
use rivid.Engine.Alphabet.{read, read-cons-eq-ok}
use rivid.Engine.Ulid
use rivid.Engine.Ulid.{all_chars}
use rivid.Engine.Crockford.{letter, digit, decode_table, is_alphabet_char, decode_chars}
use rivid.Engine.Crockford.Numerals.{decode_chars_sound}
use rivid.Engine.Crockford.Digits.{crockford, digit-lt}
use rivid.Api.Ulid.{valid_char, is_valid_char, is_canonical_char, canonical_chars}
use native.Mathlib.Decide.{dec_lt}

same : Bool → Bool → Bool
same true true = true
same false false = true
same _ _ = false

same→eq : (a b : Bool) → same a b ≡ true → a ≡ b
unfolding same
same→eq a b h = ground arith

valid_table : all_below 256 (λ c. same (is_valid_char c) (is_alphabet_char c)) ≡ true
unfolding all_below same is_valid_char valid_char is_alphabet_char decode_table
valid_table = refl

outside_table : (c : ℕ) → 256 ≤ c → (is_valid_char c ≡ false) × (is_alphabet_char c ≡ false)
unfolding is_valid_char is_alphabet_char
outside_table c h = (
  ground (arith, get_or_outside valid_char c 0 (unfold valid_char in omega arith)),
  ground (arith, get_or_outside decode_table c none (unfold decode_table in omega arith)),
)

-- The two layers accept the same characters.
pub is_valid_char-eq : (c : ℕ) → is_valid_char c ≡ is_alphabet_char c
is_valid_char-eq c = elim (dec_lt c 256) [
  | yes p ↦ same→eq _ _ (all_below_sound 256 _ c valid_table p)
  | no p ↦ ground (arith, outside_table c)
]

canonical_entry : ℕ → Option ℕ → Bool
canonical_entry c none = same (is_canonical_char c) false
canonical_entry c (some d) = same (is_canonical_char c) (letter d == c)

canonical_table : all_below 256 (λ c. canonical_entry c (get_or decode_table c none)) ≡ true
unfolding all_below canonical_entry same is_canonical_char decode_table letter
canonical_table = refl

canonical_outside : (c : ℕ) → 256 ≤ c → is_canonical_char c ≡ false
unfolding is_canonical_char
canonical_outside c h = ground arith

canonical_entry-letter :
    (c : ℕ) (o : Option ℕ)
    → is_canonical_char c ≡ true
    → canonical_entry c o ≡ true
    → (d : ℕ) × (o ≡ some d) × (letter d ≡ c)
unfolding canonical_entry same
canonical_entry-letter c none h e = ground arith
canonical_entry-letter c (some d) h e = (d, refl, ground arith)

digit-some : (c d : ℕ) → get_or decode_table c none ≡ some d → digit c ≡ ok d
unfolding digit
digit-some c d h = ground arith

-- What `CANONICAL_RE` allows is an upper-case letter of the alphabet.
pub canonical-IsLetter : (c : ℕ) → is_canonical_char c ≡ true → IsLetter crockford c
unfolding crockford
canonical-IsLetter c h = elim (dec_lt c 256) [
  | yes p ↦
      let (d, found, spelled) =
        canonical_entry-letter c _ h (all_below_sound 256 _ c canonical_table p) in
      (d, digit-lt c d (digit-some c d found), spelled)
  | no p ↦ absurd (ground (arith, canonical_outside c))
]

pub canonical_chars-IsLetter :
    (cs : Bytes) → canonical_chars cs ≡ true → All (IsLetter crockford) cs
unfolding canonical_chars
canonical_chars-IsLetter [] h = tt
canonical_chars-IsLetter (c ∷ cs) h =
    (canonical-IsLetter c (ground arith), canonical_chars-IsLetter cs (ground arith))

upper_table :
    all_below 256 (λ c. not (is_alphabet_char c && ltb c 97) || is_canonical_char c) ≡ true
unfolding all_below is_canonical_char is_alphabet_char decode_table
upper_table = refl

-- A character of the alphabet that is not in lower case is canonical.
pub upper-canonical : (c : ℕ) → is_alphabet_char c ≡ true → c < 97 → is_canonical_char c ≡ true
upper-canonical c h k = ground (arith, all_below_sound 256 _ c upper_table (omega arith))

digit-is_alphabet_char : (c d : ℕ) → digit c ≡ ok d → is_alphabet_char c ≡ true
unfolding digit is_alphabet_char
digit-is_alphabet_char c d h = ground arith

read-all_chars : (cs : Bytes) (acc v : ℕ) → read crockford cs acc ≡ ok v → all_chars cs ≡ true
unfolding all_chars crockford
read-all_chars [] acc v h = refl
read-all_chars (c ∷ cs) acc v h =
    let (d, hd, hr) = read-cons-eq-ok crockford c cs acc v h in
    ground (arith, digit-is_alphabet_char c d hd, read-all_chars cs _ v hr)

-- What decodes is well formed.
pub decode_chars-is_valid : (s : Bytes) (v : ℕ) → decode_chars s ≡ ok v → Ulid.is_valid s ≡ true
unfolding Ulid.is_valid
decode_chars-is_valid s v h =
    let (n, r, _) = decode_chars_sound s v h in rw (n, read-all_chars s 0 v r)
