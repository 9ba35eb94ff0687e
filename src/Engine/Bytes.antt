-- ===== src/Engine/Bytes.antt =====
-- The big-endian conversions of Rust's unsigned integers, as numerals in base 256.
use rivid.Common.{
  ℕ, zero, suc, ◌+◌, ◌*◌, ◌/◌, ◌%◌, ◌^◌, ◌<◌, ◌≡◌, refl, sym, ◌∙◌, subst, [], ◌∷◌, Bytes, length,
  All, ltb, str_lt, if◌then◌else◌, arith,
}
use rivid.Engine.Error.{Result, ok, err, invalid_character}
use rivid.Engine.Alphabet.{Alphabet, read, write, read-numeral, read_block, length-write}
use rivid.Engine.Alphabet.Order.{IsLetter, IsSorted, read_injective, str_lt-read}

-- `to_be_bytes` of an integer of `n` bytes, in front of `out`.
unfoldable pub to_be_bytes : ℕ → ℕ → Bytes → Bytes
to_be_bytes zero v out = out
to_be_bytes (suc n) v out = to_be_bytes n (v / 256) ((v % 256) ∷ out)

-- `from_be_bytes`, behind `acc`.
unfoldable pub from_be_bytes : Bytes → ℕ → ℕ
from_be_bytes [] acc = acc
from_be_bytes (b ∷ bs) acc = from_be_bytes bs (acc * 256 + b)

abbrev pub IsByte : ℕ → Type 0
IsByte b = b < 256

byte_digit : ℕ → Result ℕ
byte_digit c = if ltb c 256 then ok c else err (invalid_character c)

byte_digit-eq : (d : ℕ) → d < 256 → byte_digit d ≡ ok d
unfolding byte_digit
byte_digit-eq d h = ground arith

byte_digit-lt : (c d : ℕ) → byte_digit c ≡ ok d → d < 256
unfolding byte_digit
byte_digit-lt c d h = ground arith

octets : Alphabet
octets = record {
  base = 256;
  letter = λ d. d;
  digit = byte_digit;
  base_pos = omega arith;
  digit-letter = byte_digit-eq;
  digit-lt = byte_digit-lt;
}

to_be_bytes-write : (n v : ℕ) (out : Bytes) → to_be_bytes n v out ≡ write octets n v out
unfolding to_be_bytes write octets
to_be_bytes-write zero v out = refl
to_be_bytes-write (suc n) v out = to_be_bytes-write n (v / 256) ((v % 256) ∷ out)

read-octets :
    (bs : Bytes) (acc : ℕ) → All IsByte bs → read octets bs acc ≡ ok (from_be_bytes bs acc)
unfolding read octets from_be_bytes
read-octets [] acc h = refl
read-octets (b ∷ bs) acc h = rw (byte_digit-eq b h.0) (read-octets bs (acc * 256 + b) h.1)

pub to_be_bytes-IsByte : (n v : ℕ) (out : Bytes) → All IsByte out → All IsByte (to_be_bytes n v out)
unfolding to_be_bytes
to_be_bytes-IsByte zero v out h = h
to_be_bytes-IsByte (suc n) v out h =
    to_be_bytes-IsByte n (v / 256) ((v % 256) ∷ out) (omega arith, h)

pub length-to_be_bytes : (n v : ℕ) → length (to_be_bytes n v []) ≡ n
length-to_be_bytes n v = rw to_be_bytes-write (omega (arith, length-write octets n v []))

-- An integer of `n` bytes is read back from them.
pub from_be_bytes-to_be_bytes : (n v : ℕ) → v < 256 ^ n → from_be_bytes (to_be_bytes n v []) 0 ≡ v
unfolding octets
from_be_bytes-to_be_bytes n v h =
    let r = read-octets (to_be_bytes n v []) 0 (to_be_bytes-IsByte n v [] tt) in
    let w : read octets (to_be_bytes n v []) 0 ≡ ok v =
      rw to_be_bytes-write (read-numeral octets n v h) in
    ground arith

octets-IsSorted : IsSorted octets
unfolding octets
octets-IsSorted d e h k = h

bytes-IsLetter : (bs : Bytes) → All IsByte bs → All (IsLetter octets) bs
unfolding octets
bytes-IsLetter [] h = tt
bytes-IsLetter (b ∷ bs) h = ((b, h.0, refl), bytes-IsLetter bs h.1)

pub from_be_bytes-lt : (bs : Bytes) → All IsByte bs → from_be_bytes bs 0 < 256 ^ length bs
unfolding octets
from_be_bytes-lt bs h = omega (arith, read_block octets bs 0 _ (read-octets bs 0 h))

-- The bytes of an integer that was read from `n` bytes are those bytes.
pub to_be_bytes-from_be_bytes :
    (n : ℕ) (bs : Bytes)
    → length bs ≡ n
    → All IsByte bs
    → to_be_bytes n (from_be_bytes bs 0) [] ≡ bs
unfolding octets
to_be_bytes-from_be_bytes n bs e h =
    let v = from_be_bytes bs 0 in
    let fits : v < 256 ^ n = subst (λ k. v < 256 ^ k) e (from_be_bytes-lt bs h) in
    let written : read octets (to_be_bytes n v []) 0 ≡ ok v =
      rw to_be_bytes-write (read-numeral octets n v fits) in
    read_injective octets octets-IsSorted (to_be_bytes n v []) bs 0 v
      (length-to_be_bytes n v ∙ sym e)
      (bytes-IsLetter (to_be_bytes n v []) (to_be_bytes-IsByte n v [] tt)) (bytes-IsLetter bs h)
      written (read-octets bs 0 h)

-- Byte strings of one length compare as their integers.
pub str_lt-from_be_bytes :
    (xs ys : Bytes)
    → length xs ≡ length ys
    → All IsByte xs
    → All IsByte ys
    → str_lt xs ys ≡ ltb (from_be_bytes xs 0) (from_be_bytes ys 0)
str_lt-from_be_bytes xs ys e h k =
    str_lt-read octets octets-IsSorted xs ys 0 _ _ e (bytes-IsLetter xs h) (bytes-IsLetter ys k)
      (read-octets xs 0 h) (read-octets ys 0 k)
