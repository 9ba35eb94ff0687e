-- ===== src/Api/Encodings/Ascii.antt =====
-- The texts of the codecs are ASCII, so that they reach the native code unchanged.
use Prim.Native.Nat.{bit_and}
use rivid.Common.{
  ℕ, zero, suc, ◌+◌, ◌/◌, ◌^◌, ◌<◌, inl, inr, Bool-cases, ◌||◌, ◌==◌, [], ◌∷◌, Bytes, codes, map,
  All, All-get_or, arith,
}
use rivid.Engine.Bytes.{IsByte}
use rivid.Engine.Alphabet.Table.{letter_of}
use rivid.Engine.Base58
use rivid.Engine.Base58.RoundTrip.{encode-convert}
use rivid.Engine.Base64url
use rivid.Engine.Base64url.{sextet}
use rivid.Engine.Sortable
use rivid.Engine.Uuidv7.{hex, format_from}
use rivid.Engine.Convert.{upper}
use rivid.Engine.Radix.{Digits, convert}
use rivid.Js.{IsAscii}

letter_of-ascii : (alphabet : Bytes) (d : ℕ) → IsAscii alphabet → letter_of alphabet d < 128
unfolding letter_of
letter_of-ascii alphabet d h = All-get_or (λ c. c < 128) alphabet d 0 (omega arith) h

base58-ascii : (d : ℕ) → Base58.letter d < 128
unfolding Base58.letter
base58-ascii d = letter_of-ascii Base58.alphabet d (omega arith)

letters-IsAscii : (ds : Digits) → IsAscii (map Base58.letter ds)
letters-IsAscii [] = tt
letters-IsAscii (d ∷ ds) = (base58-ascii d, letters-IsAscii ds)

pub base58-IsAscii : (bytes : Bytes) → All IsByte bytes → IsAscii (Base58.encode bytes)
base58-IsAscii bytes h = rw (encode-convert bytes h) (letters-IsAscii (convert 256 58 bytes))

sextet-ascii : (n shift : ℕ) → sextet n shift < 128
unfolding sextet Base64url.letter
sextet-ascii n shift = letter_of-ascii Base64url.alphabet _ (omega arith)

pub base64url-IsAscii : (bytes : Bytes) → IsAscii (Base64url.encode bytes)
unfolding Base64url.encode
base64url-IsAscii [] = tt
base64url-IsAscii (a ∷ []) = (sextet-ascii _ 18, (sextet-ascii _ 12, tt))
base64url-IsAscii (a ∷ b ∷ []) = (sextet-ascii _ 18, (sextet-ascii _ 12, (sextet-ascii _ 6, tt)))
base64url-IsAscii (a ∷ b ∷ c ∷ bytes) = (
  sextet-ascii _ 18,
  (sextet-ascii _ 12, (sextet-ascii _ 6, (sextet-ascii _ 0, base64url-IsAscii bytes))),
)

sortable-ascii : (d : ℕ) → Sortable.letter d < 128
unfolding Sortable.letter
sortable-ascii d = letter_of-ascii Sortable.alphabet d (omega arith)

rounds-IsAscii : (left i value : ℕ) → IsAscii (Sortable.encode_rounds left i value)
unfolding Sortable.encode_rounds
rounds-IsAscii zero i value = (sortable-ascii _, tt)
rounds-IsAscii (suc left) i value = (sortable-ascii _, rounds-IsAscii left (i + 1) value)

pub sortable-IsAscii : (value : ℕ) → IsAscii (Sortable.encode_value value)
unfolding Sortable.encode_value
sortable-IsAscii value = rounds-IsAscii 21 0 value

hex-ascii : (d : ℕ) → upper (hex d) < 128
unfolding hex
hex-ascii d =
    upper_ascii _
      (All-get_or (λ c. c < 128) (codes "0123456789abcdef") d 0 (omega arith) (omega arith))
  where
    upper_ascii : (c : ℕ) → c < 128 → upper c < 128
    upper_ascii c h = ground (arith, h)

-- The characters of a UUID in upper case.
pub uuid-IsAscii : (bytes : Bytes) (i : ℕ) → IsAscii (map upper (format_from bytes i))
unfolding format_from
uuid-IsAscii [] i = tt
uuid-IsAscii (b ∷ bytes) i =
    let digits : IsAscii (
        upper (hex (b / 2 ^ 4))
        ∷ upper (hex (bit_and b 0x0f))
        ∷ map upper (format_from bytes (i + 1))) =
      (hex-ascii (b / 2 ^ 4), (hex-ascii (bit_and b 0x0f), uuid-IsAscii bytes (i + 1))) in
    elim (Bool-cases (i == 4 || i == 6 || i == 8 || i == 10)) [
      | inl dash ↦ rw dash (omega arith, digits)
      | inr other ↦ rw other digits
    ]
