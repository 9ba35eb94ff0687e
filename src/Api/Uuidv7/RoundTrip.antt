-- ===== src/Api/Uuidv7/RoundTrip.antt =====
-- The engine's UUIDv7 text against the timestamp that src/uuidv7.ts reads from it.
use Prim.Native.Nat.{bit_and, bit_or}
use rivid.Common.{
  ℕ, ◌+◌, ◌*◌, ◌/◌, ◌^◌, ◌<◌, ◌≡◌, refl, ap, ap₂, ◌∙◌, Bool, true, not, ◌&&◌, [], ◌∷◌, ◌++◌, Bytes,
  length, All, get_or, set, drop, ltb, ◌==◌, all_below, all_below_sound, length-set, All-set,
  All-drop, length-drop, All-append_lists, All-get_or, length-append, arith,
}
use rivid.Engine.Bytes.{
  to_be_bytes, from_be_bytes, IsByte, to_be_bytes-IsByte, length-to_be_bytes,
  from_be_bytes-to_be_bytes,
}
use rivid.Engine.Uuidv7.{uuidv7_block, timestamp_ms, hex, format_from, format_hyphenated_lower}
use rivid.Js.{returns}
use rivid.Binding.{uuidv7_time}
use rivid.Api.Uuidv7.{
  strip_hyphens, is_hex, all_hex, hex_value, parse_pairs, decode_time_from_string,
}

-- The two hex digits of a byte: both of the class, neither a hyphen, and together the byte.
byte_hex : ℕ → Bool
byte_hex b =
    let hi = hex (b / 2 ^ 4) in
    let lo = hex (bit_and b 0x0f) in
    is_hex hi
    && is_hex lo
    && not (hi == b'-')
    && not (lo == b'-')
    && (hex_value hi * 16 + hex_value lo == b)

byte_hex_table : all_below 256 byte_hex ≡ true
unfolding all_below byte_hex is_hex hex hex_value
byte_hex_table = refl

byte_hex-true : (b : ℕ) → IsByte b → byte_hex b ≡ true
byte_hex-true b h = all_below_sound 256 byte_hex b byte_hex_table h

-- What is left of the text when its hyphens are removed.
digits_of : Bytes → Bytes
digits_of [] = []
digits_of (b ∷ bytes) = hex (b / 2 ^ 4) ∷ hex (bit_and b 0x0f) ∷ digits_of bytes

strip_hyphens-format :
    (bytes : Bytes) (i : ℕ)
    → All IsByte bytes
    → strip_hyphens (format_from bytes i) ≡ digits_of bytes
unfolding strip_hyphens format_from digits_of byte_hex
strip_hyphens-format [] i h = refl
strip_hyphens-format (b ∷ bytes) i h =
    ground (arith, byte_hex-true b h.0, strip_hyphens-format bytes (i + 1) h.1)

length-digits_of : (bytes : Bytes) → length (digits_of bytes) ≡ 2 * length bytes
unfolding digits_of
length-digits_of [] = refl
length-digits_of (b ∷ bytes) = omega (arith, length-digits_of bytes)

all_hex-digits_of : (bytes : Bytes) → All IsByte bytes → all_hex (digits_of bytes) ≡ true
unfolding digits_of all_hex byte_hex
all_hex-digits_of [] h = refl
all_hex-digits_of (b ∷ bytes) h = ground (arith, byte_hex-true b h.0, all_hex-digits_of bytes h.1)

parse_pairs-digits_of : (bytes : Bytes) → All IsByte bytes → parse_pairs (digits_of bytes) ≡ bytes
unfolding digits_of parse_pairs byte_hex
parse_pairs-digits_of [] h = refl
parse_pairs-digits_of (b ∷ bytes) h =
    ap₂ (λ x xs. x ∷ xs) (ground (arith, byte_hex-true b h.0)) (parse_pairs-digits_of bytes h.1)

-- `decodeTimeFromString` of the engine's text of any 16 bytes is the timestamp in those bytes.
pub decode_time-format :
    (bytes : Bytes)
    → length bytes ≡ 16
    → All IsByte bytes
    → decode_time_from_string (format_hyphenated_lower bytes) ≡ returns (timestamp_ms bytes)
unfolding decode_time_from_string format_hyphenated_lower uuidv7_time
decode_time-format bytes n h =
    let len : length (digits_of bytes) ≡ 32 = omega (arith, length-digits_of bytes) in
    rw (
      strip_hyphens-format bytes 0 h,
      len,
      all_hex-digits_of bytes h,
      parse_pairs-digits_of bytes h,
      n,
    )

field_table :
    all_below 256
      (λ b. ltb (bit_or (bit_and b 0x0f) 0x70) 256 && ltb (bit_or (bit_and b 0x3f) 0x80) 256)
    ≡ true
unfolding all_below
field_table = refl

version-IsByte : (b : ℕ) → IsByte b → IsByte (bit_or (bit_and b 0x0f) 0x70)
version-IsByte b h = ground (arith, all_below_sound 256 _ b field_table h)

variant-IsByte : (b : ℕ) → IsByte b → IsByte (bit_or (bit_and b 0x3f) 0x80)
variant-IsByte b h = ground (arith, all_below_sound 256 _ b field_table h)

module _ (ts : ℕ) (bytes : Bytes) (n : length bytes ≡ 16) (h : All IsByte bytes) where
  abbrev stamped : Bytes
  stamped = drop 2 (to_be_bytes 8 ts []) ++ drop 6 bytes

  abbrev versioned : Bytes
  versioned = set stamped 6 (bit_or (bit_and (get_or stamped 6 0) 0x0f) 0x70)

  stamped-IsByte : All IsByte stamped
  stamped-IsByte =
      All-append_lists IsByte (drop 2 (to_be_bytes 8 ts [])) (drop 6 bytes)
        (All-drop IsByte 2 (to_be_bytes 8 ts []) (to_be_bytes-IsByte 8 ts [] tt))
        (All-drop IsByte 6 bytes h)

  versioned-IsByte : All IsByte versioned
  versioned-IsByte =
      All-set IsByte stamped 6 _
        (version-IsByte _ (All-get_or IsByte stamped 6 0 (omega arith) stamped-IsByte))
        stamped-IsByte

  uuidv7_block-IsByte : All IsByte (uuidv7_block ts bytes)
  unfolding uuidv7_block
  uuidv7_block-IsByte =
      All-set IsByte versioned 8 _
        (variant-IsByte _ (All-get_or IsByte versioned 8 0 (omega arith) versioned-IsByte))
        versioned-IsByte

  length-uuidv7_block : length (uuidv7_block ts bytes) ≡ 16
  unfolding uuidv7_block
  length-uuidv7_block = omega (
    arith,
    length-set versioned 8 (bit_or (bit_and (get_or versioned 8 0) 0x3f) 0x80),
    length-set stamped 6 (bit_or (bit_and (get_or stamped 6 0) 0x0f) 0x70),
    length-append (drop 2 (to_be_bytes 8 ts [])) (drop 6 bytes),
    length-drop 2 (to_be_bytes 8 ts []),
    length-to_be_bytes 8 ts,
    length-drop 6 bytes,
  )

  timestamp-uuidv7_block : ts < 2 ^ 48 → timestamp_ms (uuidv7_block ts bytes) ≡ ts
  unfolding uuidv7_block timestamp_ms to_be_bytes from_be_bytes
  timestamp-uuidv7_block fits = from_be_bytes-to_be_bytes 6 ts fits

  -- The text of a UUIDv7 that the engine stamps with a 48-bit timestamp, whatever its random bytes,
  -- is decoded to that timestamp.
  pub decode_time-uuidv7 :
      ts < 2 ^ 48
      → decode_time_from_string (format_hyphenated_lower (uuidv7_block ts bytes)) ≡ returns ts
  decode_time-uuidv7 fits =
      decode_time-format (uuidv7_block ts bytes) length-uuidv7_block uuidv7_block-IsByte
      ∙ ap returns (timestamp-uuidv7_block fits)
