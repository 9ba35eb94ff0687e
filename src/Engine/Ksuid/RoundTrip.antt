-- ===== src/Engine/Ksuid/RoundTrip.antt =====
-- Encoding and decoding undo one another, and the order of the texts is the order of the bytes.
use rivid.Common.{ℕ, ◌^◌, ◌<◌, ◌≡◌, ap, sym, ◌∙◌, ◌↔◌, [], Bytes, length, All, str_lt, subst, arith}
use rivid.Engine.Bytes.{
  to_be_bytes, from_be_bytes, IsByte, to_be_bytes-from_be_bytes, from_be_bytes-to_be_bytes,
  from_be_bytes-lt, length-to_be_bytes, to_be_bytes-IsByte, str_lt-from_be_bytes,
}
use rivid.Engine.Error.{ok, bind-eq-ok}
use rivid.Engine.Alphabet.{read, read-numeral, length-write}
use rivid.Engine.Alphabet.Order
use rivid.Engine.Alphabet.Order.{IsLetter, write-IsLetter, read_injective, str_lt-read}
use rivid.Engine.Ksuid.{encode_value, decode_bytes}
use rivid.Engine.Ksuid.Digits.{base62, base62-IsSorted, digit-IsLetter}
use rivid.Engine.Ksuid.Numerals.{
  encode_value-write, read_160, decode_bytes-read_160, read_160_sound, read_160_complete,
}

-- The 20 bytes of an identifier.
abbrev pub IsKsuid : Bytes → Type 0
IsKsuid bytes = (length bytes ≡ 20) × All IsByte bytes

fits_160 : (bytes : Bytes) → IsKsuid bytes → from_be_bytes bytes 0 < 2 ^ 160
fits_160 bytes h =
    let top : 256 ^ length bytes ≡ 2 ^ 160 = ap (λ (n : ℕ). 256 ^ n) h.0 in
    subst (λ t. from_be_bytes bytes 0 < t) top (from_be_bytes-lt bytes h.1)

pub length-encode_value : (bytes : Bytes) → IsKsuid bytes → length (encode_value bytes) ≡ 27
length-encode_value bytes h =
    rw (encode_value-write bytes h.0 h.1)
      (omega (arith, length-write base62 27 (from_be_bytes bytes 0) []))

encode_value-IsLetter : (bytes : Bytes) → IsKsuid bytes → All (IsLetter base62) (encode_value bytes)
encode_value-IsLetter bytes h =
    rw (encode_value-write bytes h.0 h.1) (write-IsLetter base62 27 _ [] tt)

pub read-encode_value :
    (bytes : Bytes)
    → IsKsuid bytes
    → read base62 (encode_value bytes) 0 ≡ ok (from_be_bytes bytes 0)
unfolding base62
read-encode_value bytes h =
    rw (encode_value-write bytes h.0 h.1)
      (read-numeral base62 27 _ (omega (arith, fits_160 bytes h)))

-- The 20 bytes of an identifier are read back from its 27 characters.
pub decode_bytes-encode_value :
    (bytes : Bytes) → IsKsuid bytes → decode_bytes (encode_value bytes) ≡ ok bytes
decode_bytes-encode_value bytes h = rw (
  decode_bytes-read_160 (encode_value bytes) (length-encode_value bytes h),
  read_160_complete _ 0 _ (read-encode_value bytes h) (fits_160 bytes h),
  to_be_bytes-from_be_bytes 20 bytes h.0 h.1,
)

pub length-decode_bytes : (id bytes : Bytes) → decode_bytes id ≡ ok bytes → length id ≡ 27
unfolding decode_bytes
length-decode_bytes id bytes h = ground arith

pub read-IsLetter : (cs : Bytes) (acc v : ℕ) → read base62 cs acc ≡ ok v → All (IsLetter base62) cs
unfolding base62
read-IsLetter = Order.read-IsLetter base62 digit-IsLetter

-- What `decode_bytes` accepts: the 27-character numerals of the numbers below 2 ^ 160.
pub decode_bytes_sound :
    (id bytes : Bytes)
    → decode_bytes id ≡ ok bytes
    → (v : ℕ) × (read base62 id 0 ≡ ok v) × (v < 2 ^ 160) × (to_be_bytes 20 v [] ≡ bytes)
decode_bytes_sound id bytes h =
    let n = length-decode_bytes id bytes h in
    let (v, r, e) = bind-eq-ok (read_160 id 0) _ (sym (decode_bytes-read_160 id n) ∙ h) in
    let (spelt, fits) = read_160_sound id 0 v (omega arith) r in (v, spelt, fits, ground (arith, e))

-- A text that `decode_bytes` accepts is the one that its 20 bytes are encoded as.
pub encode_value-decode_bytes :
    (id bytes : Bytes) → decode_bytes id ≡ ok bytes → IsKsuid bytes × (encode_value bytes ≡ id)
encode_value-decode_bytes id bytes h =
    let (v, spelt, fits, e) = decode_bytes_sound id bytes h in
    let is_ksuid : IsKsuid bytes =
      rw (← e) (length-to_be_bytes 20 v, to_be_bytes-IsByte 20 v [] tt) in
    let same : from_be_bytes bytes 0 ≡ v =
      rw (← e) (from_be_bytes-to_be_bytes 20 v (omega (arith, fits))) in
    (
      is_ksuid,
      read_injective base62 base62-IsSorted (encode_value bytes) id 0 v
          (length-encode_value bytes is_ksuid ∙ sym (length-decode_bytes id bytes h))
          (encode_value-IsLetter bytes is_ksuid) (read-IsLetter id 0 v spelt)
          (read-encode_value bytes is_ksuid ∙ ap ok same) spelt,
    )

-- `decode_bytes` turns a text into 20 bytes exactly where it is the text that `encode_value` writes
-- for them.
pub decode_bytes_iff :
    (id bytes : Bytes) → (decode_bytes id ≡ ok bytes) ↔ (IsKsuid bytes × (encode_value bytes ≡ id))
decode_bytes_iff id bytes = (
  encode_value-decode_bytes id bytes,
  λ (h, e). ap decode_bytes (sym e) ∙ decode_bytes-encode_value bytes h,
)

-- The texts of two identifiers compare as their bytes.
pub str_lt-encode_value :
    (a b : Bytes) → IsKsuid a → IsKsuid b → str_lt (encode_value a) (encode_value b) ≡ str_lt a b
str_lt-encode_value a b h k =
    str_lt-read base62 base62-IsSorted (encode_value a) (encode_value b) 0 _ _
      (length-encode_value a h ∙ sym (length-encode_value b k)) (encode_value-IsLetter a h)
      (encode_value-IsLetter b k) (read-encode_value a h) (read-encode_value b k)
    ∙ sym (str_lt-from_be_bytes a b (h.0 ∙ sym k.0) h.1 k.1)
