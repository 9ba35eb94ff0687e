-- ===== src/Engine/Sortable/Canonical.antt =====
-- Every number has one sortable text, and the texts sort as the numbers.
use rivid.Common.{ℕ, ◌*◌, ◌^◌, ◌<◌, ◌≡◌, ap, sym, ◌∙◌, ◌↔◌, Bytes, length, ltb, str_lt, arith}
use rivid.Engine.Error.{ok, bind-eq-ok}
use rivid.Engine.Alphabet.{read, read_block}
use rivid.Engine.Alphabet.Order.{read-IsLetter, read_injective, str_lt-read}
use rivid.Engine.Sortable.{encode_value, decode_chars}
use rivid.Engine.Sortable.Digits.{sextets, sextets-IsSorted, digit-IsLetter}
use rivid.Engine.Sortable.Numerals.{
  unpad, decode_chars-read, read-encode_value, encode_value-IsLetter, length-encode_value,
}

unpad-eq-ok : (n v : ℕ) → unpad n ≡ ok v → n ≡ v * 16
unfolding unpad
unpad-eq-ok n v h = ground (arith, h)

unpad-padded : (v : ℕ) → unpad (v * 16) ≡ ok v
unfolding unpad
unpad-padded v = ground arith

length-decode_chars : (s : Bytes) (v : ℕ) → decode_chars s ≡ ok v → length s ≡ 22
unfolding decode_chars
length-decode_chars s v h = ground (arith, h)

numeral_lt : (s : Bytes) (n : ℕ) → length s ≡ 22 → read sextets s 0 ≡ ok n → n < 2 ^ 132
unfolding sextets
numeral_lt s n e h =
    let (_, above) = read_block sextets s 0 n h in
    let width : 64 ^ length s ≡ 2 ^ 132 = ap (λ (k : ℕ). 64 ^ k) e in omega (arith, above, width)

decoded : (s : Bytes) (v : ℕ) → decode_chars s ≡ ok v → (s ≡ encode_value v) × (v < 2 ^ 128)
unfolding sextets
decoded s v h =
    let e = length-decode_chars s v h in
    let (n, r, u) = bind-eq-ok (read sextets s 0) unpad (sym (decode_chars-read s e) ∙ h) in
    let padded = unpad-eq-ok n v u in
    let fits : v < 2 ^ 128 = omega (arith, padded, numeral_lt s n e r) in
    (
      read_injective sextets sextets-IsSorted s (encode_value v) 0 n
          (e ∙ sym (length-encode_value v)) (read-IsLetter sextets digit-IsLetter s 0 n r)
          (encode_value-IsLetter v) r (read-encode_value v fits ∙ ap ok (sym padded)),
      fits,
    )

encoded : (v : ℕ) → v < 2 ^ 128 → decode_chars (encode_value v) ≡ ok v
encoded v h =
    rw (decode_chars-read (encode_value v) (length-encode_value v), read-encode_value v h)
      (unpad-padded v)

-- `decode_chars` accepts a text with the value `v` exactly where `v` is below 2 ^ 128 and the text
-- is what `encode_value` writes for `v`.
pub decode_chars_iff :
    (s : Bytes) (v : ℕ) → (decode_chars s ≡ ok v) ↔ ((s ≡ encode_value v) × (v < 2 ^ 128))
decode_chars_iff s v = (decoded s v, λ (e, h). ap decode_chars e ∙ encoded v h)

-- The sortable texts of numbers below 2 ^ 128 compare as the numbers.
pub str_lt-encode_value :
    (v w : ℕ) → v < 2 ^ 128 → w < 2 ^ 128 → str_lt (encode_value v) (encode_value w) ≡ ltb v w
str_lt-encode_value v w h k =
    str_lt-read sextets sextets-IsSorted (encode_value v) (encode_value w) 0 _ _
      (length-encode_value v ∙ sym (length-encode_value w)) (encode_value-IsLetter v)
      (encode_value-IsLetter w) (read-encode_value v h) (read-encode_value w k)
    ∙ ground arith
