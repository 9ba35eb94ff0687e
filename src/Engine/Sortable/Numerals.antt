-- ===== src/Engine/Sortable/Numerals.antt =====
-- The codec against numerals of 22 digits: a number is written with four zero bits behind it.
use Prim.Native.Nat.{bit_and, bit_or}
use rivid.Common.{
  ℕ, zero, suc, ◌+◌, ◌-◌, ◌*◌, ◌/◌, ◌%◌, ◌^◌, ◌≤◌, ◌<◌, ◌≡◌, refl, ap, sym, ◌∙◌, [], ◌∷◌, Bytes,
  length, All, inl, inr, ◌==◌, if◌then◌else◌, arith,
}
use rivid.Common.Bits.{bit_and_low, bit_or_disjoint}
use rivid.Engine.Error.{Result, ok, err, non_canonical, ◌>>=◌, Result-cases}
use rivid.Engine.Alphabet.{read, read-cons-ok}
use rivid.Engine.Alphabet.Order.{IsLetter}
use rivid.Engine.Sortable.{
  letter, digit, encode_rounds, encode_value, decode_last, decode_rounds, decode_chars,
}
use rivid.Engine.Sortable.Digits.{sextets, digit-letter, digit-lt}
use native.Mathlib.Nat.{
  mod-eq_of_lt, mul-le-mul_right, one-le-pow, pow-le-pow_right, div-div-eq-div-mul,
}
use native.Mathlib.Numerals.{towards_suc}

-- The sextet at a place, and the number above it.
sextet_place : (v k : ℕ) → v / 2 ^ (k + 6) * 64 + bit_and (v / 2 ^ k) 63 ≡ v / 2 ^ k
sextet_place v k =
    let wide : 2 ^ (k + 6) ≡ 2 ^ k * 64 = simp towards_suc (omega arith) in
    let above : v / 2 ^ (k + 6) ≡ v / 2 ^ k / 64 =
      ap (λ (t : ℕ). v / t) wide ∙ sym (div-div-eq-div-mul v (2 ^ k) 64) in
    omega (arith, above, bit_and_low 6 (v / 2 ^ k))

sextet-lt : (v : ℕ) → bit_and v 63 < 64
sextet-lt v = omega (arith, bit_and_low 6 v)

last_char : (v : ℕ) → (bit_and v 3 * 2 ^ 4 < 64) × (v / 2 ^ 2 * 64 + bit_and v 3 * 2 ^ 4 ≡ v * 16)
last_char v = (omega (arith, bit_and_low 2 v), omega (arith, bit_and_low 2 v))

read_letter :
    (d acc w : ℕ) (out : Bytes)
    → d < 64
    → acc * 64 + d ≡ w
    → read sextets (letter d ∷ out) acc ≡ read sextets out w
unfolding sextets
read_letter d acc w out h e =
    read-cons-ok sextets (letter d) d out acc (digit-letter d h) ∙ ap (read sextets out) e

-- What the rounds write, read behind what was written before.
read-encode_rounds :
    (left i v : ℕ)
    → left + i ≡ 21
    → read sextets (encode_rounds left i v) (v / 2 ^ (128 - 6 * i)) ≡ ok (v * 16)
unfolding encode_rounds read
read-encode_rounds zero i v e =
    let place : 128 - 6 * i ≡ 2 = omega (arith, e) in
    let (fits, whole) = last_char v in
    rw place (read_letter (bit_and v 3 * 2 ^ 4) (v / 2 ^ 2) (v * 16) [] fits whole)
read-encode_rounds (suc left) i v e =
    let k = 122 - 6 * i in
    let here : 128 - 6 * i ≡ k + 6 = omega (arith, e) in
    let next : 128 - 6 * (i + 1) ≡ k = omega (arith, e) in
    let rest : read sextets (encode_rounds left (i + 1) v) (v / 2 ^ k) ≡ ok (v * 16) =
      rw next at (read-encode_rounds left (i + 1) v (omega (arith, e))) in
    rw here (
      read_letter (bit_and (v / 2 ^ k) 63) (v / 2 ^ (k + 6)) (v / 2 ^ k) _ (sextet-lt (v / 2 ^ k))
        (sextet_place v k)
      ∙ rest)

pub read-encode_value : (v : ℕ) → v < 2 ^ 128 → read sextets (encode_value v) 0 ≡ ok (v * 16)
unfolding encode_value
read-encode_value v h =
    ap (read sextets (encode_rounds 21 0 v)) (omega (arith, h)) ∙ read-encode_rounds 21 0 v refl

letter-IsLetter : (d : ℕ) → d < 64 → IsLetter sextets (letter d)
unfolding sextets
letter-IsLetter d h = (d, h, refl)

encode_rounds-IsLetter : (left i v : ℕ) → All (IsLetter sextets) (encode_rounds left i v)
unfolding encode_rounds
encode_rounds-IsLetter zero i v = (letter-IsLetter _ (last_char v).0, tt)
encode_rounds-IsLetter (suc left) i v =
    (letter-IsLetter _ (sextet-lt (v / 2 ^ (122 - 6 * i))), encode_rounds-IsLetter left (i + 1) v)

pub encode_value-IsLetter : (v : ℕ) → All (IsLetter sextets) (encode_value v)
unfolding encode_value
encode_value-IsLetter v = encode_rounds-IsLetter 21 0 v

pub length-encode_value : (v : ℕ) → length (encode_value v) ≡ 22
unfolding encode_value encode_rounds
length-encode_value v = refl

-- A digit below the fields that were read: `value |= d << k`.
add_field :
    (hi d k : ℕ)
    → d < 64
    → k ≤ 122
    → bit_or (hi * 2 ^ (k + 6)) (d * 2 ^ k % 2 ^ 128) ≡ (hi * 64 + d) * 2 ^ k
add_field hi d k hd hk =
    let wide : 2 ^ (k + 6) ≡ 64 * 2 ^ k = simp towards_suc (omega arith) in
    let below : d * 2 ^ k ≤ 63 * 2 ^ k = mul-le-mul_right (2 ^ k) (omega (arith, hd)) in
    let room : 2 ^ k ≤ 2 ^ 122 = pow-le-pow_right (omega arith) hk in
    let pos : 1 ≤ 2 ^ k = one-le-pow k 2 (omega arith) in
    rw
      (
        mod-eq_of_lt {n = d * 2 ^ k} {m = 2 ^ 128} (omega (arith, below, room)),
        bit_or_disjoint (k + 6) hi (d * 2 ^ k) (omega (arith, wide, below, pos)),
      )
      (omega (arith, ap (λ (t : ℕ). hi * t) wide))

-- The reference: the four bits behind the number have to be zero.
unfoldable pub unpad : ℕ → Result ℕ
unpad n = if n % 16 == 0 then ok (n / 16) else err non_canonical

decode_last-unpad :
    (hi d : ℕ)
    → d < 64
    → (if bit_and d 0x0f == 0 then ok (bit_or (hi * 2 ^ 2) (d / 2 ^ 4)) else err non_canonical)
      ≡ unpad (hi * 64 + d)
unfolding unpad
decode_last-unpad hi d h =
    ground (arith, h, bit_and_low 4 d, bit_or_disjoint 2 hi (d / 2 ^ 4) (omega (arith, h)))

decode_rounds-read :
    (left i hi : ℕ) (cs : Bytes)
    → left + i ≡ 21
    → length cs ≡ suc left
    → decode_rounds left i cs (hi * 2 ^ (128 - 6 * i)) ≡ (read sextets cs hi >>= unpad)
unfolding decode_rounds decode_last read sextets
decode_rounds-read zero i hi (c ∷ []) e n = elim (Result-cases (digit c)) [
  | inr (x, p) ↦ rw p
  | inl (d, p) ↦
      let place : 128 - 6 * i ≡ 2 = omega (arith, e) in
      rw (p, place) (decode_last-unpad hi d (digit-lt c d p))
]
decode_rounds-read (suc left) i hi (c ∷ cs) e n = elim (Result-cases (digit c)) [
  | inr (x, p) ↦ rw p
  | inl (d, p) ↦
      let k = 122 - 6 * i in
      let here : 128 - 6 * i ≡ k + 6 = omega (arith, e) in
      let next : 128 - 6 * (i + 1) ≡ k = omega (arith, e) in
      let rest : decode_rounds left (i + 1) cs ((hi * 64 + d) * 2 ^ k)
          ≡ (read sextets cs (hi * 64 + d) >>= unpad) =
        rw next at (
          decode_rounds-read left (i + 1) (hi * 64 + d) cs (omega (arith, e)) (omega (arith, n))) in
      rw (p, here, add_field hi d k (digit-lt c d p) (omega (arith, e))) rest
]
decode_rounds-read zero i hi [] e n = absurd (omega (arith, n))
decode_rounds-read zero i hi (c ∷ b ∷ cs) e n = absurd (omega (arith, n))
decode_rounds-read (suc left) i hi [] e n = absurd (omega (arith, n))

-- `decode_chars` of 22 characters reads them as a numeral, errors included, and accepts it where the
-- last four bits are zero.
pub decode_chars-read : (s : Bytes) → length s ≡ 22 → decode_chars s ≡ (read sextets s 0 >>= unpad)
unfolding decode_chars
decode_chars-read s n = rw n (decode_rounds-read 21 0 0 s refl n)
