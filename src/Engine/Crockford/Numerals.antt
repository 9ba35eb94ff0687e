-- ===== src/Engine/Crockford/Numerals.antt =====
-- The loops of the codec against the reference numerals: `encode_value` writes 26 digits, and
-- `decode_chars` reads 26 digits of a number below 2 ^ 128.
use Prim.Native.Nat.{bit_and, bit_or}
use rivid.Common.{
  ℕ, zero, suc, ◌+◌, ◌-◌, ◌*◌, ◌/◌, ◌%◌, ◌^◌, ◌≤◌, ◌<◌, ◌≡◌, refl, ap, sym, ◌∙◌, ◌↔◌, [], ◌∷◌,
  Bytes, length, ltb, if◌then◌else◌, inl, inr, arith,
}
use rivid.Common.Bits.{bit_or_disjoint, bit_and_low}
use rivid.Engine.Error.{Result, ok, err, ◌>>=◌, value_too_large, bind-eq-ok, Result-cases}
use rivid.Engine.Alphabet.{read, write, read_block, read-cons-eq-ok}
use rivid.Engine.Crockford.{digit, pair, encode_groups, encode_value, decode_loop, decode_chars}
use rivid.Engine.Crockford.Digits.{crockford, digit-lt}
use native.Mathlib.Nat.{mod-eq_of_lt, mul-le-mul_right, pow-le-pow_right, one-le-pow}
use native.Mathlib.Numerals.{towards_suc}

abbrev twice : ℕ → ℕ
twice zero = zero
twice (suc n) = suc (suc (twice n))

-- One group of ten bits is two letters.
pair-letters :
    (v : ℕ)
    → (bit_and (bit_and v 0x3ff / 2 ^ 5) 0x1f ≡ v / 32 % 32)
      × (bit_and (bit_and v 0x3ff) 0x1f ≡ v % 32)
pair-letters v = (
  omega (arith, bit_and_low 10 v, bit_and_low 5 (bit_and v 0x3ff / 2 ^ 5)),
  omega (arith, bit_and_low 10 v, bit_and_low 5 (bit_and v 0x3ff)),
)

two_shifts : (v : ℕ) → v / 1024 ≡ v / 32 / 32
two_shifts v = omega arith

encode_groups-write :
    (groups v : ℕ) (out : Bytes) → encode_groups groups v out ≡ write crockford (twice groups) v out
unfolding encode_groups write pair crockford
encode_groups-write zero v out = refl
encode_groups-write (suc groups) v out =
    rw ((pair-letters v).0, (pair-letters v).1, two_shifts v) (encode_groups-write groups _ _)

pub encode_value-write : (v : ℕ) → encode_value v ≡ write crockford 26 v []
unfolding encode_value
encode_value-write v = encode_groups-write 13 v []

-- A digit below the fields that were read: `value |= d << k`.
add_field :
    (hi d k : ℕ)
    → d < 32
    → k ≤ 120
    → bit_or (hi * 2 ^ (k + 5)) (d * 2 ^ k % 2 ^ 128) ≡ (hi * 32 + d) * 2 ^ k
add_field hi d k hd hk =
    let wide : 2 ^ (k + 5) ≡ 32 * 2 ^ k = simp towards_suc (omega arith) in
    let small : d * 2 ^ k ≤ 31 * 2 ^ k = mul-le-mul_right (2 ^ k) (omega arith) in
    let room : 2 ^ k ≤ 2 ^ 120 = pow-le-pow_right (omega arith) hk in
    let pos : 1 ≤ 2 ^ k = one-le-pow k 2 (omega arith) in
    let fits : d * 2 ^ k < 2 ^ (k + 5) = omega arith in
    rw
      (
        mod-eq_of_lt {n = d * 2 ^ k} {m = 2 ^ 128} (omega arith),
        bit_or_disjoint (k + 5) hi (d * 2 ^ k) fits,
      )
      (omega (arith, ap (λ (t : ℕ). hi * t) wide))

add_place :
    (n i hi d : ℕ)
    → suc n + i ≡ 26
    → 1 ≤ i
    → d < 32
    → bit_or (hi * 2 ^ (5 * suc n)) (d * 2 ^ (125 - 5 * i) % 2 ^ 128) ≡ (hi * 32 + d) * 2 ^ (5 * n)
add_place n i hi d e one h =
    let high : 5 * suc n ≡ 5 * n + 5 = omega arith in
    let low : 125 - 5 * i ≡ 5 * n = omega arith in
    rw (high, low) (add_field hi d (5 * n) h (omega arith))

-- From the second character on the loop is Horner's rule, errors included.
decode_loop-read :
    (cs : Bytes) (i hi : ℕ)
    → length cs + i ≡ 26
    → 1 ≤ i
    → decode_loop cs i (hi * 2 ^ (5 * length cs)) ≡ read crockford cs hi
unfolding decode_loop read crockford
decode_loop-read [] i hi e h = ap ok (omega arith)
decode_loop-read (c ∷ cs) i hi e h = elim (Result-cases (digit c)) [
  | inr (x, p) ↦ rw p
  | inl (d, p) ↦ ground (
    arith,
    p,
    add_place (length cs) i hi d e h (digit-lt c d p),
    decode_loop-read cs (i + 1) (hi * 32 + d) (omega arith) (omega arith),
  )
]

-- The first character holds three bits only.
first_char : ℕ → Bytes → Result ℕ
first_char d cs = if ltb 7 d then err value_too_large else read crockford cs d

first_field : (d : ℕ) → d ≤ 7 → bit_or 0 (d * 2 ^ 125 % 2 ^ 128) ≡ d * 2 ^ 125
first_field d h = bit_or_disjoint 128 0 (d * 2 ^ 125 % 2 ^ 128) (omega arith) ∙ omega arith

first_round :
    (d : ℕ) (cs : Bytes)
    → length cs ≡ 25
    → (if ltb 7 d then err value_too_large else decode_loop cs 1 (bit_or 0 (d * 2 ^ 125 % 2 ^ 128)))
      ≡ first_char d cs
unfolding first_char
first_round d cs e = ground (
  arith,
  first_field d,
  ap (λ n. d * 2 ^ (5 * n)) e,
  decode_loop-read cs 1 d (omega arith) (omega arith),
)

decode_chars-cons :
    (c : ℕ) (cs : Bytes)
    → length cs ≡ 25
    → decode_chars (c ∷ cs) ≡ (digit c >>= λ d. first_char d cs)
unfolding decode_chars decode_loop
decode_chars-cons c cs e =
    rw e
      (elim (Result-cases (digit c)) [ inr (x, p) ↦ rw p | inl (d, p) ↦ rw p (first_round d cs e) ])

-- A numeral of 25 digits behind `d` is below 2 ^ 128 exactly when `d` has three bits.
first_char_iff :
    (d : ℕ) (cs : Bytes) (v : ℕ)
    → length cs ≡ 25
    → (first_char d cs ≡ ok v) ↔ ((read crockford cs d ≡ ok v) × (v < 2 ^ 128))
unfolding first_char crockford
first_char_iff d cs v e = (
  λ h. let r = small h in (r.1, omega (arith, block r.1, r.0)),
  λ (h, k). ground (arith, block h, h),
)
  where
    block : read crockford cs d ≡ ok v → (d * 32 ^ 25 ≤ v) × (v < (d + 1) * 32 ^ 25)
    block h =
        let b : (d * 32 ^ length cs ≤ v) × (v < (d + 1) * 32 ^ length cs) =
          read_block crockford cs d v h in
        rw e at b

    small : first_char d cs ≡ ok v → (d ≤ 7) × (read crockford cs d ≡ ok v)
    small h = (ground arith, ground arith)

length-decode_chars : (s : Bytes) (v : ℕ) → decode_chars s ≡ ok v → length s ≡ 26
unfolding decode_chars
length-decode_chars s v h = ground arith

read-cons :
    (c d : ℕ) (cs : Bytes) → digit c ≡ ok d → read crockford (c ∷ cs) 0 ≡ read crockford cs d
unfolding read crockford
read-cons c d cs h = rw h (ap (λ t. read crockford cs t) (omega arith))

-- `decode_chars` accepts exactly the 26-character numerals of the numbers below 2 ^ 128.
pub decode_chars_sound :
    (s : Bytes) (v : ℕ)
    → decode_chars s ≡ ok v
    → (length s ≡ 26) × (read crockford s 0 ≡ ok v) × (v < 2 ^ 128)
decode_chars_sound [] v h = absurd (omega (arith, length-decode_chars [] v h))
decode_chars_sound (c ∷ cs) v h =
    let n = length-decode_chars (c ∷ cs) v h in
    let e : length cs ≡ 25 = omega arith in
    let (d, hd, hf) =
      bind-eq-ok (digit c) (λ d. first_char d cs) (sym (decode_chars-cons c cs e) ∙ h) in
    let (hr, fits) = (first_char_iff d cs v e).0 hf in (n, read-cons c d cs hd ∙ hr, fits)

pub decode_chars_complete :
    (s : Bytes) (v : ℕ)
    → length s ≡ 26
    → read crockford s 0 ≡ ok v
    → v < 2 ^ 128
    → decode_chars s ≡ ok v
unfolding crockford
decode_chars_complete [] v n h fits = absurd (omega arith)
decode_chars_complete (c ∷ cs) v n h fits =
    let e : length cs ≡ 25 = omega arith in
    let (d, hd, _) = read-cons-eq-ok crockford c cs 0 v h in
    decode_chars-cons c cs e
    ∙ rw hd ((first_char_iff d cs v e).1 (sym (read-cons c d cs hd) ∙ h, fits))
