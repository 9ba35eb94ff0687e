-- ===== src/Engine/Ksuid/Numerals.antt =====
-- The loops over five limbs against one number of 160 bits: `encode_value` writes 27 digits, and
-- `decode_bytes` reads a number and stops where it outgrows 160 bits.
use rivid.Common.{
  ℕ, zero, suc, ◌+◌, ◌*◌, ◌/◌, ◌%◌, ◌^◌, ◌≤◌, ◌<◌, ◌≡◌, refl, ap, ap₂, subst, ◌∙◌, List, [], ◌∷◌,
  Bytes, length, All, ltb, ◌==◌, replicate, if◌then◌else◌, inl, inr, Bool-cases, ==_iff, arith,
}
use rivid.Engine.Bytes.{to_be_bytes, from_be_bytes, IsByte}
use rivid.Engine.Error.{Result, ok, err, ◌>>=◌, ksuid_value_too_large, Result-cases, bind-eq-ok}
use rivid.Engine.Alphabet.{write, read, read-le}
use rivid.Engine.Ksuid.{
  letter, decode_char, read_limbs, write_limbs, divide, multiply, encode_rounds, encode_value,
  decode_loop, decode_bytes,
}
use rivid.Engine.Ksuid.Digits.{base62, digit-lt}
use rivid.Engine.Ksuid.Limbs.{
  number, IsLimb, divide-IsQuotient, multiply-IsProduct, number_block, number-read_limbs,
  read_limbs-IsLimb, write_limbs-number,
}

quotient : (n q r v : ℕ) → q * 62 + r ≡ v → r < 62 → (q ≡ v / 62) × (r ≡ v % 62)
quotient n q r v e h = (omega arith, omega arith)

encode_rounds-write :
    (n : ℕ) (limbs : List ℕ) (out : Bytes)
    → All IsLimb limbs
    → encode_rounds n limbs out ≡ write base62 n (number limbs 0) out
unfolding encode_rounds write base62
encode_rounds-write zero limbs out h = refl
encode_rounds-write (suc n) limbs out h =
    let r = divide-IsQuotient limbs 0 h (omega arith) in
    let (q, m) =
      quotient n (number (divide limbs 0).0 0) (divide limbs 0).1 (number limbs 0) (r.divides 0)
        r.small in
    encode_rounds-write n (divide limbs 0).0 _ r.limbs_fit
    ∙ ap₂ (λ (a : ℕ) b. write base62 n a (letter b ∷ out)) q m

-- `encode_value` writes the 27 base 62 digits of the 160-bit number that its 20 bytes are.
pub encode_value-write :
    (bytes : Bytes)
    → length bytes ≡ 20
    → All IsByte bytes
    → encode_value bytes ≡ write base62 27 (from_be_bytes bytes 0) []
unfolding encode_value
encode_value-write bytes e h =
    encode_rounds-write 27 (read_limbs 5 bytes) [] (read_limbs-IsLimb 5 bytes e h)
    ∙ ap (λ v. write base62 27 v []) (number-read_limbs 5 bytes 0 e)

-- The reference: a number of 160 bits, and an error at the first character that takes it further.
unfoldable pub read_160 : Bytes → ℕ → Result ℕ
read_160 [] v = ok v
read_160 (c ∷ cs) v = do
  d ← decode_char c
  let next = read_160 cs (v * 62 + d)
  if ltb (v * 62 + d) (2 ^ 160) then next else err ksuid_value_too_large

-- What five limbs say of the size of the number.
carry_free :
    (low : List ℕ) (carry : ℕ)
    → length low ≡ 5
    → All IsLimb low
    → ltb (number low carry) (2 ^ 160) ≡ (carry == 0)
carry_free low carry e h =
    let (lo, hi) = number_block low carry h in
    let wide : (2 ^ 32) ^ length low ≡ 2 ^ 160 = ap (λ (n : ℕ). (2 ^ 32) ^ n) e in
    let above = subst (λ t. carry * t ≤ number low carry) wide lo in
    let below = subst (λ t. number low carry < (carry + 1) * t) wide hi in ground arith

decode_loop-read_160 :
    (cs : Bytes) (limbs : List ℕ)
    → length limbs ≡ 5
    → All IsLimb limbs
    → (decode_loop cs limbs >>= λ limbs. ok (write_limbs limbs))
      ≡ (read_160 cs (number limbs 0) >>= λ v. ok (to_be_bytes 20 v []))
unfolding decode_loop read_160
decode_loop-read_160 [] limbs e h = ap ok (write_limbs-number 20 limbs (omega arith) h)
decode_loop-read_160 (c ∷ cs) limbs e h = elim (Result-cases (decode_char c)) [
  | inr (x, p) ↦ rw p
  | inl (d, p) ↦
      let r = multiply-IsProduct limbs d h (digit-lt c d p) in
      let low = (multiply limbs d).0 in
      let carry = (multiply limbs d).1 in
      let free = carry_free low carry (r.as_many ∙ e) r.limbs_fit in
      let grown : number low carry ≡ number limbs 0 * 62 + d =
        ap (number low) (omega arith) ∙ r.multiplies 0 in
      let rest = decode_loop-read_160 cs low (r.as_many ∙ e) r.limbs_fit in
      rw (p, ← grown, free)
        (elim (Bool-cases (carry == 0)) [
          | inl z ↦ rw z (rw ((==_iff carry 0).0 z) rest)
          | inr z ↦ rw z
        ])
]

zeros : All IsLimb (replicate 5 0)
zeros = (omega arith, (omega arith, (omega arith, (omega arith, (omega arith, tt)))))

-- `decode_bytes` is the reference on every text of 27 characters, errors included: the 20 bytes of
-- the 160-bit number.
pub decode_bytes-read_160 :
    (id : Bytes)
    → length id ≡ 27
    → decode_bytes id ≡ (read_160 id 0 >>= λ v. ok (to_be_bytes 20 v []))
unfolding decode_bytes
decode_bytes-read_160 id e = rw e (decode_loop-read_160 id (replicate 5 0) refl zeros)

-- What the reference accepts: the numerals of the numbers below 2 ^ 160.
pub read_160_sound :
    (cs : Bytes) (acc v : ℕ)
    → acc < 2 ^ 160
    → read_160 cs acc ≡ ok v
    → (read base62 cs acc ≡ ok v) × (v < 2 ^ 160)
unfolding read_160 read base62
read_160_sound [] acc v h e = (e, ground arith)
read_160_sound (c ∷ cs) acc v h e = elim (Result-cases (decode_char c)) [
  | inr (x, p) ↦ absurd (ground (arith, p))
  | inl (d, p) ↦ ground (arith, p, read_160_sound cs (acc * 62 + d) v)
]

pub read_160_complete :
    (cs : Bytes) (acc v : ℕ) → read base62 cs acc ≡ ok v → v < 2 ^ 160 → read_160 cs acc ≡ ok v
unfolding read_160 read base62
read_160_complete [] acc v e h = e
read_160_complete (c ∷ cs) acc v e h =
    let (d, p, r) = bind-eq-ok (decode_char c) _ e in
    let rest = read_160_complete cs (acc * 62 + d) v r h in
    rw p (ground (arith, rest, read-le base62 cs (acc * 62 + d) v r))
