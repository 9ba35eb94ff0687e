-- ===== src/Engine/Base64url/Groups.antt =====
-- What the loop makes of a letter, and of the letters of up to three bytes.
use Prim.Native.Nat.{bit_and, bit_or}
use rivid.Common.{ℕ, ◌+◌, ◌-◌, ◌*◌, ◌/◌, ◌%◌, ◌^◌, ◌<◌, ◌≡◌, refl, ◌∙◌, [], ◌∷◌, Bytes, arith}
use rivid.Common.Bits.{bit_and_low, bit_or_disjoint}
use rivid.Engine.Error.{Result, ok, err, ◌>>=◌}
use rivid.Engine.Base64url.{letter, sextet, finish, decode_loop}
use rivid.Engine.Base64url.Digits.{digit-letter}

-- The bits that the loop holds after a digit.
abbrev pub held : ℕ → ℕ → ℕ
held acc d = acc % 2 ^ 26 * 64 + d

held-eq : (acc d : ℕ) → d < 64 → bit_or (acc * 2 ^ 6 % 2 ^ 32) d ≡ held acc d
held-eq acc d h =
    let kept : acc * 2 ^ 6 % 2 ^ 32 ≡ acc % 2 ^ 26 * 2 ^ 6 = omega arith in
    rw kept (bit_or_disjoint 6 (acc % 2 ^ 26) d h)

same_result : (r : Result Bytes) → (r >>= λ out. ok out) ≡ r
same_result (ok out) = refl
same_result (err e) = refl

-- One round of the loop at a letter, by the bits that wait.
pub decode_first :
    (d acc : ℕ) (cs : Bytes)
    → d < 64
    → decode_loop (letter d ∷ cs) acc 0 ≡ decode_loop cs (held acc d) 6
unfolding decode_loop
decode_first d acc cs h = rw (digit-letter d h, held-eq acc d h) (same_result _)

pub decode_second :
    (d acc : ℕ) (cs : Bytes)
    → d < 64
    → decode_loop (letter d ∷ cs) acc 6
      ≡ (decode_loop cs (held acc d) 4 >>= λ out. ok ((held acc d / 16 % 256) ∷ out))
unfolding decode_loop
decode_second d acc cs h = rw (digit-letter d h, held-eq acc d h) refl

pub decode_third :
    (d acc : ℕ) (cs : Bytes)
    → d < 64
    → decode_loop (letter d ∷ cs) acc 4
      ≡ (decode_loop cs (held acc d) 2 >>= λ out. ok ((held acc d / 4 % 256) ∷ out))
unfolding decode_loop
decode_third d acc cs h = rw (digit-letter d h, held-eq acc d h) refl

pub decode_fourth :
    (d acc : ℕ) (cs : Bytes)
    → d < 64
    → decode_loop (letter d ∷ cs) acc 2
      ≡ (decode_loop cs (held acc d) 0 >>= λ out. ok ((held acc d / 1 % 256) ∷ out))
unfolding decode_loop
decode_fourth d acc cs h = rw (digit-letter d h, held-eq acc d h) refl

pub finished : (acc nbits : ℕ) → bit_and acc (2 ^ nbits - 1) ≡ 0 → decode_loop [] acc nbits ≡ ok []
unfolding decode_loop finish
finished acc nbits h = ground (arith, h)

-- The digits of a group of 24 bits.
abbrev pub part : ℕ → ℕ → ℕ
part n shift = bit_and (n / 2 ^ shift) 63

pub part-eq : (n shift : ℕ) → part n shift ≡ n / 2 ^ shift % 64
part-eq n shift = bit_and_low 6 (n / 2 ^ shift)

pub part-lt : (n shift : ℕ) → part n shift < 64
part-lt n shift = omega (arith, part-eq n shift)

-- The bytes that the digits of `n` make, behind any bits.
bytes_of :
    (n acc : ℕ)
    → n < 2 ^ 24
    → (held (held acc (part n 18)) (part n 12) / 16 % 256 ≡ n / 65536)
      × (held (held acc (part n 12)) (part n 6) / 4 % 256 ≡ n / 256 % 256)
      × (held (held acc (part n 6)) (part n 0) / 1 % 256 ≡ n % 256)
bytes_of n acc h = (
  omega (arith, h, part-eq n 18, part-eq n 12),
  omega (arith, h, part-eq n 12, part-eq n 6),
  omega (arith, h, part-eq n 6, part-eq n 0),
)

pub pair_of :
    (a b : ℕ)
    → a < 256
    → b < 256
    → bit_or (a * 2 ^ 16 % 2 ^ 32) (b * 2 ^ 8 % 2 ^ 32) ≡ a * 65536 + b * 256
pair_of a b ha hb =
    let top : a * 2 ^ 16 % 2 ^ 32 ≡ a * 2 ^ 16 = omega (arith, ha) in
    let mid : b * 2 ^ 8 % 2 ^ 32 ≡ b * 2 ^ 8 = omega (arith, hb) in
    rw (top, mid) (bit_or_disjoint 16 a (b * 2 ^ 8) (omega (arith, hb)) ∙ omega arith)

pub group_of :
    (a b c : ℕ)
    → a < 256
    → b < 256
    → c < 256
    → bit_or (bit_or (a * 2 ^ 16 % 2 ^ 32) (b * 2 ^ 8 % 2 ^ 32)) c ≡ a * 65536 + b * 256 + c
group_of a b c ha hb hc =
    let two : a * 65536 + b * 256 ≡ (a * 256 + b) * 2 ^ 8 = omega arith in
    rw (pair_of a b ha hb, two) (bit_or_disjoint 8 (a * 256 + b) c hc ∙ omega arith)

pushed :
    (a b c : ℕ) (r : Result Bytes)
    → (((r >>= λ out. ok (c ∷ out)) >>= λ out. ok (b ∷ out)) >>= λ out. ok (a ∷ out))
      ≡ (r >>= λ out. ok (a ∷ b ∷ c ∷ out))
pushed a b c (ok out) = refl
pushed a b c (err e) = refl

-- Four letters of three bytes.
pub decode_group :
    (a b c acc : ℕ) (cs : Bytes)
    → a < 256
    → b < 256
    → c < 256
    → (acc' : ℕ) × (decode_loop
          (sextet (a * 65536 + b * 256 + c) 18
            ∷ sextet (a * 65536 + b * 256 + c) 12
            ∷ sextet (a * 65536 + b * 256 + c) 6
            ∷ sextet (a * 65536 + b * 256 + c) 0
            ∷ cs)
          acc
          0
        ≡ (decode_loop cs acc' 0 >>= λ out. ok (a ∷ b ∷ c ∷ out)))
unfolding sextet
decode_group a b c acc cs ha hb hc =
    let n = a * 65536 + b * 256 + c in
    let fits : n < 2 ^ 24 = omega (arith, ha, hb, hc) in
    let one = held acc (part n 18) in
    let two = held one (part n 12) in
    let three = held two (part n 6) in
    let four = held three (part n 0) in
    let first : two / 16 % 256 ≡ a = (bytes_of n acc fits).0 ∙ omega (arith, ha, hb, hc) in
    let second : three / 4 % 256 ≡ b = (bytes_of n one fits).1 ∙ omega (arith, ha, hb, hc) in
    let third : four / 1 % 256 ≡ c = (bytes_of n two fits).2 ∙ omega (arith, ha, hb, hc) in
    (
      four,
      decode_first (part n 18) acc _ (part-lt n 18)
          ∙ decode_second (part n 12) one _ (part-lt n 12)
          ∙ rw
              (
                decode_third (part n 6) two (letter (part n 0) ∷ cs) (part-lt n 6),
                decode_fourth (part n 0) three cs (part-lt n 0),
                first,
                second,
                third,
              )
              (pushed a b c (decode_loop cs four 0)),
    )

-- Two letters of one byte, and three letters of two: the bits that are left over are zero.
pub decode_one :
    (a acc : ℕ)
    → a < 256
    → decode_loop (sextet (a * 65536) 18 ∷ sextet (a * 65536) 12 ∷ []) acc 0 ≡ ok (a ∷ [])
unfolding sextet
decode_one a acc ha =
    let n = a * 65536 in
    let fits : n < 2 ^ 24 = omega (arith, ha) in
    let one = held acc (part n 18) in
    let two = held one (part n 12) in
    let first : two / 16 % 256 ≡ a = (bytes_of n acc fits).0 ∙ omega (arith, ha) in
    let left : bit_and two 15 ≡ 0 = omega (arith, bit_and_low 4 two, part-eq n 12) in
    decode_first (part n 18) acc _ (part-lt n 18)
    ∙ rw (decode_second (part n 12) one [] (part-lt n 12), first, finished two 4 left) refl

pub decode_two :
    (a b acc : ℕ)
    → a < 256
    → b < 256
    → decode_loop
        (sextet (a * 65536 + b * 256) 18
          ∷ sextet (a * 65536 + b * 256) 12
          ∷ sextet (a * 65536 + b * 256) 6
          ∷ [])
        acc
        0
      ≡ ok (a ∷ b ∷ [])
unfolding sextet
decode_two a b acc ha hb =
    let n = a * 65536 + b * 256 in
    let fits : n < 2 ^ 24 = omega (arith, ha, hb) in
    let one = held acc (part n 18) in
    let two = held one (part n 12) in
    let three = held two (part n 6) in
    let first : two / 16 % 256 ≡ a = (bytes_of n acc fits).0 ∙ omega (arith, ha, hb) in
    let second : three / 4 % 256 ≡ b = (bytes_of n one fits).1 ∙ omega (arith, ha, hb) in
    let left : bit_and three 3 ≡ 0 = omega (arith, bit_and_low 2 three, part-eq n 6) in
    decode_first (part n 18) acc _ (part-lt n 18)
    ∙ decode_second (part n 12) one _ (part-lt n 12)
    ∙ rw (decode_third (part n 6) two [] (part-lt n 6), first, second, finished three 2 left) refl
