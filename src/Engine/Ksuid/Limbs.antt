-- ===== src/Engine/Ksuid/Limbs.antt =====
-- The limbs against the one number that they stand for: reading and writing them, dividing them by
-- 62 and multiplying them by 62.
use Prim.Native.Nat.{bit_or}
use rivid.Common.{
  ℕ, zero, suc, ◌+◌, ◌*◌, ◌/◌, ◌%◌, ◌^◌, ◌≤◌, ◌<◌, ◌≡◌, refl, ap, sym, ◌∙◌, List, [], ◌∷◌, Bytes,
  length, All, take, drop, arith,
}
use rivid.Common.Bits.{bit_or_disjoint}
use rivid.Engine.Bytes.{
  to_be_bytes, from_be_bytes, IsByte, to_be_bytes-IsByte, to_be_bytes-from_be_bytes,
}
use rivid.Engine.Ksuid.{read_limbs, write_limbs, divide, multiply}
use native.Mathlib.Nat.{mod-eq_of_lt, pow-suc, le_trans, mul-le-mul_right}

-- The number that limbs of 32 bits stand for, behind `acc`.
abbrev pub number : List ℕ → ℕ → ℕ
number [] acc = acc
number (limb ∷ limbs) acc = number limbs (acc * 2 ^ 32 + limb)

abbrev pub IsLimb : ℕ → Type 0
IsLimb limb = limb < 2 ^ 32

word :
    (bs : Bytes) (acc : ℕ)
    → 4 ≤ length bs
    → from_be_bytes bs acc ≡ from_be_bytes (drop 4 bs) (acc * 2 ^ 32 + from_be_bytes (take 4 bs) 0)
unfolding from_be_bytes
word (a ∷ b ∷ c ∷ d ∷ bs) acc h = ap (from_be_bytes bs) (omega arith)
word [] acc h = absurd (omega arith)
word (a ∷ []) acc h = absurd (omega arith)
word (a ∷ b ∷ []) acc h = absurd (omega arith)
word (a ∷ b ∷ c ∷ []) acc h = absurd (omega arith)

length-drop_word : (bs : Bytes) (k : ℕ) → length bs ≡ suc k * 4 → length (drop 4 bs) ≡ k * 4
length-drop_word (a ∷ b ∷ c ∷ d ∷ bs) k h = omega arith
length-drop_word [] k h = absurd (omega arith)
length-drop_word (a ∷ []) k h = absurd (omega arith)
length-drop_word (a ∷ b ∷ []) k h = absurd (omega arith)
length-drop_word (a ∷ b ∷ c ∷ []) k h = absurd (omega arith)

from_be_bytes-nil : (bs : Bytes) (acc : ℕ) → length bs ≡ 0 → from_be_bytes bs acc ≡ acc
unfolding from_be_bytes
from_be_bytes-nil [] acc h = refl
from_be_bytes-nil (b ∷ bs) acc h = absurd (omega arith)

-- The limbs of `n` words of bytes stand for the number that the bytes are.
pub number-read_limbs :
    (n : ℕ) (bs : Bytes) (acc : ℕ)
    → length bs ≡ n * 4
    → number (read_limbs n bs) acc ≡ from_be_bytes bs acc
unfolding read_limbs
number-read_limbs zero bs acc h = sym (from_be_bytes-nil bs acc h)
number-read_limbs (suc n) bs acc h =
    number-read_limbs n (drop 4 bs) _ (length-drop_word bs n h) ∙ sym (word bs acc (omega arith))

pub length-write_limbs : (limbs : List ℕ) → length (write_limbs limbs) ≡ length limbs * 4
unfolding write_limbs to_be_bytes
length-write_limbs [] = refl
length-write_limbs (limb ∷ limbs) = omega (arith, length-write_limbs limbs)

write_limbs-IsByte : (limbs : List ℕ) → All IsByte (write_limbs limbs)
unfolding write_limbs
write_limbs-IsByte [] = tt
write_limbs-IsByte (limb ∷ limbs) = to_be_bytes-IsByte 4 limb _ (write_limbs-IsByte limbs)

from_be_bytes-write_limbs :
    (limbs : List ℕ) (acc : ℕ)
    → All IsLimb limbs
    → from_be_bytes (write_limbs limbs) acc ≡ number limbs acc
unfolding write_limbs to_be_bytes from_be_bytes
from_be_bytes-write_limbs [] acc h = refl
from_be_bytes-write_limbs (limb ∷ limbs) acc h =
    ap (from_be_bytes (write_limbs limbs)) (omega (arith, h.0))
    ∙ from_be_bytes-write_limbs limbs (acc * 2 ^ 32 + limb) h.1

-- The bytes of the limbs are those of the number.
pub write_limbs-number :
    (n : ℕ) (limbs : List ℕ)
    → length limbs * 4 ≡ n
    → All IsLimb limbs
    → write_limbs limbs ≡ to_be_bytes n (number limbs 0) []
write_limbs-number n limbs e h =
    sym (
      to_be_bytes-from_be_bytes n (write_limbs limbs) (length-write_limbs limbs ∙ e)
        (write_limbs-IsByte limbs))
    ∙ ap (λ v. to_be_bytes n v []) (from_be_bytes-write_limbs limbs 0 h)

pub read_limbs-IsLimb :
    (n : ℕ) (bs : Bytes) → length bs ≡ n * 4 → All IsByte bs → All IsLimb (read_limbs n bs)
unfolding read_limbs from_be_bytes
read_limbs-IsLimb zero bs e h = tt
read_limbs-IsLimb (suc n) (a ∷ b ∷ c ∷ d ∷ bs) e h =
    (omega (arith, h.0, h.1.0, h.1.1.0, h.1.1.1.0), read_limbs-IsLimb n bs (omega arith) h.1.1.1.1)
read_limbs-IsLimb (suc n) [] e h = absurd (omega arith)
read_limbs-IsLimb (suc n) (a ∷ []) e h = absurd (omega arith)
read_limbs-IsLimb (suc n) (a ∷ b ∷ []) e h = absurd (omega arith)
read_limbs-IsLimb (suc n) (a ∷ b ∷ c ∷ []) e h = absurd (omega arith)

pub length-read_limbs : (n : ℕ) (bs : Bytes) → length (read_limbs n bs) ≡ n
unfolding read_limbs
length-read_limbs zero bs = refl
length-read_limbs (suc n) bs = ap suc (length-read_limbs n (drop 4 bs))

-- The dividend of a step, `(rem << 32) | limb`.
dividend :
    (rem limb : ℕ)
    → rem < 62
    → limb < 2 ^ 32
    → bit_or (rem * 2 ^ 32 % 2 ^ 64) limb ≡ rem * 2 ^ 32 + limb
dividend rem limb h k =
    rw (mod-eq_of_lt {n = rem * 2 ^ 32} {m = 2 ^ 64} (omega arith)) (bit_or_disjoint 32 rem limb k)

-- What the long division leaves: limbs, as many, of the quotient, and the remainder.
pub record IsQuotient (limbs : List ℕ) (rem : ℕ) (result : List ℕ × ℕ) : Type 0 where
  pub limbs_fit : All IsLimb result.0
  pub as_many : length result.0 ≡ length limbs
  pub small : result.1 < 62
  pub divides : (q : ℕ) → number result.0 q * 62 + result.1 ≡ number limbs (q * 62 + rem)

pub divide-IsQuotient :
    (limbs : List ℕ) (rem : ℕ)
    → All IsLimb limbs
    → rem < 62
    → IsQuotient limbs rem (divide limbs rem)
unfolding divide
divide-IsQuotient [] rem h k = record {
  limbs_fit = tt;
  as_many = refl;
  small = k;
  divides = λ q. refl;
}
divide-IsQuotient (limb ∷ limbs) rem h k =
    let v = rem * 2 ^ 32 + limb in
    let r = divide-IsQuotient limbs (v % 62) h.1 (omega arith) in
    rw (dividend rem limb k h.0) (record {
      limbs_fit = (omega arith, r.limbs_fit);
      as_many = ap suc r.as_many;
      small = r.small;
      divides =
          λ q. r.divides (q * 2 ^ 32 + v / 62 % 2 ^ 32) ∙ ap (number limbs) (omega (arith, h.0));
    })

-- What the multiplication leaves: limbs, as many, of the product, and the carry out of the first.
pub record IsProduct (limbs : List ℕ) (digit : ℕ) (result : List ℕ × ℕ) : Type 0 where
  pub limbs_fit : All IsLimb result.0
  pub as_many : length result.0 ≡ length limbs
  pub small : result.1 < 62
  pub multiplies : (q : ℕ) → number result.0 (q * 62 + result.1) ≡ number limbs q * 62 + digit

pub multiply-IsProduct :
    (limbs : List ℕ) (digit : ℕ)
    → All IsLimb limbs
    → digit < 62
    → IsProduct limbs digit (multiply limbs digit)
unfolding multiply
multiply-IsProduct [] digit h k = record {
  limbs_fit = tt;
  as_many = refl;
  small = k;
  multiplies = λ q. refl;
}
multiply-IsProduct (limb ∷ limbs) digit h k =
    let r = multiply-IsProduct limbs digit h.1 k in
    record {
      limbs_fit = (omega arith, r.limbs_fit);
      as_many = ap suc r.as_many;
      small = omega (arith, h.0, r.small);
      multiplies = λ q.
          ap (number (multiply limbs digit).0) (omega (arith, h.0, r.small))
          ∙ r.multiplies (q * 2 ^ 32 + limb);
    }

-- A block of limbs, as numbers.
block :
    (acc limb p q : ℕ)
    → limb < 2 ^ 32
    → q ≡ p * 2 ^ 32
    → (acc * q ≤ (acc * 2 ^ 32 + limb) * p) × ((acc * 2 ^ 32 + limb + 1) * p ≤ (acc + 1) * q)
block acc limb p q h e =
    let room = mul-le-mul_right p h in
    (omega (arith, ap (λ (t : ℕ). acc * t) e), omega (arith, e, room, ap (λ (t : ℕ). acc * t) e))

-- Limbs behind `acc` stand for a number of the block that `acc` begins.
pub number_block :
    (limbs : List ℕ) (acc : ℕ)
    → All IsLimb limbs
    → (acc * (2 ^ 32) ^ length limbs ≤ number limbs acc)
      × (number limbs acc < (acc + 1) * (2 ^ 32) ^ length limbs)
number_block [] acc h = (omega arith, omega arith)
number_block (limb ∷ limbs) acc h =
    let (lo, hi) = number_block limbs (acc * 2 ^ 32 + limb) h.1 in
    let sub = block acc limb _ _ h.0 (pow-suc (2 ^ 32) (length limbs)) in
    (le_trans sub.0 lo, le_trans hi sub.1)
