-- ===== src/Common/Bits.antt =====
-- `|` of disjoint bit fields and `&` with a low mask, as arithmetic at every width.
use Prim.Native.Nat.{
  ℕ, zero, suc, ◌+◌, ◌*◌, ◌/◌, ◌%◌, ◌^◌, ◌-◌, ◌≤◌, ◌<◌, min, max, digits, bitwise, bit_and, bit_or,
  bit_and-bitwise, bit_or-bitwise,
}
use mathlib.Core.Path.{◌≡◌, refl, ap}
use native.Mathlib.Nat.{pow-suc, one-le-pow}
use native.Mathlib.Omega.{arith}

-- Two amounts of fuel that are both enough give one result.
module _ (rest : ℕ → ℕ) (op : ℕ → ℕ → ℕ) where
  enough_fuel : (k l a b : ℕ) → a ≤ k → a ≤ l → digits rest op k a b ≡ digits rest op l a b
  enough_fuel (suc k) (suc l) (suc a) b h h' =
      rw (enough_fuel k l (suc a / 2) (b / 2) (omega arith) (omega arith))
  enough_fuel zero l (suc a) b h h' = elim h [ ]
  enough_fuel (suc k) zero (suc a) b h h' = elim h' [ ]
  enough_fuel zero zero zero b h h' = refl
  enough_fuel zero (suc l) zero b h h' = refl
  enough_fuel (suc k) zero zero b h h' = refl
  enough_fuel (suc k) (suc l) zero b h h' = refl

  halve_bitwise :
      (a b : ℕ)
      → bitwise rest op (suc a) b ≡ bitwise rest op (suc a / 2) (b / 2) * 2 + op (suc a % 2) (b % 2)
  halve_bitwise a b =
      omega (arith, enough_fuel a (suc a / 2) (suc a / 2) (b / 2) (omega arith) (omega arith))

-- The lowest digit of `a | b` and of `a & b`.
bit_or_halves : (a b : ℕ) → bit_or a b ≡ bit_or (a / 2) (b / 2) * 2 + max (a % 2) (b % 2)
bit_or_halves zero b = simp bit_or-bitwise (omega arith)
bit_or_halves (suc a) b = simp bit_or-bitwise (halve_bitwise (λ t. t) max a b)

bit_and_halves : (a b : ℕ) → bit_and a b ≡ bit_and (a / 2) (b / 2) * 2 + min (a % 2) (b % 2)
bit_and_halves zero b = simp bit_and-bitwise (omega arith)
bit_and_halves (suc a) b = simp bit_and-bitwise (halve_bitwise (λ t. 0) min a b)

-- Masking or filling with no bits, for numbers up to `n`.
with_zero : (n a : ℕ) → a ≤ n → (bit_or a 0 ≡ a) × (bit_and a 0 ≡ 0)
with_zero zero zero h = (refl, refl)
with_zero zero (suc a) h = elim h [ ]
with_zero (suc n) zero h = (refl, refl)
with_zero (suc n) (suc a) h =
    let (p, q) = with_zero n (suc a / 2) (omega arith) in
    (omega (arith, bit_or_halves (suc a) 0, p), omega (arith, bit_and_halves (suc a) 0, q))

twice_field : (q k : ℕ) → q * 2 ^ suc k ≡ 2 * (q * 2 ^ k)
twice_field q k = omega (arith, ap (λ (t : ℕ). q * t) (pow-suc 2 k))

-- `(q << k) | r` is a sum when `r` fits `k` bits.
pub bit_or_disjoint : (k q r : ℕ) → r < 2 ^ k → bit_or (q * 2 ^ k) r ≡ q * 2 ^ k + r
bit_or_disjoint zero q r fits = ground (arith, with_zero q q (omega arith))
bit_or_disjoint (suc k) q r fits = ground (
  arith,
  bit_or_halves (q * 2 ^ suc k) r,
  twice_field q k,
  pow-suc 2 k,
  bit_or_disjoint k q (r / 2) (omega (arith, pow-suc 2 k)),
)

mask_field : (k q r : ℕ) → r < 2 ^ k → bit_and (q * 2 ^ k + r) (2 ^ k - 1) ≡ r
mask_field zero q r fits = ground (arith, with_zero (q * 2 ^ 0 + r) (q * 2 ^ 0 + r) (omega arith))
mask_field (suc k) q r fits = ground (
  arith,
  bit_and_halves (q * 2 ^ suc k + r) (2 ^ suc k - 1),
  twice_field q k,
  pow-suc 2 k,
  one-le-pow k 2,
  mask_field k q (r / 2) (omega (arith, pow-suc 2 k)),
)

-- `a & (2 ^ k - 1)` is the remainder by `2 ^ k`.
pub bit_and_low : (k a : ℕ) → bit_and a (2 ^ k - 1) ≡ a % 2 ^ k
bit_and_low k a = ground (arith, one-le-pow k 2, mask_field k (a / 2 ^ k) (a % 2 ^ k))
