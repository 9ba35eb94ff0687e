-- ===== src/Engine/Alphabet.antt =====
-- Positional numerals over an alphabet, which every text codec of the engine is an instance of:
-- reading most significant digit first, writing from the last place, and how the two meet.
pub mod Order
pub mod Table
pub mod Places
use rivid.Common.{
  ℕ, zero, suc, ◌+◌, ◌*◌, ◌/◌, ◌%◌, ◌^◌, ◌≤◌, ◌<◌, ◌≡◌, refl, ap, ◌∙◌, [], ◌∷◌, Bytes, length,
  arith,
}
use rivid.Engine.Error.{Result, ok, ◌>>=◌, bind-eq-ok}
use native.Mathlib.Nat.{
  pow-suc, pow-zero, div-add-mod, mod-lt, le_trans, mul-le-mul_right, mul-le-mul_left,
}

-- An alphabet: a letter for each digit, and the digit of a character, if it has one.
pub record Alphabet : Type 0 where
  pub base : ℕ
  pub letter : ℕ → ℕ
  pub digit : ℕ → Result ℕ
  pub base_pos : 0 < base
  pub digit-letter : (d : ℕ) → d < base → digit (letter d) ≡ ok d
  pub digit-lt : (c d : ℕ) → digit c ≡ ok d → d < base

module _ (a : Alphabet) where
  open a use {base, letter, digit, base_pos, digit-letter, digit-lt}

  -- Horner's rule: the number that `cs` spells behind `acc`.
  unfoldable pub read : Bytes → ℕ → Result ℕ
  read [] acc = ok acc
  read (c ∷ cs) acc = do d ← digit c; read cs (acc * base + d)

  -- `n` letters of `v`, written from the last place to the first in front of `out`.
  unfoldable pub write : ℕ → ℕ → Bytes → Bytes
  write zero v out = out
  write (suc n) v out = write n (v / base) (letter (v % base) ∷ out)

  pub length-write : (n v : ℕ) (out : Bytes) → length (write n v out) ≡ n + length out
  unfolding write
  length-write zero v out = omega arith
  length-write (suc n) v out = omega (arith, length-write n (v / base) (letter (v % base) ∷ out))

  read_letter :
      (v acc : ℕ) (out : Bytes)
      → read (letter (v % base) ∷ out) acc ≡ read out (acc * base + v % base)
  unfolding read
  read_letter v acc out = rw (digit-letter (v % base) (mod-lt v base_pos))

  pub div-lt : (n v : ℕ) → v < base ^ suc n → v / base < base ^ n
  div-lt n v h = grind (arith, pow-suc base n, div-add-mod v base)

  shift_place :
      (acc n v : ℕ) → (acc * base ^ n + v / base) * base + v % base ≡ acc * base ^ suc n + v
  shift_place acc n v = omega (arith, ap (λ (t : ℕ). acc * t) (pow-suc base n), div-add-mod v base)

  write-zero : (v : ℕ) (out : Bytes) → write zero v out ≡ out
  unfolding write
  write-zero v out = refl

  write-suc :
      (n v : ℕ) (out : Bytes) → write (suc n) v out ≡ write n (v / base) (letter (v % base) ∷ out)
  unfolding write
  write-suc n v out = refl

  -- Reading the letters of `v` puts them behind what was read before.
  pub read-write :
      (n v acc : ℕ) (out : Bytes)
      → v < base ^ n
      → read (write n v out) acc ≡ read out (acc * base ^ n + v)
  read-write zero v acc out h =
      rw (write-zero v out) (ap (λ t. read out t) (grind (arith, pow-zero base)))
  read-write (suc n) v acc out h = rw (write-suc n v out) (
      read-write n (v / base) acc (letter (v % base) ∷ out) (div-lt n v h)
      ∙ read_letter v (acc * base ^ n + v / base) out
      ∙ ap (λ t. read out t) (shift_place acc n v))

  sub_block :
      (acc d p q : ℕ)
      → d < base
      → q ≡ p * base
      → (acc * q ≤ (acc * base + d) * p) × ((acc * base + d + 1) * p ≤ (acc + 1) * q)
  sub_block acc d p q h e =
      let room = mul-le-mul_right p h in
      (omega (arith, ap (λ (t : ℕ). acc * t) e), omega (arith, e, room, ap (λ (t : ℕ). acc * t) e))

  -- `n` characters behind `acc` spell a number of the block that `acc` begins.
  pub read_block :
      (cs : Bytes) (acc v : ℕ)
      → read cs acc ≡ ok v
      → (acc * base ^ length cs ≤ v) × (v < (acc + 1) * base ^ length cs)
  unfolding read
  read_block [] acc v h = ground (arith, pow-zero base)
  read_block (c ∷ cs) acc v h =
      let (d, hd, hr) = bind-eq-ok (digit c) _ h in
      let (lo, hi) = read_block cs (acc * base + d) v hr in
      let sub = sub_block acc d _ _ (digit-lt c d hd) (pow-suc base (length cs)) in
      (le_trans sub.0 lo, le_trans hi sub.1)

  pub read-cons-eq-ok :
      (c : ℕ) (cs : Bytes) (acc v : ℕ)
      → read (c ∷ cs) acc ≡ ok v
      → (d : ℕ) × (digit c ≡ ok d) × (read cs (acc * base + d) ≡ ok v)
  unfolding read
  read-cons-eq-ok c cs acc v h = bind-eq-ok (digit c) _ h

  -- A number below `base ^ n` is read back from its `n` letters.
  pub read-numeral : (n v : ℕ) → v < base ^ n → read (write n v []) 0 ≡ ok v
  unfolding read
  read-numeral n v h = read-write n v 0 [] h ∙ ap ok (omega arith)

  pub read-cons-ok :
      (c d : ℕ) (cs : Bytes) (acc : ℕ)
      → digit c ≡ ok d
      → read (c ∷ cs) acc ≡ read cs (acc * base + d)
  unfolding read
  read-cons-ok c d cs acc h = rw h

  -- What was read before is no more than what it grows to.
  pub read-le : (cs : Bytes) (acc v : ℕ) → read cs acc ≡ ok v → acc ≤ v
  unfolding read
  read-le [] acc v h = ground arith
  read-le (c ∷ cs) acc v h =
      let (d, hd, hr) = bind-eq-ok (digit c) _ h in
      let grown = read-le cs (acc * base + d) v hr in
      let room = mul-le-mul_left acc base_pos in omega (arith, grown, room)
