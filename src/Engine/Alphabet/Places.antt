-- ===== src/Engine/Alphabet/Places.antt =====
-- The letters of the high places of a number.
use rivid.Common.{
  ℕ, zero, suc, ◌+◌, ◌/◌, ◌%◌, ◌^◌, ◌≡◌, refl, ap, sym, ◌∙◌, [], ◌∷◌, ◌++◌, Bytes, length, take,
  arith,
}
use mathlib.Core.List.{append_assoc}
use native.Mathlib.Nat.{pow-suc, pow-zero, div-div-eq-div-mul, mul_comm}
use rivid.Engine.Alphabet.{Alphabet, write, write-zero, write-suc, length-write}

module _ (a : Alphabet) where
  open a use {base, letter, base_pos}

  write-append : (n v : ℕ) (out : Bytes) → write a n v out ≡ write a n v [] ++ out
  unfolding write
  write-append zero v out = refl
  write-append (suc n) v out =
      write-append n (v / base) (letter (v % base) ∷ out)
      ∙ sym (append_assoc (write a n (v / base) []) (letter (v % base) ∷ []) out)
      ∙ ap (λ t. t ++ out) (sym (write-append n (v / base) (letter (v % base) ∷ [])))

  -- The low `n` places, and then the `m` places above them.
  write-split :
      (n m k v : ℕ) (out : Bytes)
      → k ≡ n + m
      → write a k v out ≡ write a m (v / base ^ n) (write a n v out)
  write-split zero m k v out e =
      let same : k ≡ m = omega (arith, e) in
      let whole : v / base ^ zero ≡ v = omega (arith, ap (λ (t : ℕ). v / t) (pow-zero base)) in
      rw (same, whole, write-zero a v out) refl
  write-split (suc n) m zero v out e = absurd (omega (arith, e))
  write-split (suc n) m (suc k) v out e =
      let place : v / base / base ^ n ≡ v / base ^ suc n =
        div-div-eq-div-mul v base (base ^ n)
        ∙ ap (λ t. v / t) (mul_comm base (base ^ n) ∙ sym (pow-suc base n)) in
      rw (write-suc a k v out, write-suc a n v out)
        (write-split n m k (v / base) (letter (v % base) ∷ out) (omega (arith, e))
          ∙ ap (λ t. write a m t (write a n (v / base) (letter (v % base) ∷ out))) place)

  take-front : (t u : Bytes) (n : ℕ) → length t ≡ n → take n (t ++ u) ≡ t
  take-front [] u zero h = refl
  take-front [] u (suc n) h = absurd (omega (arith, h))
  take-front (c ∷ t) u zero h = absurd (omega (arith, h))
  take-front (c ∷ t) u (suc n) h = ap (λ x. c ∷ x) (take-front t u n (omega (arith, h)))

  -- The first `m` of `n + m` letters are those of the number above the low `n` places.
  pub take-write : (n m k v : ℕ) → k ≡ n + m → take m (write a k v []) ≡ write a m (v / base ^ n) []
  take-write n m k v e =
      let high = write a m (v / base ^ n) [] in
      ap (take m) (write-split n m k v [] e ∙ write-append m (v / base ^ n) (write a n v []))
      ∙ take-front high (write a n v []) m (omega (arith, length-write a m (v / base ^ n) []))
