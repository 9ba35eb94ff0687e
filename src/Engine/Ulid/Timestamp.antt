-- ===== src/Engine/Ulid/Timestamp.antt =====
-- The timestamp of a ULID against its 128-bit value.
use rivid.Common.{
  ℕ, zero, suc, ◌+◌, ◌*◌, ◌/◌, ◌%◌, ◌^◌, ◌≤◌, ◌<◌, ◌≡◌, refl, ap, sym, ◌∙◌, subst, inl, inr, [],
  ◌∷◌, ◌++◌, Bytes, length, take, drop, length-append, length-drop, arith,
}
use rivid.Engine.Error.{ok, ◌>>=◌, Result-cases, bind-eq-ok}
use rivid.Engine.Alphabet.{Alphabet, read, read_block}
use rivid.Engine.Crockford.{digit, time_loop, decode_time_bytes, decode_chars}
use rivid.Engine.Crockford.Digits.{crockford, digit-lt}
use rivid.Engine.Crockford.Numerals.{decode_chars_sound}
use rivid.Engine.Ulid.{decode_time}
use native.Mathlib.Nat.{pow-suc, one-le-pow, mul-le-mul_right}

read-append :
    (a : Alphabet) (xs ys : Bytes) (acc : ℕ)
    → read a (xs ++ ys) acc ≡ (read a xs acc >>= λ v. read a ys v)
unfolding read
read-append a [] ys acc = refl
read-append a (c ∷ xs) ys acc = elim (Result-cases (a.digit c)) [
  | inl (d, e) ↦ rw e (read-append a xs ys (acc * a.base + d))
  | inr (x, e) ↦ rw e
]

take-drop : (n : ℕ) (xs : Bytes) → take n xs ++ drop n xs ≡ xs
take-drop zero xs = refl
take-drop (suc n) [] = refl
take-drop (suc n) (x ∷ xs) = ap (λ ys. x ∷ ys) (take-drop n xs)

-- One more digit stays within what is left of the 64 bits.
room :
    (n acc d : ℕ)
    → d < 32
    → (acc + 1) * 32 ^ suc n ≤ 2 ^ 64
    → (acc * 32 + d < 2 ^ 64) × ((acc * 32 + d + 1) * 32 ^ n ≤ 2 ^ 64)
room n acc d h k =
    let wide : 32 ^ suc n ≡ 32 ^ n * 32 = pow-suc 32 n in
    let all_left : (acc + 1) * 32 * 32 ^ n ≤ 2 ^ 64 =
      omega (arith, k, ap (λ (t : ℕ). acc * t) wide, wide) in
    let place : 1 ≤ 32 ^ n = one-le-pow n 32 (omega arith) in
    let few = mul-le-mul_right ((acc + 1) * 32) place in
    let rest =
      mul-le-mul_right {m = acc * 32 + d + 1} {n = (acc + 1) * 32} (32 ^ n) (omega arith) in
    (omega arith, omega arith)

wrapped : (acc d : ℕ) → acc * 32 + d < 2 ^ 64 → (acc * 32 % 2 ^ 64 + d) % 2 ^ 64 ≡ acc * 32 + d
wrapped acc d h = omega (arith, h)

-- Within 64 bits the loop is Horner's rule.
time_loop-read :
    (cs : Bytes) (acc : ℕ)
    → (acc + 1) * 32 ^ length cs ≤ 2 ^ 64
    → time_loop cs acc ≡ read crockford cs acc
unfolding time_loop read crockford
time_loop-read [] acc h = refl
time_loop-read (c ∷ cs) acc h = elim (Result-cases (digit c)) [
  | inr (x, e) ↦ rw e
  | inl (d, e) ↦ rw e (
      let (fits, next) = room (length cs) acc d (digit-lt c d e) h in
      rw (wrapped acc d fits) (time_loop-read cs (acc * 32 + d) next))
]

quotient : (t v k : ℕ) → k ≡ 16 → t * 32 ^ k ≤ v → v < (t + 1) * 32 ^ k → t ≡ v / 2 ^ 80
quotient t v k e lo hi =
    let lower : t * 32 ^ 16 ≤ v = subst (λ j. t * 32 ^ j ≤ v) e lo in
    let upper : v < (t + 1) * 32 ^ 16 = subst (λ j. v < (t + 1) * 32 ^ j) e hi in omega arith

-- The first ten of 26 digits are the value without its last 80 bits.
read-time :
    (s : Bytes) (v : ℕ)
    → length s ≡ 26
    → read crockford s 0 ≡ ok v
    → v < 2 ^ 128
    → read crockford (take 10 s) 0 ≡ ok (v / 2 ^ 80)
unfolding crockford
read-time s v n h fits =
    let whole =
      sym (read-append crockford (take 10 s) (drop 10 s) 0)
      ∙ ap (λ xs. read crockford xs 0) (take-drop 10 s)
      ∙ h in
    let (t, front, back) = bind-eq-ok (read crockford (take 10 s) 0) _ whole in
    let block = read_block crockford (drop 10 s) t v back in
    let size : length (drop 10 s) ≡ 16 = omega (arith, length-drop 10 s) in
    front ∙ ap ok (quotient t v (length (drop 10 s)) size block.0 block.1)

length-take_ten : (s : Bytes) → length s ≡ 26 → length (take 10 s) ≡ 10
length-take_ten s n =
    omega
      (arith, length-append (take 10 s) (drop 10 s), ap length (take-drop 10 s), length-drop 10 s)

decode_time_bytes-eq :
    (cs : Bytes) (t : ℕ)
    → length cs ≡ 10
    → read crockford cs 0 ≡ ok t
    → t < 2 ^ 48
    → decode_time_bytes cs ≡ ok t
unfolding decode_time_bytes
decode_time_bytes-eq cs t n h fits =
    let loop : time_loop cs 0 ≡ ok t =
      time_loop-read cs 0 (subst (λ k. (0 + 1) * 32 ^ k ≤ 2 ^ 64) (sym n) (omega arith)) ∙ h in
    rw (n, loop) (ground (arith, fits))

-- The timestamp of a string that `decode` accepts is the value's first 48 bits.
pub decode_time-decode_chars :
    (s : Bytes) (v : ℕ) → decode_chars s ≡ ok v → decode_time s ≡ ok (v / 2 ^ 80)
unfolding decode_time
decode_time-decode_chars s v h =
    let (n, r, fits) = decode_chars_sound s v h in
    rw n (
      decode_time_bytes-eq (take 10 s) (v / 2 ^ 80) (length-take_ten s n) (read-time s v n r fits)
        (omega (arith, fits)))
