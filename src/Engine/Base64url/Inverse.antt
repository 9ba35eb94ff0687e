-- ===== src/Engine/Base64url/Inverse.antt =====
-- What the loop accepts is what `encode` writes for its result.
use Prim.Native.Nat.{bit_and}
use rivid.Common.{
  ℕ, ◌+◌, ◌-◌, ◌*◌, ◌/◌, ◌%◌, ◌^◌, ◌<◌, ◌≡◌, refl, ap, ap₂, sym, ◌∙◌, inl, inr, false, [], ◌∷◌,
  Bytes, length, All, ◌==◌, Bool-cases, arith,
}
use rivid.Common.Bits.{bit_and_low}
use rivid.Engine.Bytes.{IsByte}
use rivid.Engine.Error.{Result, ok, err, ◌>>=◌, bind-eq-ok}
use rivid.Engine.Base64url.{letter, digit, sextet, encode, finish, decode_loop}
use rivid.Engine.Base64url.Digits.{letter-digit}
use rivid.Engine.Base64url.Groups.{
  held, part-eq, decode_first, decode_second, decode_third, decode_fourth, group_of, pair_of,
}

-- The first character of an accepted text is a letter.
first_letter :
    (c : ℕ) (cs : Bytes) (acc nbits : ℕ) (r : Bytes)
    → decode_loop (c ∷ cs) acc nbits ≡ ok r
    → (d : ℕ) × (d < 64) × (letter d ≡ c)
unfolding decode_loop
first_letter c cs acc nbits r h =
    let (d, hd, rest) = bind-eq-ok (digit c) _ h in
    let (small, same) = letter-digit c d hd in (d, small, same)

-- One round at an accepted character, by the bits that wait.
after_first :
    (c acc : ℕ) (cs r : Bytes)
    → decode_loop (c ∷ cs) acc 0 ≡ ok r
    → (d : ℕ) × (d < 64) × (letter d ≡ c) × (decode_loop cs (held acc d) 6 ≡ ok r)
after_first c acc cs r h =
    let (d, small, same) = first_letter c cs acc 0 r h in
    (
      d,
      small,
      same,
      sym (decode_first d acc cs small) ∙ ap (λ x. decode_loop (x ∷ cs) acc 0) same ∙ h,
    )

pushes :
    (o : Result Bytes) (b : ℕ) (r : Bytes)
    → (o >>= λ out. ok (b ∷ out)) ≡ ok r
    → (out : Bytes) × (o ≡ ok out) × (r ≡ b ∷ out)
pushes (ok out) b r h = (out, refl, ground (arith, h))
pushes (err e) b r h = absurd (ground (arith, h))

after_second :
    (c acc : ℕ) (cs r : Bytes)
    → decode_loop (c ∷ cs) acc 6 ≡ ok r
    → (d : ℕ) × (d < 64)
      × (letter d ≡ c)
      × ((out : Bytes) × (decode_loop cs (held acc d) 4 ≡ ok out)
          × (r ≡ (held acc d / 16 % 256) ∷ out))
after_second c acc cs r h =
    let (d, small, same) = first_letter c cs acc 6 r h in
    let e = sym (decode_second d acc cs small) ∙ ap (λ x. decode_loop (x ∷ cs) acc 6) same ∙ h in
    (d, small, same, pushes (decode_loop cs (held acc d) 4) _ r e)

after_third :
    (c acc : ℕ) (cs r : Bytes)
    → decode_loop (c ∷ cs) acc 4 ≡ ok r
    → (d : ℕ) × (d < 64)
      × (letter d ≡ c)
      × ((out : Bytes) × (decode_loop cs (held acc d) 2 ≡ ok out)
          × (r ≡ (held acc d / 4 % 256) ∷ out))
after_third c acc cs r h =
    let (d, small, same) = first_letter c cs acc 4 r h in
    let e = sym (decode_third d acc cs small) ∙ ap (λ x. decode_loop (x ∷ cs) acc 4) same ∙ h in
    (d, small, same, pushes (decode_loop cs (held acc d) 2) _ r e)

after_fourth :
    (c acc : ℕ) (cs r : Bytes)
    → decode_loop (c ∷ cs) acc 2 ≡ ok r
    → (d : ℕ) × (d < 64)
      × (letter d ≡ c)
      × ((out : Bytes) × (decode_loop cs (held acc d) 0 ≡ ok out)
          × (r ≡ (held acc d / 1 % 256) ∷ out))
after_fourth c acc cs r h =
    let (d, small, same) = first_letter c cs acc 2 r h in
    let e = sym (decode_fourth d acc cs small) ∙ ap (λ x. decode_loop (x ∷ cs) acc 2) same ∙ h in
    (d, small, same, pushes (decode_loop cs (held acc d) 0) _ r e)

-- The bits that are left over are zero, and nothing more is pushed.
ended :
    (acc nbits : ℕ) (r : Bytes)
    → 0 < nbits
    → decode_loop [] acc nbits ≡ ok r
    → (r ≡ []) × (bit_and acc (2 ^ nbits - 1) ≡ 0)
unfolding decode_loop finish
ended acc nbits r pos h = elim (Bool-cases (bit_and acc (2 ^ nbits - 1) == 0)) [
  | inl zeros ↦ (ground (arith, h, zeros, pos), ground (arith, zeros))
  | inr others ↦ absurd (ground (arith, h, others, pos))
]

letter_part : (n shift d c : ℕ) → letter d ≡ c → n / 2 ^ shift % 64 ≡ d → c ≡ sextet n shift
unfolding sextet
letter_part n shift d c same e = sym same ∙ ap letter (sym (part-eq n shift ∙ e))

-- The texts of one, two and three bytes with these digits.
one_text :
    (d1 d2 a b acc x : ℕ)
    → d1 < 64
    → d2 < 64
    → letter d1 ≡ a
    → letter d2 ≡ b
    → held (held acc d1) d2 / 16 % 256 ≡ x
    → bit_and (held (held acc d1) d2) 15 ≡ 0
    → (a ∷ b ∷ [] ≡ encode (x ∷ [])) × IsByte x
unfolding encode
one_text d1 d2 a b acc x s1 s2 la lb e z =
    let low : d2 % 16 ≡ 0 = omega (arith, bit_and_low 4 (held (held acc d1) d2), z) in
    let n = x * 2 ^ 16 % 2 ^ 32 in
    let whole : n ≡ d1 * 2 ^ 18 + d2 * 2 ^ 12 = omega (arith, e, low, s1, s2) in
    (
      ap₂ (λ p q. p ∷ q ∷ []) (letter_part n 18 d1 a la (omega (arith, whole, s1, s2)))
          (letter_part n 12 d2 b lb (omega (arith, whole, s1, s2))),
      omega (arith, e),
    )

two_text :
    (d1 d2 d3 a b c acc x y : ℕ)
    → d1 < 64
    → d2 < 64
    → d3 < 64
    → letter d1 ≡ a
    → letter d2 ≡ b
    → letter d3 ≡ c
    → held (held acc d1) d2 / 16 % 256 ≡ x
    → held (held (held acc d1) d2) d3 / 4 % 256 ≡ y
    → bit_and (held (held (held acc d1) d2) d3) 3 ≡ 0
    → (a ∷ b ∷ c ∷ [] ≡ encode (x ∷ y ∷ [])) × IsByte x × IsByte y
unfolding encode
two_text d1 d2 d3 a b c acc x y s1 s2 s3 la lb lc e f z =
    let low : d3 % 4 ≡ 0 = omega (arith, bit_and_low 2 (held (held (held acc d1) d2) d3), z) in
    let bx : x < 256 = omega (arith, e) in
    let by : y < 256 = omega (arith, f) in
    let n = x * 65536 + y * 256 in
    let whole : n ≡ d1 * 2 ^ 18 + d2 * 2 ^ 12 + d3 * 2 ^ 6 = omega (arith, e, f, low, s1, s2, s3) in
    (
      rw (pair_of x y bx by) (
          ap₂ ◌∷◌ (letter_part n 18 d1 a la (omega (arith, whole, s1, s2, s3))) (
            ap₂ (λ p q. p ∷ q ∷ []) (letter_part n 12 d2 b lb (omega (arith, whole, s1, s2, s3)))
              (letter_part n 6 d3 c lc (omega (arith, whole, s1, s2, s3))))),
      bx,
      by,
    )

three_text :
    (d1 d2 d3 d4 a b c d acc x y z : ℕ) (rest bytes : Bytes)
    → d1 < 64
    → d2 < 64
    → d3 < 64
    → d4 < 64
    → letter d1 ≡ a
    → letter d2 ≡ b
    → letter d3 ≡ c
    → letter d4 ≡ d
    → held (held acc d1) d2 / 16 % 256 ≡ x
    → held (held (held acc d1) d2) d3 / 4 % 256 ≡ y
    → held (held (held (held acc d1) d2) d3) d4 / 1 % 256 ≡ z
    → rest ≡ encode bytes
    → (a ∷ b ∷ c ∷ d ∷ rest ≡ encode (x ∷ y ∷ z ∷ bytes)) × IsByte x × IsByte y × IsByte z
unfolding encode
three_text d1 d2 d3 d4 a b c d acc x y z rest bytes s1 s2 s3 s4 la lb lc ld e f g same =
    let bx : x < 256 = omega (arith, e) in
    let by : y < 256 = omega (arith, f) in
    let bz : z < 256 = omega (arith, g) in
    let n = x * 65536 + y * 256 + z in
    let whole : n ≡ d1 * 2 ^ 18 + d2 * 2 ^ 12 + d3 * 2 ^ 6 + d4 =
      omega (arith, e, f, g, s1, s2, s3, s4) in
    (
      rw (group_of x y z bx by bz) (
          ap₂ ◌∷◌ (letter_part n 18 d1 a la (omega (arith, whole, s1, s2, s3, s4))) (
            ap₂ ◌∷◌ (letter_part n 12 d2 b lb (omega (arith, whole, s1, s2, s3, s4))) (
              ap₂ ◌∷◌ (letter_part n 6 d3 c lc (omega (arith, whole, s1, s2, s3, s4)))
                (ap₂ ◌∷◌ (letter_part n 0 d4 d ld (omega (arith, whole, s1, s2, s3, s4))) same)))),
      bx,
      by,
      bz,
    )

nothing : (acc : ℕ) (bytes : Bytes) → decode_loop [] acc 0 ≡ ok bytes → bytes ≡ []
unfolding decode_loop finish
nothing acc bytes h = ground (arith, h)

-- A text of letters that the loop accepts is the text of the bytes that it returns.
pub decode_loop-canonical :
    (t : Bytes) (acc : ℕ) (bytes : Bytes)
    → (length t % 4 == 1) ≡ false
    → decode_loop t acc 0 ≡ ok bytes
    → (t ≡ encode bytes) × All IsByte bytes
decode_loop-canonical [] acc bytes n h = rw (nothing acc bytes h) (unfold encode in refl, tt)
decode_loop-canonical (a ∷ []) acc bytes n h = absurd (ground (arith, n))
decode_loop-canonical (a ∷ b ∷ []) acc bytes n h =
    let (d1, s1, la, h1) = after_first a acc (b ∷ []) bytes h in
    let (d2, s2, lb, (out, h2, e2)) = after_second b (held acc d1) [] bytes h1 in
    let (nil, zeros) = ended (held (held acc d1) d2) 4 out (omega arith) h2 in
    let (same, x) = one_text d1 d2 a b acc _ s1 s2 la lb refl zeros in rw (e2, nil) (same, (x, tt))
decode_loop-canonical (a ∷ b ∷ c ∷ []) acc bytes n h =
    let (d1, s1, la, h1) = after_first a acc (b ∷ c ∷ []) bytes h in
    let (d2, s2, lb, (out2, h2, e2)) = after_second b (held acc d1) (c ∷ []) bytes h1 in
    let (d3, s3, lc, (out3, h3, e3)) = after_third c (held (held acc d1) d2) [] out2 h2 in
    let (nil, zeros) = ended (held (held (held acc d1) d2) d3) 2 out3 (omega arith) h3 in
    let (same, x, y) = two_text d1 d2 d3 a b c acc _ _ s1 s2 s3 la lb lc refl refl zeros in
    rw (e2, e3, nil) (same, (x, (y, tt)))
decode_loop-canonical (a ∷ b ∷ c ∷ d ∷ rest) acc bytes n h =
    let (d1, s1, la, h1) = after_first a acc (b ∷ c ∷ d ∷ rest) bytes h in
    let (d2, s2, lb, (out2, h2, e2)) = after_second b (held acc d1) (c ∷ d ∷ rest) bytes h1 in
    let (d3, s3, lc, (out3, h3, e3)) = after_third c (held (held acc d1) d2) (d ∷ rest) out2 h2 in
    let acc3 = held (held (held acc d1) d2) d3 in
    let (d4, s4, ld, (out4, h4, e4)) = after_fourth d acc3 rest out3 h3 in
    let shorter : (length rest % 4 == 1) ≡ false = ground (arith, n) in
    let (back, small) = decode_loop-canonical rest (held acc3 d4) out4 shorter h4 in
    let (same, x, y, z) =
      three_text d1 d2 d3 d4 a b c d acc _ _ _ rest out4 s1 s2 s3 s4 la lb lc ld refl refl refl
        back in
    rw (e2, e3, e4) (same, (x, (y, (z, small))))
