-- ===== src/Engine/Base58/RoundTrip.antt =====
-- Encoding and decoding undo each other.
use rivid.Common.{
  ℕ, zero, suc, ◌≤◌, ◌≡◌, ◌↔◌, refl, ap, ap₂, sym, ◌∙◌, [], ◌∷◌, ◌++◌, Bytes, map, length, All,
  All-drop, drop, replicate, ltb, ◌==◌, Bool-cases, false, inl, inr, arith,
}
use rivid.Engine.Bytes.{IsByte}
use rivid.Engine.Error.{ok, bind-eq-ok}
use rivid.Engine.Radix.{Digits, IsBelow, zeros, shift_in, shift_all, convert}
use rivid.Engine.Radix.Shift.{shift_in-IsBelow}
use rivid.Engine.Radix.Inverse.{convert-convert, convert-IsBelow}
use rivid.Engine.Base58.{letter, digit, leading, encode, decode, decode_loop, add_digit}
use rivid.Engine.Base58.Digits.{
  digit-letter, letter-digit, leading-letters, letters-replicate, length-letters,
}
use rivid.Engine.Base58.Rounds.{leading-zeros, encode_loop-shift_all, add_digit-shift_in}

-- The text of bytes spells the digits that their base is changed to.
pub encode-convert :
    (bytes : Bytes) → All IsByte bytes → encode bytes ≡ map letter (convert 256 58 bytes)
unfolding encode convert
encode-convert bytes h =
    let z = leading-zeros bytes in
    let below = All-drop IsByte (zeros bytes) bytes h in
    rw (z, encode_loop-shift_all (drop (zeros bytes) bytes) [] below tt)
      (sym (letters-replicate (zeros bytes) _))

decode_loop-letters :
    (ds output : Digits)
    → IsBelow 58 ds
    → IsBelow 256 output
    → decode_loop (map letter ds) output ≡ ok (shift_all 58 256 ds output)
unfolding decode_loop shift_all
decode_loop-letters [] output h k = refl
decode_loop-letters (d ∷ ds) output h k =
    rw (digit-letter d h.0, add_digit-shift_in output d k h.0)
      (decode_loop-letters ds (shift_in 58 256 output d) h.1
        (shift_in-IsBelow 58 256 (omega arith) (omega arith) output d))

drop-letters : (k : ℕ) (ds : Digits) → drop k (map letter ds) ≡ map letter (drop k ds)
drop-letters zero ds = refl
drop-letters (suc k) [] = refl
drop-letters (suc k) (d ∷ ds) = drop-letters k ds

decode-letters :
    (ds : Digits)
    → IsBelow 58 ds
    → length ds ≤ 4096
    → decode (map letter ds) ≡ ok (convert 58 256 ds)
unfolding decode convert
decode-letters ds h short =
    let fits : ltb 4096 (length (map letter ds)) ≡ false = ground (arith, length-letters ds) in
    let below = All-drop _ (zeros ds) ds h in
    rw
      (
        leading-letters ds h,
        drop-letters (zeros ds) ds,
        decode_loop-letters (drop (zeros ds) ds) [] below tt,
        fits,
      )
      refl

-- A text that the loop accepts is made of letters.
accepted :
    (cs output r : Bytes)
    → decode_loop cs output ≡ ok r
    → (ds : Digits) × IsBelow 58 ds × (cs ≡ map letter ds)
unfolding decode_loop
accepted [] output r h = ([], tt, refl)
accepted (c ∷ cs) output r h =
    let (d, hd, rest) = bind-eq-ok (digit c) (λ v. decode_loop cs (add_digit output v)) h in
    let (ds, below, same) = accepted cs (add_digit output d) r rest in
    let (small, spelt) = letter-digit c d hd in (d ∷ ds, (small, below), ap₂ ◌∷◌ (sym spelt) same)

with_ones : (s : Bytes) → s ≡ replicate (leading b'1' s) b'1' ++ drop (leading b'1' s) s
unfolding leading
with_ones [] = refl
with_ones (c ∷ s) = elim (Bool-cases (c == b'1')) [
  | inl one ↦ rw one (ap₂ ◌∷◌ (ground (arith, one)) (with_ones s))
  | inr other ↦ rw other refl
]

zeros-IsBelow : (k : ℕ) (ds : Digits) → IsBelow 58 ds → IsBelow 58 (replicate k 0 ++ ds)
zeros-IsBelow zero ds h = h
zeros-IsBelow (suc k) ds h = (omega arith, zeros-IsBelow k ds h)

decode-letters_of :
    (s bytes : Bytes)
    → decode s ≡ ok bytes
    → (ds : Digits) × IsBelow 58 ds × (s ≡ map letter ds) × (length s ≤ 4096)
unfolding decode
decode-letters_of s bytes h = elim (Bool-cases (ltb 4096 (length s))) [
  | inl long ↦ absurd (ground (arith, h, long))
  | inr short ↦
      let k = leading b'1' s in
      let (out, ran, _) = bind-eq-ok (decode_loop (drop k s) []) _ (rw short at h) in
      let (ds, below, same) = accepted (drop k s) [] out ran in
      (
        replicate k 0 ++ ds,
        zeros-IsBelow k ds below,
        with_ones s ∙ ap (λ t. replicate k b'1' ++ t) same ∙ sym (letters-replicate k ds),
        ground (arith, short),
      )
]

decoded :
    (s bytes : Bytes)
    → decode s ≡ ok bytes
    → (s ≡ encode bytes) × (length s ≤ 4096) × All IsByte bytes
decoded s bytes h =
    let (ds, below, spelt, short) = decode-letters_of s bytes h in
    let fits : length ds ≤ 4096 =
      omega (arith, short, length-letters ds, ap (λ (t : Bytes). length t) spelt) in
    let result : bytes ≡ convert 58 256 ds =
      ground (arith, h, ap decode spelt, decode-letters ds below fits) in
    let small = convert-IsBelow 58 256 (omega arith) (omega arith) ds in
    rw result (
      spelt
          ∙ ap (map letter) (sym (convert-convert 58 256 (omega arith) (omega arith) ds below))
          ∙ sym (encode-convert (convert 58 256 ds) small),
      short,
      small,
    )

encoded :
    (bytes : Bytes)
    → All IsByte bytes
    → length (encode bytes) ≤ 4096
    → decode (encode bytes) ≡ ok bytes
encoded bytes h short =
    let ds = convert 256 58 bytes in
    let same = encode-convert bytes h in
    let fits : length ds ≤ 4096 =
      omega (arith, short, length-letters ds, ap (λ (t : Bytes). length t) same) in
    ap decode same
    ∙ decode-letters ds (convert-IsBelow 256 58 (omega arith) (omega arith) bytes) fits
    ∙ ap ok (convert-convert 256 58 (omega arith) (omega arith) bytes h)

-- `decode` gives `bytes` for a text exactly where these are bytes, the text is what `encode` writes
-- for them, and it has at most 4096 characters.
pub decode_iff :
    (s bytes : Bytes)
    → (decode s ≡ ok bytes) ↔ ((s ≡ encode bytes) × (length s ≤ 4096) × All IsByte bytes)
decode_iff s bytes = (
  decoded s bytes,
  λ (e, short, h).
      ap decode e ∙ encoded bytes h (omega (arith, short, ap (λ (t : Bytes). length t) e)),
)
