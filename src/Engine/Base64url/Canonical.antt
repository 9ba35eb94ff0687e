-- ===== src/Engine/Base64url/Canonical.antt =====
-- Which texts `decode` accepts.
use rivid.Common.{
  ℕ, zero, suc, ◌+◌, ◌-◌, ◌%◌, ◌≤◌, ◌≡◌, ◌↔◌, ◌⊎◌, refl, ap, sym, ◌∙◌, subst, inl, inr, false, not,
  ◌&&◌, ◌||◌, [], ◌++◌, Bytes, length, length-append, All, take, ltb, ◌==◌, Bool, Bool-cases, arith,
}
use mathlib.Core.List.{append-nil}
use rivid.Engine.Bytes.{IsByte}
use rivid.Engine.Error.{ok}
use rivid.Engine.Base64url.{strip, encode, decode, decode_loop}
use rivid.Engine.Base64url.Inverse.{decode_loop-canonical}
use rivid.Engine.Base64url.Padding.{
  padding, length-padding, strip-padding, strip-append, take-append,
}
use rivid.Engine.Base64url.RoundTrip.{decode_loop-encode, encode-IsUnpadded, length-encode}

-- No padding, or as much as fills a text of `n` characters up to fours.
abbrev pub IsPadding : ℕ → ℕ → Type 0
IsPadding n pad = (pad ≡ 0) ⊎ ((pad ≤ 2) × ((n + pad) % 4 ≡ 0))

-- The test of the two lengths.
abbrev misfits : ℕ → ℕ → Bool
misfits end pad = (end % 4 == 1) || (ltb 0 pad && not ((end + pad) % 4 == 0))

fits-IsPadding :
    (end pad : ℕ) → pad ≤ 2 → misfits end pad ≡ false → ((end % 4 == 1) ≡ false) × IsPadding end pad
fits-IsPadding end zero few h = (ground (arith, h), inl refl)
fits-IsPadding end (suc pad) few h = (ground (arith, h), inr (few, ground (arith, h)))

IsPadding-fits :
    (end pad : ℕ) → (end % 4 == 1) ≡ false → IsPadding end pad → misfits end pad ≡ false
IsPadding-fits end pad n (inl e) = ground (arith, n, e)
IsPadding-fits end pad n (inr h) = ground (arith, n, h.1)

take-length : (s : Bytes) → take (length s) s ≡ s
take-length s = ap (take (length s)) (sym (append-nil s)) ∙ take-append s []

accepted :
    (s bytes : Bytes)
    → decode s ≡ ok bytes
    → (length s ≤ 8192)
      × (misfits (strip 2 s (length s)) (length s - strip 2 s (length s)) ≡ false)
      × (decode_loop (take (strip 2 s (length s)) s) 0 0 ≡ ok bytes)
unfolding decode
accepted s bytes h = elim (Bool-cases (ltb 8192 (length s))) [
  | inl long ↦ absurd (ground (arith, h, long))
  | inr short ↦
      elim (Bool-cases (misfits (strip 2 s (length s)) (length s - strip 2 s (length s)))) [
        | inl bad ↦ absurd (ground (arith, rw (short, bad) at h))
        | inr good ↦ (ground (arith, short), good, rw (short, good) at h)
      ]
]

accepts :
    (s bytes : Bytes)
    → length s ≤ 8192
    → misfits (strip 2 s (length s)) (length s - strip 2 s (length s)) ≡ false
    → decode_loop (take (strip 2 s (length s)) s) 0 0 ≡ ok bytes
    → decode s ≡ ok bytes
unfolding decode
accepts s bytes short good h =
    let fits : ltb 8192 (length s) ≡ false = ground (arith, short) in rw (fits, good) h

-- What is accepted: the text of bytes, and padding behind it.
abbrev pub IsText : Bytes → Bytes → Type 0
IsText s bytes =
    (pad : ℕ) × (s ≡ encode bytes ++ padding pad)
    × IsPadding (length (encode bytes)) pad
    × (length s ≤ 8192)
    × All IsByte bytes

decoded : (s bytes : Bytes) → decode s ≡ ok bytes → IsText s bytes
decoded s bytes h =
    let (short, good, ran) = accepted s bytes h in
    let end = strip 2 s (length s) in
    let (pad, few, whole, same) = strip-padding 2 s (length s) (omega arith) in
    let left : length s - end ≡ pad = omega (arith, whole) in
    let (four, fits) = fits-IsPadding end pad few (subst (λ k. misfits end k ≡ false) left good) in
    let t = take end s in
    let split : s ≡ t ++ padding pad = sym (take-length s) ∙ same in
    let wide : length t ≡ end = omega (
      arith,
      ap (λ (x : Bytes). length x) split,
      length-append t (padding pad),
      length-padding pad,
      whole,
    ) in
    let (text, small) =
      decode_loop-canonical t 0 bytes (subst (λ k. (k % 4 == 1) ≡ false) (sym wide) four) ran in
    (
      pad,
      split ∙ ap (λ x. x ++ padding pad) text,
      subst (λ k. IsPadding k pad) (sym wide ∙ ap (λ (x : Bytes). length x) text) fits,
      short,
      small,
    )

few-IsPadding : (n pad : ℕ) → IsPadding n pad → pad ≤ 2
few-IsPadding n pad (inl e) = omega (arith, e)
few-IsPadding n pad (inr h) = h.0

encoded : (s bytes : Bytes) → IsText s bytes → decode s ≡ ok bytes
encoded s bytes (pad, same, fits, short, small) =
    let t = encode bytes in
    let few = few-IsPadding (length t) pad fits in
    let wide : length s ≡ length t + pad = omega (
      arith,
      ap (λ (x : Bytes). length x) same,
      length-append t (padding pad),
      length-padding pad,
    ) in
    let end : strip 2 s (length s) ≡ length t =
      ap (λ x. strip 2 x (length s)) same
      ∙ strip-append 2 t pad pad (length s) (encode-IsUnpadded bytes) few (omega arith) wide in
    let four : (length t % 4 == 1) ≡ false = ground (arith, length-encode bytes) in
    let left : length s - length t ≡ pad = omega (arith, wide) in
    let letters : take (length t) s ≡ t = ap (take (length t)) same ∙ take-append t (padding pad) in
    accepts s bytes short (rw (end, left) (IsPadding-fits (length t) pad four fits))
      (rw (end, letters) (decode_loop-encode bytes 0 small))

-- `decode` gives `bytes` for a text exactly where these are bytes, and the text is what `encode`
-- writes for them, without padding or with one or two padding characters that fill it up to fours,
-- and has at most 8192 characters.
pub decode_iff_IsText : (s bytes : Bytes) → (decode s ≡ ok bytes) ↔ IsText s bytes
decode_iff_IsText s bytes = (decoded s bytes, encoded s bytes)
