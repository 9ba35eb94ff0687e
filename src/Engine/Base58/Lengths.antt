-- ===== src/Engine/Base58/Lengths.antt =====
-- How long the text of an identifier of 16 bytes is.
use mathlib.Core.List.{reverse, reverse-cons}
use native.Mathlib.Nat.{pow-suc, pow-zero, mul-le-mul_right, pow-le-pow_right}
use native.Mathlib.Decide.{dec_lt}
use rivid.Common.{
  ℕ, zero, suc, ◌+◌, ◌-◌, ◌*◌, ◌^◌, ◌≤◌, ◌<◌, ◌≡◌, refl, ap, ◌∙◌, subst, true, [], ◌∷◌, Bytes,
  length, length-append, length-drop, All, All-drop, drop, replicate, leb, all_below,
  all_below_sound, arith,
}
use rivid.Engine.Bytes.{IsByte, from_be_bytes, from_be_bytes-lt}
use rivid.Engine.Radix.{Digits, IsCanonical, value, zeros, shift_all, convert}
use rivid.Engine.Radix.Shift.{horner, value-shift_all, shift_all-IsCanonical}
use rivid.Engine.Base58.{encode}
use rivid.Engine.Base58.Digits.{length-letters}
use rivid.Engine.Base58.RoundTrip.{encode-convert}

-- Digits with no zero in the highest places reach the power of their highest place.
canonical-le :
    (base d : ℕ) (ds : Digits) → IsCanonical base (d ∷ ds) → base ^ length ds ≤ value base (d ∷ ds)
canonical-le base d [] h = omega (arith, h.0, pow-zero base)
canonical-le base d (e ∷ ds) h =
    let below = mul-le-mul_right base (canonical-le base e ds h.1) in
    let whole : value base (d ∷ e ∷ ds) ≡ d + value base (e ∷ ds) * base = unfold value in refl in
    omega (arith, below, whole, pow-suc base (length ds))

horner-from_be_bytes : (bs : Digits) (acc : ℕ) → horner 256 bs acc ≡ from_be_bytes bs acc
unfolding horner from_be_bytes
horner-from_be_bytes [] acc = refl
horner-from_be_bytes (b ∷ bs) acc = horner-from_be_bytes bs (acc * 256 + b)

length-reverse : (ds : Digits) → length (reverse ds) ≡ length ds
length-reverse [] = refl
length-reverse (d ∷ ds) =
    ap (λ (t : Digits). length t) (reverse-cons d ds)
    ∙ omega (arith, length-append (reverse ds) (d ∷ []), length-reverse ds)

length-replicate : (k : ℕ) → length (replicate {A = ℕ} k 0) ≡ k
length-replicate zero = refl
length-replicate (suc k) = ap suc (length-replicate k)

zeros-le : (ds : Digits) → zeros ds ≤ length ds
unfolding zeros
zeros-le [] = omega arith
zeros-le (zero ∷ ds) = omega (arith, zeros-le ds)
zeros-le (suc d ∷ ds) = omega arith

-- For each number of leading zero bytes, the room that is left.
room : all_below 17 (λ z. leb (256 ^ (16 - z)) (58 ^ (22 - z))) ≡ true
unfolding all_below
room = refl

room-le : (z : ℕ) → z ≤ 16 → 256 ^ (16 - z) ≤ 58 ^ (22 - z)
room-le z h =
    let checked =
      all_below_sound 17 (λ i. leb (256 ^ (16 - i)) (58 ^ (22 - i))) z room (omega arith) in
    leb→le _ _ checked
  where
    leb→le : (a b : ℕ) → leb a b ≡ true → a ≤ b
    leb→le a b e = ground (arith, e)

-- Digits below `58 ^ n` take `n` places at most.
fits-places : (ds : Digits) (n : ℕ) → IsCanonical 58 ds → value 58 ds < 58 ^ n → length ds ≤ n
fits-places [] n h lt = omega arith
fits-places (d ∷ ds) n h lt = elim (dec_lt (length ds) n) [
  | yes p ↦ omega (arith, p)
  | no p ↦
      let grown : 58 ^ n ≤ 58 ^ length ds = pow-le-pow_right (omega arith) (omega (arith, p)) in
      absurd (omega (arith, lt, grown, canonical-le 58 d ds h))
]

length-convert :
    (ds : Digits)
    → length (convert 256 58 ds) ≡ zeros ds + length (shift_all 256 58 (drop (zeros ds) ds) [])
unfolding convert
length-convert ds = omega (
  arith,
  length-append (replicate (zeros ds) 0) (reverse (shift_all 256 58 (drop (zeros ds) ds) [])),
  length-replicate (zeros ds),
  length-reverse (shift_all 256 58 (drop (zeros ds) ds) []),
)

value-lt : (ds : Digits) → All IsByte ds → value 58 (shift_all 256 58 ds []) < 256 ^ length ds
unfolding value
value-lt ds h = omega (
  arith,
  value-shift_all 256 58 (omega arith) (omega arith) ds [],
  horner-from_be_bytes ds 0,
  from_be_bytes-lt ds h,
)

-- The text of 16 bytes has at most 22 characters.
pub length-encode_id :
    (bytes : Bytes) → length bytes ≡ 16 → All IsByte bytes → length (encode bytes) ≤ 22
length-encode_id bytes e h =
    let z = zeros bytes in
    let r = drop z bytes in
    let out = shift_all 256 58 r [] in
    let wide : length r ≡ 16 - z = omega (arith, length-drop z bytes, e) in
    let small : value 58 out < 256 ^ (16 - z) =
      subst (λ (k : ℕ). value 58 out < 256 ^ k) wide (value-lt r (All-drop IsByte z bytes h)) in
    let inside : z ≤ 16 = omega (arith, zeros-le bytes, e) in
    let fits : value 58 out < 58 ^ (22 - z) = omega (arith, small, room-le z inside) in
    let canonical = shift_all-IsCanonical 256 58 (omega arith) (omega arith) r [] tt in
    let places = fits-places out (22 - z) canonical fits in
    omega (
      arith,
      places,
      inside,
      length-convert bytes,
      length-letters (convert 256 58 bytes),
      ap (λ (t : Bytes). length t) (encode-convert bytes h),
    )
