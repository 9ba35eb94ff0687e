-- ===== src/Engine/Base58/Rounds.antt =====
-- The loops change the base: of the bytes to 58, and of the characters' digits to 256.
use rivid.Common.{
  ℕ, zero, suc, ◌+◌, ◌*◌, ◌/◌, ◌%◌, ◌^◌, ◌<◌, ◌≡◌, refl, ap, [], ◌∷◌, Bytes, All, arith,
}
use rivid.Common.Bits.{bit_and_low}
use rivid.Engine.Bytes.{IsByte}
use rivid.Engine.Radix.{Digits, IsBelow, places, shift_in, shift_all, zeros}
use rivid.Engine.Radix.Shift.{shift_in-IsBelow}
use rivid.Engine.Base58.{leading, push_digits, add_byte, encode_loop, push_bytes, add_digit}

pub leading-zeros : (bs : Bytes) → leading 0 bs ≡ zeros bs
unfolding leading zeros
leading-zeros [] = refl
leading-zeros (zero ∷ bs) = ap suc (leading-zeros bs)
leading-zeros (suc b ∷ bs) = ground arith

push_digits-places : (rounds carry : ℕ) → push_digits rounds carry ≡ places 58 rounds carry
unfolding push_digits places
push_digits-places zero carry = refl
push_digits-places (suc rounds) zero = refl
push_digits-places (suc rounds) (suc carry) =
    ground (arith, push_digits-places rounds (suc carry / 58))

add_byte-shift_in :
    (digits : Digits) (carry : ℕ)
    → IsBelow 58 digits
    → carry < 256
    → add_byte digits carry ≡ shift_in 256 58 digits carry
unfolding add_byte shift_in
add_byte-shift_in [] carry h k = push_digits-places carry carry
add_byte-shift_in (d ∷ digits) carry h k =
    let fits : (carry + d * 2 ^ 8 % 2 ^ 32) % 2 ^ 32 ≡ carry + d * 256 = omega (arith, h.0) in
    rw fits (
      ap (λ t. ((carry + d * 256) % 58) ∷ t)
        (add_byte-shift_in digits ((carry + d * 256) / 58) h.1 (omega (arith, h.0))))

pub encode_loop-shift_all :
    (bytes digits : Digits)
    → All IsByte bytes
    → IsBelow 58 digits
    → encode_loop bytes digits ≡ shift_all 256 58 bytes digits
unfolding encode_loop shift_all
encode_loop-shift_all [] digits h k = refl
encode_loop-shift_all (b ∷ bytes) digits h k = rw (add_byte-shift_in digits b k h.0) (
    encode_loop-shift_all bytes (shift_in 256 58 digits b) h.1
      (shift_in-IsBelow 256 58 (omega arith) (omega arith) digits b))

push_bytes-places : (rounds carry : ℕ) → push_bytes rounds carry ≡ places 256 rounds carry
unfolding push_bytes places
push_bytes-places zero carry = refl
push_bytes-places (suc rounds) zero = refl
push_bytes-places (suc rounds) (suc carry) =
    ground (arith, push_bytes-places rounds (suc carry / 256), bit_and_low 8 (suc carry))

pub add_digit-shift_in :
    (output : Digits) (carry : ℕ)
    → IsBelow 256 output
    → carry < 58
    → add_digit output carry ≡ shift_in 58 256 output carry
unfolding add_digit shift_in
add_digit-shift_in [] carry h k = push_bytes-places carry carry
add_digit-shift_in (b ∷ output) carry h k =
    let fits : (carry + b * 58 % 2 ^ 32) % 2 ^ 32 ≡ carry + b * 58 = omega (arith, h.0) in
    rw (fits, bit_and_low 8 (carry + b * 58))
      (ap (λ t. ((carry + b * 58) % 256) ∷ t)
        (add_digit-shift_in output ((carry + b * 58) / 256) h.1 (omega (arith, h.0))))
