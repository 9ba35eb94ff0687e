-- ===== src/Engine/Crockford/Times.antt =====
-- The ten letters of a timestamp are the first ten of an identifier.
use rivid.Common.{
  ℕ, zero, suc, ◌+◌, ◌*◌, ◌/◌, ◌%◌, ◌^◌, ◌<◌, ◌≡◌, refl, ap, ◌∙◌, ◌∷◌, [], Bytes, length, take,
  false, ltb, arith,
}
use rivid.Common.Bits.{bit_and_low}
use rivid.Engine.Error.{ok}
use rivid.Engine.Alphabet.{write, length-write}
use rivid.Engine.Alphabet.Places.{take-write}
use rivid.Engine.Crockford.{letter, encode_value, time_letters, encode_time, time_max}
use rivid.Engine.Crockford.Digits.{crockford}
use rivid.Engine.Crockford.Numerals.{encode_value-write}

time_letters-write : (n v : ℕ) (out : Bytes) → time_letters n v out ≡ write crockford n v out
unfolding time_letters write crockford
time_letters-write zero v out = refl
time_letters-write (suc n) v out =
    rw (bit_and_low 5 v) (time_letters-write n (v / 32) (letter (v % 32) ∷ out))

take-encode_value : (v : ℕ) → take 10 (encode_value v) ≡ write crockford 10 (v / 2 ^ 80) []
unfolding crockford
take-encode_value v = ap (take 10) (encode_value-write v) ∙ take-write crockford 16 10 26 v refl

-- The letters of a timestamp stand in front of every identifier of its millisecond.
pub encode_time-take :
    (ts rand : ℕ)
    → ts < 2 ^ 48
    → rand < 2 ^ 80
    → (encode_time ts ≡ ok (take 10 (encode_value (ts * 2 ^ 80 + rand))))
      × (length (take 10 (encode_value (ts * 2 ^ 80 + rand))) ≡ 10)
unfolding encode_time
encode_time-take ts rand h k =
    let high : (ts * 2 ^ 80 + rand) / 2 ^ 80 ≡ ts = omega (arith, k) in
    let front : take 10 (encode_value (ts * 2 ^ 80 + rand)) ≡ write crockford 10 ts [] =
      take-encode_value (ts * 2 ^ 80 + rand) ∙ ap (λ t. write crockford 10 t []) high in
    let fits : ltb time_max ts ≡ false = ground (arith, h) in
    rw (front, fits)
      (ap ok (time_letters-write 10 ts []), omega (arith, length-write crockford 10 ts []))
