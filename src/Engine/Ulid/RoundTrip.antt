-- ===== src/Engine/Ulid/RoundTrip.antt =====
-- `encode` and `decode` of crates/core/src/ulid.rs undo one another.
use rivid.Common.{◌^◌, ◌<◌, ◌≡◌, ap, sym, ◌∙◌, subst, [], Bytes, length, map, All, arith}
use rivid.Engine.Error.{ok, bind-eq-ok}
use rivid.Engine.Bytes.{
  to_be_bytes, from_be_bytes, IsByte, to_be_bytes-IsByte, length-to_be_bytes,
  from_be_bytes-to_be_bytes, to_be_bytes-from_be_bytes, from_be_bytes-lt,
}
use rivid.Engine.Crockford.{encode_value, decode_chars}
use rivid.Engine.Crockford.Numerals.{decode_chars_sound}
use rivid.Engine.Crockford.RoundTrip.{
  decode_chars-encode_value, encode_value-decode_chars, to_upper,
}
use rivid.Engine.Ulid.{encode, decode}

encode-eq :
    (bytes : Bytes) → length bytes ≡ 16 → encode bytes ≡ ok (encode_value (from_be_bytes bytes 0))
unfolding encode
encode-eq bytes n = ground (arith, n)

pub value-lt :
    (bytes : Bytes) → length bytes ≡ 16 → All IsByte bytes → from_be_bytes bytes 0 < 2 ^ 128
value-lt bytes n h = subst (λ k. from_be_bytes bytes 0 < 256 ^ k) n (from_be_bytes-lt bytes h)

-- Any 16 bytes are encoded as a string, which is decoded to those bytes.
decode-encode :
    (bytes : Bytes)
    → length bytes ≡ 16
    → All IsByte bytes
    → (s : Bytes) × (encode bytes ≡ ok s) × (decode s ≡ ok bytes)
unfolding decode
decode-encode bytes n h = (
  encode_value (from_be_bytes bytes 0),
  encode-eq bytes n,
  rw (decode_chars-encode_value (from_be_bytes bytes 0) (value-lt bytes n h))
      (ap ok (to_be_bytes-from_be_bytes 16 bytes n h)),
)

-- A string that `decode` accepts gives 16 bytes, which are encoded as that string in upper case.
encode-decode :
    (s bytes : Bytes)
    → decode s ≡ ok bytes
    → (length bytes ≡ 16) × All IsByte bytes × (encode bytes ≡ ok (map to_upper s))
unfolding decode
encode-decode s bytes h =
    let (v, hv, hb) = bind-eq-ok (decode_chars s) (λ v. ok (to_be_bytes 16 v [])) h in
    let e : to_be_bytes 16 v [] ≡ bytes = ground arith in
    let fits : v < 256 ^ 16 = (decode_chars_sound s v hv).2 in
    let n : length bytes ≡ 16 = ap length (sym e) ∙ length-to_be_bytes 16 v in
    (
      n,
      subst (All IsByte) e (to_be_bytes-IsByte 16 v [] tt),
      encode-eq bytes n
          ∙ ap (λ b. ok (encode_value (from_be_bytes b 0))) (sym e)
          ∙ ap (λ t. ok (encode_value t)) (from_be_bytes-to_be_bytes 16 v fits)
          ∙ ap ok (encode_value-decode_chars s v hv),
    )
