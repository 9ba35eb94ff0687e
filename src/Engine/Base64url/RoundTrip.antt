-- ===== src/Engine/Base64url/RoundTrip.antt =====
-- Decoding gives back the bytes that were encoded, where the text is not too long for the decoder.
use rivid.Common.{
  ℕ, zero, suc, ◌+◌, ◌*◌, ◌/◌, ◌%◌, ◌^◌, ◌≡◌, refl, ap, ◌∙◌, false, [], ◌∷◌, Bytes, length, All,
  take, All-get_or, ltb, ◌==◌, if◌then◌else◌, arith,
}
use rivid.Engine.Bytes.{IsByte}
use rivid.Engine.Error.{ok, err, invalid_length}
use rivid.Engine.Base64url.{sextet, encode, strip, finish, decode_loop, decode}
use rivid.Engine.Base64url.Digits.{letter_unpadded}
use rivid.Engine.Base64url.Groups.{decode_group, decode_one, decode_two, group_of, pair_of, part-lt}

pub decode_loop-encode :
    (bytes : Bytes) (acc : ℕ) → All IsByte bytes → decode_loop (encode bytes) acc 0 ≡ ok bytes
unfolding encode
decode_loop-encode [] acc h = unfold decode_loop finish in refl
decode_loop-encode (a ∷ []) acc h =
    let n : a * 2 ^ 16 % 2 ^ 32 ≡ a * 65536 = omega (arith, h.0) in rw n (decode_one a acc h.0)
decode_loop-encode (a ∷ b ∷ []) acc h = rw (pair_of a b h.0 h.1.0) (decode_two a b acc h.0 h.1.0)
decode_loop-encode (a ∷ b ∷ c ∷ bytes) acc h =
    let (acc', e) = decode_group a b c acc (encode bytes) h.0 h.1.0 h.1.1.0 in
    rw (group_of a b c h.0 h.1.0 h.1.1.0) (e ∙ rw (decode_loop-encode bytes acc' h.1.1.1) refl)

abbrev pub IsUnpadded : ℕ → Type 0
IsUnpadded c = (c == b'=') ≡ false

sextet-IsUnpadded : (n shift : ℕ) → IsUnpadded (sextet n shift)
unfolding sextet
sextet-IsUnpadded n shift = letter_unpadded _ (part-lt n shift)

pub encode-IsUnpadded : (bytes : Bytes) → All IsUnpadded (encode bytes)
unfolding encode
encode-IsUnpadded [] = tt
encode-IsUnpadded (a ∷ []) = (sextet-IsUnpadded _ 18, (sextet-IsUnpadded _ 12, tt))
encode-IsUnpadded (a ∷ b ∷ []) =
    (sextet-IsUnpadded _ 18, (sextet-IsUnpadded _ 12, (sextet-IsUnpadded _ 6, tt)))
encode-IsUnpadded (a ∷ b ∷ c ∷ bytes) = (
  sextet-IsUnpadded _ 18,
  (
    sextet-IsUnpadded _ 12,
    (sextet-IsUnpadded _ 6, (sextet-IsUnpadded _ 0, encode-IsUnpadded bytes)),
  ),
)

pub length-encode : (bytes : Bytes) → length (encode bytes) ≡ (length bytes * 4 + 2) / 3
unfolding encode
length-encode [] = refl
length-encode (a ∷ []) = refl
length-encode (a ∷ b ∷ []) = refl
length-encode (a ∷ b ∷ c ∷ bytes) = omega (arith, length-encode bytes)

strip-IsUnpadded : (bytes : Bytes) (end : ℕ) → All IsUnpadded bytes → strip 2 bytes end ≡ end
unfolding strip
strip-IsUnpadded bytes zero h = refl
strip-IsUnpadded bytes (suc end) h = rw (All-get_or IsUnpadded bytes end 0 refl h)

take-length : (bytes : Bytes) → take (length bytes) bytes ≡ bytes
take-length [] = refl
take-length (b ∷ bytes) = ap (λ t. b ∷ t) (take-length bytes)

-- Up to 6144 bytes are read back from the text that `encode` writes for them; of more bytes, the
-- text is refused as too long.
pub decode-encode_text :
    (bytes : Bytes)
    → All IsByte bytes
    → decode (encode bytes) ≡ (
        if ltb 6144 (length bytes)
        then err (invalid_length 8192 (length (encode bytes)))
        else ok bytes)
unfolding decode
decode-encode_text bytes h =
    rw
      (
        strip-IsUnpadded (encode bytes) (length (encode bytes)) (encode-IsUnpadded bytes),
        take-length (encode bytes),
        decode_loop-encode bytes 0 h,
      )
      (ground (arith, length-encode bytes))
