-- ===== src/Runs/Encodings.antt =====
use rivid.Common.{
  [], ◌∷◌, Bytes, All, replicate, ◌≤◌, ◌^◌, ◌-◌, ◌≡◌, ◌↔◌, ◌<◌, refl, codes, length, str_lt, ltb,
  arith,
}
use rivid.Engine.Base58
use rivid.Engine.Base58.RoundTrip.{decode_iff}
use rivid.Engine.Base58.Lengths.{length-encode_id}
use rivid.Engine.Bytes.{IsByte}
use rivid.Js.{Host, returns, ◌>>=◌}
use rivid.Api.Encodings.{exports}
use rivid.Api.Encodings.RoundTrip.{decoders-encoders}
use rivid.Engine.Error.{ok, err, invalid_character, non_canonical}
use rivid.Engine.Alphabet.Table.{letter_of, digit_of}
use rivid.Engine.Sortable.{encode_value, decode_chars, digit, decode_table, letter}
use rivid.Engine.Sortable.Canonical.{decode_chars_iff, str_lt-encode_value}
use rivid.Engine.Base64url
use rivid.Engine.Base64url.{encode, decode}
use rivid.Engine.Base64url.Canonical.{IsText, decode_iff_IsText}

encode_value-one : encode_value 1 ≡ codes "---------------------F"
unfolding encode_value letter letter_of
encode_value-one = refl

decode_chars-unused_bits : decode_chars (codes "---------------------G") ≡ err non_canonical
unfolding decode_chars digit decode_table digit_of
decode_chars-unused_bits = refl

decode_chars_iff_example :
    (decode_chars (codes "---------------------F") ≡ ok 1)
    ↔ ((codes "---------------------F" ≡ encode_value 1) × (1 < 2 ^ 128))
decode_chars_iff_example = decode_chars_iff (codes "---------------------F") 1

str_lt-encode_value_example :
    str_lt (encode_value 5) (encode_value (2 ^ 128 - 1)) ≡ ltb 5 (2 ^ 128 - 1)
str_lt-encode_value_example = str_lt-encode_value 5 (2 ^ 128 - 1) (omega arith) (omega arith)

encode-hello : encode (codes "hello") ≡ codes "aGVsbG8"
unfolding encode Base64url.letter letter_of
encode-hello = refl

decode-padded : decode (codes "aGVsbG8=") ≡ ok (codes "hello")
unfolding decode Base64url.digit Base64url.decode_table digit_of
decode-padded = refl

decode-unused_bits : decode (codes "aGVsbG9") ≡ err non_canonical
unfolding decode Base64url.digit Base64url.decode_table digit_of
decode-unused_bits = refl

decode_iff_IsText_example :
    (decode (codes "aGVsbG8=") ≡ ok (codes "hello")) ↔ IsText (codes "aGVsbG8=") (codes "hello")
decode_iff_IsText_example = decode_iff_IsText (codes "aGVsbG8=") (codes "hello")

encode58-hello : Base58.encode (codes "hello world") ≡ codes "StV1DL6CwTryKyV"
unfolding Base58.encode Base58.letter letter_of
encode58-hello = refl

encode58-zeros : Base58.encode (0 ∷ 0 ∷ 1 ∷ []) ≡ codes "112"
unfolding Base58.encode Base58.letter letter_of
encode58-zeros = refl

decode58-hello : Base58.decode (codes "StV1DL6CwTryKyV") ≡ ok (codes "hello world")
unfolding Base58.decode Base58.digit Base58.decode_table digit_of
decode58-hello = refl

decode58-lower_l : Base58.decode (codes "1l") ≡ err (invalid_character b'l')
unfolding Base58.decode Base58.digit Base58.decode_table digit_of
decode58-lower_l = refl

decode_iff_example : (Base58.decode (codes "112") ≡ ok (0 ∷ 0 ∷ 1 ∷ [])) ↔ (
    (codes "112" ≡ Base58.encode (0 ∷ 0 ∷ 1 ∷ []))
    × (length (codes "112") ≤ 4096)
    × All IsByte (0 ∷ 0 ∷ 1 ∷ []))
decode_iff_example = decode_iff (codes "112") (0 ∷ 0 ∷ 1 ∷ [])

abbrev full_id : Bytes
full_id = replicate 16 255

length-encode_id_example : length (Base58.encode full_id) ≤ 22
length-encode_id_example = length-encode_id full_id refl (omega arith)

encode58-full : length (Base58.encode full_id) ≡ 22
unfolding Base58.encode Base58.letter letter_of
encode58-full = refl

abbrev host : Host
host = record { utf8 = λ s. s; utf8_ascii = λ s h. refl; ascii_utf8 = λ s h. refl }

decoders-encoders_example :
    let e = exports host in
    (e.decode_base58 (e.encode_base58 full_id) ≡ returns full_id)
    × (e.decode_base64_url (e.encode_base64_url full_id) ≡ returns full_id)
    × ((e.encode_crockford full_id >>= e.decode_crockford) ≡ returns full_id)
    × ((e.encode_sortable full_id >>= e.decode_sortable) ≡ returns full_id)
    × ((e.bytes_to_ulid full_id >>= e.ulid_to_bytes) ≡ returns full_id)
    × ((e.bytes_to_ulid full_id >>= e.to_uuid >>= e.from_uuid) ≡ e.bytes_to_ulid full_id)
decoders-encoders_example = decoders-encoders host full_id refl (omega arith)
