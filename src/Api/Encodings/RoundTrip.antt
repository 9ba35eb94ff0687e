-- ===== src/Api/Encodings/RoundTrip.antt =====
-- The decoders of the package take the texts of its encoders back.
use rivid.Common.{ℕ, ◌≡◌, refl, ap, sym, ◌∙◌, [], Bytes, length, All, map, arith}
use rivid.Engine.Error.{ok}
use rivid.Engine.Bytes.{IsByte, to_be_bytes, from_be_bytes, to_be_bytes-from_be_bytes}
use rivid.Engine.Base58
use rivid.Engine.Base58.Lengths.{length-encode_id}
use rivid.Engine.Base58.RoundTrip.{decode_iff}
use rivid.Engine.Base64url
use rivid.Engine.Base64url.RoundTrip.{decode-encode_text}
use rivid.Engine.Convert
use rivid.Engine.Convert.{upper}
use rivid.Engine.Convert.RoundTrip.{uuid_to_ulid-ulid_to_uuid}
use rivid.Engine.Crockford.{encode_value, decode_chars}
use rivid.Engine.Crockford.Ascii.{utf8-decodable}
use rivid.Engine.Crockford.RoundTrip.{decode_chars-encode_value, encode_value-decode_chars}
use rivid.Engine.Sortable
use rivid.Engine.Sortable.Canonical.{decode_chars_iff}
use rivid.Engine.Ulid
use rivid.Engine.Ulid.RoundTrip.{value-lt}
use rivid.Engine.Uuidv7.{format_hyphenated_lower}
use rivid.Js.{Host, returns, ◌>>=◌}
use rivid.Binding.{ulid_to_uuid, uuid_to_ulid}
use rivid.Binding.Encodings.{
  encode_base58, decode_base58, encode_base64_url, decode_base64_url, encode_crockford,
  decode_crockford, encode_sortable, decode_sortable, ulid_to_bytes, bytes_to_ulid,
}
use rivid.Api.Encodings.{exports}
use rivid.Api.Encodings.Ascii.{base58-IsAscii, base64url-IsAscii, sortable-IsAscii, uuid-IsAscii}

module _ (host : Host) (id : Bytes) (n : length id ≡ 16) (h : All IsByte id) where
  base58_back : decode_base58 host (encode_base58 id) ≡ returns id
  unfolding decode_base58 encode_base58
  base58_back =
      let short = length-encode_id id n h in
      let decoded = (decode_iff (Base58.encode id) id).1 (refl, omega (arith, short), h) in
      rw (host.utf8_ascii (Base58.encode id) (base58-IsAscii id h), decoded) refl

  base64_url_back : decode_base64_url host (encode_base64_url id) ≡ returns id
  unfolding decode_base64_url encode_base64_url
  base64_url_back =
      let decoded : Base64url.decode (Base64url.encode id) ≡ ok id =
        ground (arith, decode-encode_text id h, n) in
      rw (host.utf8_ascii (Base64url.encode id) (base64url-IsAscii id), decoded) refl

  abbrev id_number : ℕ
  id_number = from_be_bytes id 0

  crockford_decodes : decode_chars (encode_value id_number) ≡ ok id_number
  crockford_decodes = decode_chars-encode_value id_number (value-lt id n h)

  crockford_text :
      (encode_crockford id ≡ returns (encode_value id_number))
      × (bytes_to_ulid id ≡ returns (encode_value id_number))
  unfolding encode_crockford bytes_to_ulid
  crockford_text = (ground (arith, n), ground (arith, n))

  crockford_back :
      (decode_crockford host (encode_value id_number) ≡ returns id)
      × (ulid_to_bytes host (encode_value id_number) ≡ returns id)
  unfolding decode_crockford ulid_to_bytes Ulid.decode
  crockford_back =
      let same = to_be_bytes-from_be_bytes 16 id n h in
      let arrives = utf8-decodable host (encode_value id_number) id_number crockford_decodes in
      (rw (arrives, crockford_decodes, same) refl, rw (arrives, crockford_decodes, same) refl)

  sortable_text : encode_sortable id ≡ returns (Sortable.encode_value id_number)
  unfolding encode_sortable
  sortable_text = ground (arith, n)

  sortable_back : decode_sortable host (Sortable.encode_value id_number) ≡ returns id
  unfolding decode_sortable
  sortable_back =
      let decoded =
        (decode_chars_iff (Sortable.encode_value id_number) id_number).1 (refl, value-lt id n h) in
      rw
        (
          host.utf8_ascii (Sortable.encode_value id_number) (sortable-IsAscii id_number),
          decoded,
          to_be_bytes-from_be_bytes 16 id n h,
        )
        refl

  abbrev uuid : Bytes
  uuid = map upper (format_hyphenated_lower (to_be_bytes 16 id_number []))

  uuid_text : Convert.ulid_to_uuid (encode_value id_number) ≡ ok uuid
  unfolding Convert.ulid_to_uuid
  uuid_text = rw crockford_decodes refl

  uuid_back :
      (ulid_to_uuid host (encode_value id_number) ≡ returns uuid)
      × (uuid_to_ulid host uuid ≡ returns (encode_value id_number))
  unfolding ulid_to_uuid uuid_to_ulid format_hyphenated_lower
  uuid_back =
      let text = encode_value id_number in
      let (u, there, back) = uuid_to_ulid-ulid_to_uuid text id_number crockford_decodes in
      let same : u ≡ uuid = ground (arith, there, uuid_text) in
      let upper_case = sym (encode_value-decode_chars text id_number crockford_decodes) in
      let read : Convert.uuid_to_ulid uuid ≡ ok text =
        ap Convert.uuid_to_ulid (sym same) ∙ back ∙ ap ok upper_case in
      (
        rw (utf8-decodable host text id_number crockford_decodes, uuid_text) refl,
        rw (host.utf8_ascii uuid (uuid-IsAscii (to_be_bytes 16 id_number []) 0), read) refl,
      )

  -- For any identifier of 16 bytes, `decodeBase58`, `decodeBase64Url`, `decodeCrockford`,
  -- `decodeSortable` and `ulidToBytes` each return these bytes from the text that the export's
  -- encoder makes of them, and `fromUuid` returns the ULID that `toUuid` was given.
  pub decoders-encoders :
      let e = exports host in
      (e.decode_base58 (e.encode_base58 id) ≡ returns id)
      × (e.decode_base64_url (e.encode_base64_url id) ≡ returns id)
      × ((e.encode_crockford id >>= e.decode_crockford) ≡ returns id)
      × ((e.encode_sortable id >>= e.decode_sortable) ≡ returns id)
      × ((e.bytes_to_ulid id >>= e.ulid_to_bytes) ≡ returns id)
      × ((e.bytes_to_ulid id >>= e.to_uuid >>= e.from_uuid) ≡ e.bytes_to_ulid id)
  decoders-encoders = (
    base58_back,
    base64_url_back,
    rw crockford_text.0 crockford_back.0,
    rw sortable_text sortable_back,
    rw crockford_text.1 crockford_back.1,
    rw (crockford_text.1, uuid_back.0, uuid_back.1) refl,
  )
