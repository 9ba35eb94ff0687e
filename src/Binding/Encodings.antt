-- ===== src/Binding/Encodings.antt =====
-- src/lib.rs: the alternative encodings and the conversions. An array of 16 bytes is the only one
-- that Crockford and sortable text are made of.
use rivid.Common.{[], Bytes, length, ◌==◌, if◌then◌else◌}
use rivid.Engine.Error.{invalid_length}
use rivid.Engine.Bytes.{to_be_bytes, from_be_bytes}
use rivid.Engine.Base58
use rivid.Engine.Base64url
use rivid.Engine.Crockford
use rivid.Engine.Sortable
use rivid.Engine.Ulid
use rivid.Js.{Host, Outcome, returns, throws, native, napi, ◌>>=◌}

unfoldable pub encode_base58 : Bytes → Bytes
encode_base58 bytes = Base58.encode bytes

unfoldable pub encode_base64_url : Bytes → Bytes
encode_base64_url bytes = Base64url.encode bytes

unfoldable pub encode_crockford : Bytes → Outcome Bytes
encode_crockford bytes =
    if length bytes == 16
    then returns (Crockford.encode_value (from_be_bytes bytes 0))
    else throws (native (invalid_length 16 (length bytes)))

unfoldable pub encode_sortable : Bytes → Outcome Bytes
encode_sortable bytes =
    if length bytes == 16
    then returns (Sortable.encode_value (from_be_bytes bytes 0))
    else throws (native (invalid_length 16 (length bytes)))

unfoldable pub bytes_to_ulid : Bytes → Outcome Bytes
bytes_to_ulid bytes =
    if length bytes == 16
    then returns (Crockford.encode_value (from_be_bytes bytes 0))
    else throws (native (invalid_length 16 (length bytes)))

module _ (host : Host) where
  unfoldable pub decode_base58 : Bytes → Outcome Bytes
  decode_base58 value = napi (Base58.decode (host.utf8 value))

  unfoldable pub decode_base64_url : Bytes → Outcome Bytes
  decode_base64_url value = napi (Base64url.decode (host.utf8 value))

  unfoldable pub decode_crockford : Bytes → Outcome Bytes
  decode_crockford value = do
    v ← napi (Crockford.decode_chars (host.utf8 value))
    returns (to_be_bytes 16 v [])

  unfoldable pub decode_sortable : Bytes → Outcome Bytes
  decode_sortable value = do
    v ← napi (Sortable.decode_chars (host.utf8 value))
    returns (to_be_bytes 16 v [])

  unfoldable pub ulid_to_bytes : Bytes → Outcome Bytes
  ulid_to_bytes id = napi (Ulid.decode (host.utf8 id))
