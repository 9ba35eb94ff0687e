-- ===== src/Api/Encodings.antt =====
-- src/encodings.ts: the codecs that the package exports, which are native functions, with two
-- further names for the conversions between ULIDs and UUIDs.
pub mod Ascii
pub mod RoundTrip
use rivid.Common.{Bytes}
use rivid.Js.{Host, Outcome}
use rivid.Binding
use rivid.Binding.Encodings

pub record Exports : Type 0 where
  pub encode_base58 : Bytes → Bytes
  pub decode_base58 : Bytes → Outcome Bytes
  pub encode_base64_url : Bytes → Bytes
  pub decode_base64_url : Bytes → Outcome Bytes
  pub encode_crockford : Bytes → Outcome Bytes
  pub decode_crockford : Bytes → Outcome Bytes
  pub encode_sortable : Bytes → Outcome Bytes
  pub decode_sortable : Bytes → Outcome Bytes
  pub ulid_to_uuid : Bytes → Outcome Bytes
  pub uuid_to_ulid : Bytes → Outcome Bytes
  pub to_uuid : Bytes → Outcome Bytes
  pub from_uuid : Bytes → Outcome Bytes
  pub ulid_to_bytes : Bytes → Outcome Bytes
  pub bytes_to_ulid : Bytes → Outcome Bytes

abbrev pub exports : Host → Exports
exports host = record {
  encode_base58 = Encodings.encode_base58;
  decode_base58 = Encodings.decode_base58 host;
  encode_base64_url = Encodings.encode_base64_url;
  decode_base64_url = Encodings.decode_base64_url host;
  encode_crockford = Encodings.encode_crockford;
  decode_crockford = Encodings.decode_crockford host;
  encode_sortable = Encodings.encode_sortable;
  decode_sortable = Encodings.decode_sortable host;
  ulid_to_uuid = Binding.ulid_to_uuid host;
  uuid_to_ulid = Binding.uuid_to_ulid host;
  to_uuid = Binding.ulid_to_uuid host;
  from_uuid = Binding.uuid_to_ulid host;
  ulid_to_bytes = Encodings.ulid_to_bytes host;
  bytes_to_ulid = Encodings.bytes_to_ulid;
}
