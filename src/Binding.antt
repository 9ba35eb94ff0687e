-- ===== src/Binding.antt =====
-- src/lib.rs: the native functions that Node calls. A JavaScript string arrives as UTF-8.
pub mod Source
pub mod Batches
pub mod Generators
pub mod Native
pub mod Buffers
pub mod Ksuids
pub mod Encodings
use Prim.Native.Nat.{Ordering}
use rivid.Common.{ℕ, Bool, Bytes, length, ◌==◌, if◌then◌else◌}
use rivid.Engine.Ulid
use rivid.Engine.Error.{invalid_length}
use rivid.Engine.Bytes.{from_be_bytes}
use rivid.Engine.Crockford.{encode_value}
use rivid.Engine.Uuidv7.{timestamp_ms}
use rivid.Engine.Convert
use rivid.Js.{
  ℤ, pos, negsuc, Host, Outcome, returns, throws, native, expected_16_bytes, napi, ◌>>=◌,
}

-- `Ordering` as -1, 0, 1.
abbrev pub sign : Ordering → ℤ
sign Ordering.lt = negsuc 0
sign Ordering.eq = pos 0
sign Ordering.gt = pos 1

module _ (host : Host) where
  unfoldable pub is_valid : Bytes → Bool
  is_valid id = Ulid.is_valid (host.utf8 id)

  unfoldable pub compare_ulids : Bytes → Bytes → Outcome ℤ
  compare_ulids a b = do
    order ← napi (Ulid.compare_ids (host.utf8 a) (host.utf8 b))
    returns (sign order)

  unfoldable pub decode : Bytes → Outcome Bytes
  decode id = napi (Ulid.decode (host.utf8 id))

  unfoldable pub decode_time : Bytes → Outcome ℕ
  decode_time id = napi (Ulid.decode_time (host.utf8 id))

  unfoldable pub ulid_to_uuid : Bytes → Outcome Bytes
  ulid_to_uuid id = napi (Convert.ulid_to_uuid (host.utf8 id))

  unfoldable pub uuid_to_ulid : Bytes → Outcome Bytes
  uuid_to_ulid uuid = napi (Convert.uuid_to_ulid (host.utf8 uuid))

unfoldable pub encode : Bytes → Outcome Bytes
encode bytes =
    if length bytes == 16
    then returns (encode_value (from_be_bytes bytes 0))
    else throws (native (invalid_length 16 (length bytes)))

unfoldable pub uuidv7_time : Bytes → Outcome ℕ
uuidv7_time bytes =
    if length bytes == 16 then returns (timestamp_ms bytes) else throws expected_16_bytes
