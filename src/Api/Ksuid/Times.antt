-- ===== src/Api/Ksuid/Times.antt =====
-- The timestamps of KSUIDs as JavaScript gives and reads them.
use rivid.Common.{◌^◌, ltb, ℕ, ◌*◌, ◌/◌, ◌≤◌, ◌≡◌, refl, true, ◌&&◌, some, Bytes, leb, arith}
use rivid.Engine.Ksuid.{encode_value}
use rivid.Engine.Ksuid.RoundTrip.{decode_bytes-encode_value}
use rivid.Engine.Ksuid.Time.{IsPayload, decode_time_ms-generate}
use rivid.Js.{Host, integer, pos, returns}
use rivid.Binding.Ksuids.{ksuid, explicit_ksuid_ts, ksuid_time, decode_ksuid_time, decode_ksuid}
use rivid.Binding.Ksuids.Validity.{utf8-ksuid}
use rivid.Api.Ksuid.{ksuid_epoch_ms, ksuid_time_max_ms}

-- `ksuid(ms)` at a millisecond of the window [KSUID_EPOCH_MS, KSUID_TIME_MAX_MS], with 16 bytes of
-- random numbers, returns a string that `decodeKsuid` turns into bytes, and both `decodeKsuidTime`
-- of the string and `ksuidTime` of the bytes are the millisecond down to the whole second.
pub decode_ksuid_time-ksuid :
    (host : Host) (now_ms : ℕ) (payload : Bytes) (ms : ℕ)
    → IsPayload payload
    → ksuid_epoch_ms ≤ ms
    → ms ≤ ksuid_time_max_ms
    → (id : Bytes) × (bytes : Bytes) × (ksuid now_ms payload (some (integer (pos ms))) ≡ returns id)
      × (decode_ksuid host id ≡ returns bytes)
      × (decode_ksuid_time host id ≡ returns (ms / 1000 * 1000))
      × (ksuid_time bytes ≡ returns (ms / 1000 * 1000))
unfolding ksuid explicit_ksuid_ts decode_ksuid decode_ksuid_time ksuid_time
decode_ksuid_time-ksuid host now_ms payload ms p h k =
    let (bytes, made, is_ksuid, time, text_time) = decode_time_ms-generate ms payload h k p in
    let inside : (leb ksuid_epoch_ms ms && leb ms ksuid_time_max_ms) ≡ true =
      ground (arith, h, k) in
    let whole : ltb ms (2 ^ 64) ≡ true = ground (arith, h, k) in
    let decoded = decode_bytes-encode_value bytes is_ksuid in
    let arrives = utf8-ksuid host (encode_value bytes) bytes decoded in
    (
      encode_value bytes,
      bytes,
      rw (inside, whole, made) refl,
      rw (arrives, decoded),
      rw (arrives, text_time),
      rw time,
    )
