-- ===== src/Engine/Ksuid/Time.antt =====
-- The timestamp of an identifier: its window, its precision, and the clock.
use Prim.Native.Nat.{min, max}
use rivid.Common.{
  ℕ, ◌+◌, ◌-◌, ◌*◌, ◌/◌, ◌^◌, ◌≤◌, ◌<◌, ◌≡◌, refl, ap, ◌∙◌, [], Bytes, length, All, false, ◌&&◌,
  leb, length-append, All-append_lists, arith,
}
use rivid.Engine.Bytes.{to_be_bytes, from_be_bytes, IsByte, length-to_be_bytes, to_be_bytes-IsByte}
use rivid.Engine.Error.{ok, err, ksuid_timestamp_out_of_range}
use rivid.Engine.Ksuid.{
  epoch_seconds, epoch_ms, time_max_seconds, time_max_ms, timestamp_field, current_timestamp_field,
  from_field, generate_at_unix_seconds, generate_at_unix_ms, timestamp_seconds, time_seconds,
  time_ms, decode_time_ms, encode_value,
}
use rivid.Engine.Ksuid.RoundTrip.{IsKsuid, decode_bytes-encode_value}

-- A payload of 16 bytes.
abbrev pub IsPayload : Bytes → Type 0
IsPayload payload = (length payload ≡ 16) × All IsByte payload

pub from_field-IsKsuid :
    (field : ℕ) (payload : Bytes) → IsPayload payload → IsKsuid (from_field field payload)
unfolding from_field
from_field-IsKsuid field payload h = (
  omega (arith, length-append (to_be_bytes 4 field []) payload, length-to_be_bytes 4 field, h.0),
  All-append_lists IsByte (to_be_bytes 4 field []) payload (to_be_bytes-IsByte 4 field [] tt) h.1,
)

timestamp_seconds-from_field :
    (field : ℕ) (payload : Bytes)
    → field < 2 ^ 32
    → timestamp_seconds (from_field field payload) ≡ field + epoch_seconds
unfolding timestamp_seconds from_field to_be_bytes from_be_bytes
timestamp_seconds-from_field field payload h = omega (arith, h)

timestamp_field-eq :
    (s : ℕ) → epoch_seconds ≤ s → s ≤ time_max_seconds → timestamp_field s ≡ ok (s - epoch_seconds)
unfolding timestamp_field
timestamp_field-eq s h k = ground (arith, h, k)

-- The two reads of a timestamp agree on an identifier.
time_ms-eq :
    (bytes : Bytes) → length bytes ≡ 20 → time_ms bytes ≡ ok (timestamp_seconds bytes * 1000)
unfolding time_ms time_seconds timestamp_seconds
time_ms-eq bytes h = rw h refl

decode_time_ms-eq :
    (bytes : Bytes)
    → IsKsuid bytes
    → decode_time_ms (encode_value bytes) ≡ ok (timestamp_seconds bytes * 1000)
unfolding decode_time_ms
decode_time_ms-eq bytes h = rw (decode_bytes-encode_value bytes h) refl

-- Inside the window of KSUID, an identifier generated at a Unix millisecond with a payload of 16
-- bytes is 20 bytes, and both `time_ms` of its bytes and `decode_time_ms` of its text are that
-- millisecond, down to the whole second.
pub decode_time_ms-generate :
    (ms : ℕ) (payload : Bytes)
    → epoch_ms ≤ ms
    → ms ≤ time_max_ms
    → IsPayload payload
    → (bytes : Bytes) × (generate_at_unix_ms ms payload ≡ ok bytes)
      × IsKsuid bytes
      × (time_ms bytes ≡ ok (ms / 1000 * 1000))
      × (decode_time_ms (encode_value bytes) ≡ ok (ms / 1000 * 1000))
unfolding generate_at_unix_ms generate_at_unix_seconds
decode_time_ms-generate ms payload h k p =
    let field = ms / 1000 - epoch_seconds in
    let bytes = from_field field payload in
    let is_ksuid = from_field-IsKsuid field payload p in
    let inside : timestamp_field (ms / 1000) ≡ ok field =
      timestamp_field-eq (ms / 1000) (omega (arith, h)) (omega (arith, k)) in
    let time : timestamp_seconds bytes * 1000 ≡ ms / 1000 * 1000 =
      omega (arith, h, k, timestamp_seconds-from_field field payload (omega (arith, k))) in
    (
      bytes,
      ground (arith, h, k, inside),
      is_ksuid,
      time_ms-eq bytes is_ksuid.0 ∙ ap ok time,
      decode_time_ms-eq bytes is_ksuid ∙ ap ok time,
    )

-- Outside the window nothing is generated.
pub generate_at_unix_ms-outside :
    (ms : ℕ) (payload : Bytes)
    → (leb epoch_ms ms && leb ms time_max_ms) ≡ false
    → generate_at_unix_ms ms payload ≡ err (ksuid_timestamp_out_of_range ms)
unfolding generate_at_unix_ms
generate_at_unix_ms-outside ms payload h = rw h refl

-- The clock's second is never refused: its field is that of the second of the window nearest to it.
pub current_timestamp_field-clamps :
    (now_ms : ℕ)
    → timestamp_field (max epoch_seconds (min (now_ms / 1000) time_max_seconds))
      ≡ ok (current_timestamp_field now_ms)
unfolding current_timestamp_field timestamp_field
current_timestamp_field-clamps now_ms = ground arith
