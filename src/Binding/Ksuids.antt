-- ===== src/Binding/Ksuids.antt =====
-- src/lib.rs: the native functions on KSUIDs.
pub mod Sorting
pub mod Validity
use Prim.Native.Nat.{Ordering}
use rivid.Common.{
  ◌^◌, ◌-◌, ℕ, Bool, true, false, ◌&&◌, Option, none, some, List, [], ◌∷◌, Bytes, map, length, ltb,
  leb, ◌==◌, str_lt, if◌then◌else◌,
}
use rivid.Engine.Ksuid
use rivid.Engine.Ksuid.{
  epoch_ms, time_max_ms, current_timestamp_field, from_field, generate_at_unix_ms, encode_value,
  decode_bytes,
}
use rivid.Engine.Error.{invalid_length}
use rivid.Js.{
  ℤ, pos, negsuc, Number, integer, fractional, not_a_number, infinity, negative_infinity, Host,
  Outcome, returns, throws, native, native_ksuid_timestamp, napi, ◌>>=◌,
}
use rivid.Js.Sort.{sort_by, code_unit_order}
use rivid.Binding.{sign}

-- The range of an explicit millisecond.
abbrev in_window : Number → Bool
in_window (integer (pos n)) = leb epoch_ms n && leb n time_max_ms
in_window (integer (negsuc n)) = false
in_window (fractional n) = false
in_window not_a_number = false
in_window infinity = false
in_window negative_infinity = false

-- `v as u64`: the fraction is cut off, a number outside the range becomes its nearest end, and NaN 0.
abbrev saturated : ℤ → ℕ
saturated (pos n) = if ltb n (2 ^ 64) then n else 2 ^ 64 - 1
saturated (negsuc n) = 0

abbrev pub as_u64 : Number → ℕ
as_u64 (integer n) = saturated n
as_u64 (fractional n) = saturated n
as_u64 not_a_number = 0
as_u64 infinity = 2 ^ 64 - 1
as_u64 negative_infinity = 0

unfoldable pub explicit_ksuid_ts : Option Number → Outcome (Option ℕ)
explicit_ksuid_ts none = returns none
explicit_ksuid_ts (some v) =
    if in_window v then returns (some (as_u64 v)) else throws (native_ksuid_timestamp v)

-- The identifier of a checked timestamp: the clock's second where none is given.
ksuid_at : ℕ → Bytes → Option ℕ → Outcome Bytes
ksuid_at now_ms payload none = returns (from_field (current_timestamp_field now_ms) payload)
ksuid_at now_ms payload (some ms) = napi (generate_at_unix_ms ms payload)

-- `now_ms` and `payload` are what the clock and the random numbers answer in this call.
unfoldable pub ksuid : ℕ → Bytes → Option Number → Outcome Bytes
unfolding ksuid_at
ksuid now_ms payload timestamp_ms = do
  ts ← explicit_ksuid_ts timestamp_ms
  value ← ksuid_at now_ms payload ts
  returns (encode_value value)

unfoldable pub ksuid_time : Bytes → Outcome ℕ
ksuid_time bytes = napi (Ksuid.time_ms bytes)

unfoldable pub encode_ksuid : Bytes → Outcome Bytes
encode_ksuid bytes =
    if length bytes == 20
    then returns (encode_value bytes)
    else throws (native (invalid_length 20 (length bytes)))

-- The derived `Ord` of `[u8; 20]`.
abbrev pub cmp : Bytes → Bytes → Ordering
cmp a b = if str_lt a b then Ordering.lt else if str_lt b a then Ordering.gt else Ordering.eq

abbrev pub by_key : Bytes × Bytes → Bytes × Bytes → Outcome ℤ
by_key (v, s) (w, t) = returns (sign (cmp v w))

abbrev pub text : Bytes × Bytes → Bytes
text (v, s) = s

module _ (host : Host) where
  unfoldable pub is_valid_ksuid : Bytes → Bool
  is_valid_ksuid id = Ksuid.is_valid (host.utf8 id)

  unfoldable pub decode_ksuid_time : Bytes → Outcome ℕ
  decode_ksuid_time id = napi (Ksuid.decode_time_ms (host.utf8 id))

  unfoldable pub decode_ksuid : Bytes → Outcome Bytes
  decode_ksuid id = napi (decode_bytes (host.utf8 id))

  unfoldable pub compare_ksuid : Bytes → Bytes → Outcome ℤ
  compare_ksuid a b = do
    va ← napi (decode_bytes (host.utf8 a))
    vb ← napi (decode_bytes (host.utf8 b))
    returns (sign (cmp va vb))

  unfoldable pub parse_all : List Bytes → Outcome (List (Bytes × Bytes))
  parse_all [] = returns []
  parse_all (s ∷ ids) = do
    v ← napi (decode_bytes (host.utf8 s))
    rest ← parse_all ids
    returns ((v, s) ∷ rest)

  unfoldable pub sort_ksuid : List Bytes → Outcome (List Bytes)
  sort_ksuid ids = do
    decoded ← parse_all ids
    sorted ← sort_by by_key decoded
    returns (map text sorted)
