-- ===== src/Binding/Buffers.antt =====
-- src/lib.rs: the functions that read or fill buffers of several identifiers.
pub mod Filled
pub mod Written
use rivid.Common.{
  ℕ, ◌+◌, ◌%◌, ◌^◌, set, Bool, List, [], ◌∷◌, Bytes, length, map, replicate, ltb, ◌==◌, ◌*◌,
  if◌then◌else◌,
}
use rivid.Engine.Error.{Result, ok, err, invalid_length}
use rivid.Engine.Bytes.{to_be_bytes}
use rivid.Engine.Crockford.{decode_chars}
use rivid.Engine.Monotonic.{World}
use rivid.Engine.Batch.{fill_ulid_secure}
use rivid.Js.{ℤ, pos, Host, Outcome, returns, throws, native, native_count, napi, ◌>>=◌}
use rivid.Binding.Source.{max_batch}
use rivid.Binding.Batches.{is_batch, as_usize}

-- `out[start..start + src.len()].copy_from_slice(src)`, byte by byte.
abbrev pub copy_from_slice : Bytes → ℕ → Bytes → Bytes
copy_from_slice out start [] = out
copy_from_slice out start (b ∷ bytes) = copy_from_slice (set out start b) (start + 1) bytes

module _ (host : Host) where
  -- What the caller's array holds afterwards stands beside the outcome.
  unfoldable pub decode_into : Bytes → Bytes → Outcome (Unit {0}) × Bytes
  decode_into id out =
      if length out == 16
      then (elim (napi (decode_chars (host.utf8 id))) [
        | throws e ↦ (throws e, out)
        | returns v ↦ (returns tt, copy_from_slice out 0 (to_be_bytes 16 v []))
      ])
      else (throws (native (invalid_length 16 (length out))), out)

  -- The loop from index `i` on, with the buffer as it stands.
  unfoldable pub decode_all : ℕ → List Bytes → Bytes → Outcome Bytes
  decode_all i [] out = returns out
  decode_all i (id ∷ ids) out = do
    v ← napi (decode_chars (host.utf8 id))
    decode_all (i + 1) ids (copy_from_slice out (i * 16) (to_be_bytes 16 v []))

  unfoldable pub decode_many : List Bytes → Outcome Bytes
  decode_many ids =
      if ltb max_batch (length ids)
      then throws (native_count (pos (length ids)))
      else decode_all 0 ids (replicate (length ids * 16) 0)

-- `Ok(n as u32)`
abbrev pub n_as_u32 : Outcome ℕ → Outcome ℕ
n_as_u32 (returns n) = returns (n % 2 ^ 32)
n_as_u32 (throws e) = throws e

module _ (world : World) where
  open world use {State}

  unfoldable pub generate_into : Bytes → State → Outcome ℕ × Bytes × State
  generate_into buffer w =
      let (n, filled, w') = fill_ulid_secure world buffer w in (n_as_u32 (napi n), filled, w')

  unfoldable pub generate_bytes : ℤ → State → Outcome Bytes × State
  generate_bytes count w =
      if is_batch count
      then (let (n, filled, w') = fill_ulid_secure world (replicate (as_usize count * 16) 0) w in
          (returns filled, w'))
      else (throws (native_count count), w)
