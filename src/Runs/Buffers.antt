-- ===== src/Runs/Buffers.antt =====
-- A buffer of two identifiers, and a batch with a broken text.
use rivid.Common.{
  ℕ, ◌+◌, ◌/◌, ◌%◌, ◌^◌, ◌≡◌, ◌≢◌, refl, ◌⊎◌, List, [], ◌∷◌, Bytes, codes, length, All, map,
  replicate, ltb, ◌==◌, if◌then◌else◌, arith,
}
use rivid.Engine.Error.{invalid_length, invalid_character}
use rivid.Engine.Crockford.{decode_chars, decode_loop, digit, decode_table}
use rivid.Engine.Monotonic.{World}
use rivid.Js.{Host, pos, returns, throws, native, native_count}
use rivid.Binding
use rivid.Binding.Source.{max_batch}
use rivid.Binding.Buffers.{decode_into, decode_many, decode_all, generate_into}
use rivid.Binding.Buffers.Written.{joined, decode_many-decode}
use rivid.Binding.Buffers.Filled.{chunks, IsStampedId, generate_into-IsStampedId}

abbrev frozen : World
frozen = record {
  State = ℕ;
  next_u64 = λ w. (7, w + 1);
  now_ms = λ w. (1000, w);
  next_u64-lt = λ w. omega arith;
}

abbrev plain : Host
plain = record { utf8 = λ s. s; utf8_ascii = λ s h. refl; ascii_utf8 = λ s h. refl }

abbrev two_ids : Bytes
two_ids = replicate 32 0

abbrev nines : Bytes
nines = replicate 16 9

abbrev texts : List Bytes
texts = codes "00000000000000000000000001" ∷ codes "0000000000000000000000000U" ∷ []

decode_many-broken : decode_many plain texts ≡ throws (native (invalid_character b'U'))
unfolding decode_many decode_all decode_chars decode_loop digit decode_table
decode_many-broken = refl

generate_into-IsStampedId_example :
    ((length two_ids % 16 ≡ 0)
      × ((filled : Bytes) × (w' : ℕ) × (generate_into frozen two_ids 0
            ≡ (returns (length two_ids / 16 % 2 ^ 32), filled, w'))
          × (length filled ≡ length two_ids)
          × All (IsStampedId 1000) (chunks (length two_ids / 16) filled)))
    ⊎ ((length two_ids % 16 ≢ 0)
        × ((e : ℕ) × (generate_into frozen two_ids 0
              ≡ (throws (native (invalid_length e (length two_ids))), two_ids, 0))))
generate_into-IsStampedId_example = generate_into-IsStampedId frozen two_ids 0 (omega arith)

decode_many-decode_example :
    (decode_many plain texts ≡ (
      if ltb max_batch (length texts)
      then throws (native_count (pos (length texts)))
      else joined (map (Binding.decode plain) texts)))
    × (decode_into plain (codes "00000000000000000000000001") nines ≡ (
        if length nines == 16
        then (elim (Binding.decode plain (codes "00000000000000000000000001")) [
          | throws e ↦ (throws e, nines)
          | returns bytes ↦ (returns tt, bytes)
        ])
        else (throws (native (invalid_length 16 (length nines))), nines)))
decode_many-decode_example =
    decode_many-decode plain texts (codes "00000000000000000000000001") nines
