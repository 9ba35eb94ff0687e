-- ===== src/Binding/Buffers/Filled.antt =====
-- What the buffers hold.
use rivid.Common.{
  ℕ, zero, suc, ◌*◌, ◌/◌, ◌%◌, ◌^◌, ◌<◌, ◌≡◌, ◌≢◌, refl, ap, ◌⊎◌, inl, inr, List, [], ◌∷◌, ◌++◌,
  Bytes, length, length-append, All, take, drop, ◌==◌, Bool-cases, arith,
}
use rivid.Engine.Error.{invalid_length}
use rivid.Engine.Bytes.{from_be_bytes, length-to_be_bytes}
use rivid.Engine.Crockford.{encode_value}
use rivid.Engine.Monotonic.{World}
use rivid.Engine.Batch.{ulid_block, ulid_block_secure, blocks, fill_ulid_secure}
use rivid.Js.{returns, throws, native}
use rivid.Binding.Batches.{IsStamped, block-IsStamped}
use rivid.Binding.Buffers.{generate_into}

-- The chunks of a buffer.
abbrev pub chunks : ℕ → Bytes → List Bytes
chunks zero buf = []
chunks (suc n) buf = take 16 buf ∷ chunks n (drop 16 buf)

-- Sixteen bytes, whose text carries the timestamp.
abbrev pub IsStampedId : ℕ → Bytes → Type 0
IsStampedId ts block = (length block ≡ 16) × IsStamped ts (encode_value (from_be_bytes block 0))

split : (t u : Bytes) (n : ℕ) → length t ≡ n → (take n (t ++ u) ≡ t) × (drop n (t ++ u) ≡ u)
split [] u zero h = (refl, refl)
split [] u (suc n) h = absurd (omega arith)
split (c ∷ t) u zero h = absurd (omega arith)
split (c ∷ t) u (suc n) h =
    let (front, back) = split t u n (omega (arith, h)) in (ap (λ x. c ∷ x) front, back)

length-ulid_block : (ts hi lo : ℕ) → length (ulid_block ts hi lo) ≡ 16
unfolding ulid_block
length-ulid_block ts hi lo = length-to_be_bytes 16 _

module _ (world : World) where
  open world use {State, now_ms, next_u64}

  blocks-IsStampedId :
      (count ts : ℕ) (w : State)
      → ts < 2 ^ 48
      → (length (blocks world count ts w).0 ≡ count * 16)
        × All (IsStampedId ts) (chunks count (blocks world count ts w).0)
  unfolding blocks ulid_block_secure
  blocks-IsStampedId zero ts w h = (refl, tt)
  blocks-IsStampedId (suc count) ts w h =
      let hi = (next_u64 w).0 in
      let lo = (next_u64 (next_u64 w).1).0 in
      let w' = (next_u64 (next_u64 w).1).1 in
      let block = ulid_block ts hi lo in
      let rest = (blocks world count ts w').0 in
      let n = length-ulid_block ts hi lo in
      let (front, back) = split block rest 16 n in
      let (wide, stamped) = blocks-IsStampedId count ts w' h in
      (
        omega (arith, length-append block rest, n, wide),
        rw (front, back) ((n, block-IsStamped ts hi lo h), stamped),
      )

  -- A buffer of a multiple of 16 bytes is filled with identifiers that carry the clock's one reading,
  -- and `generateInto` returns how many these are, modulo 2 ^ 32, if the reading is within the
  -- timestamps of a ULID.
  -- For any other buffer it throws, and leaves the buffer, the clock and the random numbers alone.
  pub generate_into-IsStampedId :
      (buffer : Bytes) (w : State)
      → (now_ms w).0 < 2 ^ 48
      → ((length buffer % 16 ≡ 0)
          × ((filled : Bytes) × (w' : State) × (generate_into world buffer w
                ≡ (returns (length buffer / 16 % 2 ^ 32), filled, w'))
              × (length filled ≡ length buffer)
              × All (IsStampedId (now_ms w).0) (chunks (length buffer / 16) filled)))
        ⊎ ((length buffer % 16 ≢ 0)
            × ((e : ℕ) × (generate_into world buffer w
                  ≡ (throws (native (invalid_length e (length buffer))), buffer, w))))
  unfolding generate_into fill_ulid_secure
  generate_into-IsStampedId buffer w h = elim (Bool-cases (length buffer % 16 == 0)) [
    | inr other ↦ rw other (inr ((λ even. ground (arith, even, other)), (_, refl)))
    | inl whole ↦
        let made = blocks-IsStampedId (length buffer / 16) (now_ms w).0 (now_ms w).1 h in
        let even : length buffer % 16 ≡ 0 = ground (arith, whole) in
        rw whole (inl (even, (_, _, refl, omega (arith, made.0, even), made.1)))
  ]
