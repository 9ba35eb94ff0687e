-- ===== src/Binding/Generators/Prefix.antt =====
-- `encode_time` beside `ulid`: the same timestamps, and the front of the same string.
use rivid.Common.{
  ℕ, ◌^◌, ◌<◌, ◌≡◌, refl, ap, ◌⊎◌, inl, inr, true, false, some, Bytes, length, take, ltb, leb,
  Bool-cases, arith,
}
use rivid.Common.Bits.{bit_and_low}
use rivid.Engine.Crockford.Times.{encode_time-take}
use rivid.Engine.Monotonic.Increasing.{from_parts-value}
use rivid.Engine.Rng.{System, random_80, next_pooled}
use rivid.Js.{
  pos, negsuc, Number, integer, fractional, not_a_number, infinity, negative_infinity, returns,
  throws, napi,
}
use rivid.Binding.Source.{last_time}
use rivid.Binding.Batches.{IsStamped}
use rivid.Binding.Generators.{
  Thread, is_timestamp, ts_out_of_range, explicit_ts, stamp, ulid_at, ulid, encode_time,
}
use rivid.Binding.Generators.Stamps.{explicit-given, stamp-IsStamped}

module _ (system : System) where
  open system use {world}

  -- `s` is the front of an identifier with the timestamp `v`, of which the thread `t` makes one.
  abbrev pub IsFront : Number → Thread system → Bytes → Type 0
  IsFront v t s =
      (n : ℕ) × (id : Bytes) × (t' : Thread system) × (v ≡ integer (pos n))
      × (ulid system (some v) t ≡ (returns id, t'))
      × (take 10 id ≡ s)
      × IsStamped n id

  encode_time-stamp :
      (n : ℕ) (t : Thread system)
      → n < 2 ^ 48
      → (encode_time (integer (pos n)) ≡ returns (take 10 (stamp system n t).0))
        × (length (take 10 (stamp system n t).0) ≡ 10)
  unfolding random_80 encode_time
  encode_time-stamp n (pool, w) h =
      let small : (random_80 system pool w).0 < 2 ^ 80 =
        omega (arith, bit_and_low 80 (next_pooled system pool w).0) in
      let fits : leb n last_time ≡ true = ground (arith, h) in
      let whole : ltb n (2 ^ 64) ≡ true = ground (arith, h) in
      let (front, tens) = encode_time-take n (random_80 system pool w).0 h small in
      rw (fits, whole, from_parts-value n (random_80 system pool w).0 h small) (ap napi front, tens)

  ulid-refused :
      (v : Number) (t : Thread system)
      → is_timestamp v ≡ false
      → (is_timestamp v ≡ false)
        × (encode_time v ≡ throws (ts_out_of_range v))
        × (ulid system (some v) t ≡ (throws (ts_out_of_range v), t))
  unfolding ulid encode_time explicit_ts
  ulid-refused v (pool, w) h =
      let refused : explicit_ts (some v) ≡ throws (ts_out_of_range v) = rw (h, explicit_ts) refl in
      (h, rw h refl, rw (refused, ulid) refl)

  ulid-stamp :
      (n : ℕ) (t : Thread system)
      → n < 2 ^ 48
      → ulid system (some (integer (pos n))) t
        ≡ (returns (stamp system n t).0, (stamp system n t).1)
  unfolding ulid ulid_at
  ulid-stamp n (pool, w) h =
      let checked = explicit-given (some n) (λ m e. ground (arith, e, h)) in
      let fits : ltb last_time n ≡ false = ground (arith, h) in rw (checked, ulid) (rw fits refl)

  -- For every number, `encode_time` and `ulid` either both return or both throw. For an integer from
  -- 0 to 2 ^ 48 - 1, `encode_time` returns ten characters, which are the first ten of the string
  -- that `ulid` returns for it, and the `decodeTime` of that string is the integer. For any other
  -- number both throw the engine's error on timestamps, which holds the number as a `u64` (cut off and
  -- saturated, 0 for NaN), and `ulid` leaves the clock and the pool of random words as they were.
  pub encode_time-ulid :
      (v : Number) (t : Thread system)
      → ((is_timestamp v ≡ true)
          × ((s : Bytes) × (encode_time v ≡ returns s) × (length s ≡ 10) × IsFront v t s))
        ⊎ ((is_timestamp v ≡ false)
            × (encode_time v ≡ throws (ts_out_of_range v))
            × (ulid system (some v) t ≡ (throws (ts_out_of_range v), t)))
  encode_time-ulid (integer (pos n)) t = elim (Bool-cases (leb n last_time)) [
    | inr outside ↦ inr (ulid-refused (integer (pos n)) t outside)
    | inl inside ↦
        let h : n < 2 ^ 48 = ground (arith, inside) in
        let (id, t') = stamp system n t in
        let (e, tens) = encode_time-stamp n t h in
        inl (
          inside,
          (
            take 10 id,
            e,
            tens,
            (n, id, t', refl, ulid-stamp n t h, refl, stamp-IsStamped system n t h),
          ),
        )
  ]
  encode_time-ulid (integer (negsuc n)) t = inr (ulid-refused (integer (negsuc n)) t refl)
  encode_time-ulid (fractional n) t = inr (ulid-refused (fractional n) t refl)
  encode_time-ulid not_a_number t = inr (ulid-refused not_a_number t refl)
  encode_time-ulid infinity t = inr (ulid-refused infinity t refl)
  encode_time-ulid negative_infinity t = inr (ulid-refused negative_infinity t refl)
