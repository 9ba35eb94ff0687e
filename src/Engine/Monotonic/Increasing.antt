-- ===== src/Engine/Monotonic/Increasing.antt =====
-- A call of the monotonic generator gives an identifier that comes after the previous one.
use Prim.Native.Nat.{bit_and, bit_or}
use rivid.Common.{
  ℕ, zero, suc, ◌+◌, ◌-◌, ◌*◌, ◌%◌, ◌^◌, ◌<◌, ◌≤◌, ◌≡◌, refl, sym, subst, ◌∙◌, ◌⊎◌, inl, inr, true,
  false, Option, none, some, ltb, leb, str_lt, lt→ltb, ltb→lt, Bool-cases, arith,
}
use rivid.Common.Bits.{bit_or_disjoint, bit_and_low}
use rivid.Engine.Alphabet.Order.{str_lt-read}
use rivid.Engine.Crockford.{encode_value}
use rivid.Engine.Crockford.Digits.{crockford, crockford-IsSorted}
use rivid.Engine.Crockford.RoundTrip.{length-encode_value, encode_value-IsLetter, read-encode_value}
use rivid.Engine.Monotonic.{
  random_mask, from_parts, World, MonotonicState, draw_80, spin_until_next_ms, reseed, advance,
  id_of,
}

-- The fields fit their bits.
abbrev pub IsState : MonotonicState → Type 0
IsState s = (s.last_ms < 2 ^ 48) × (s.last_rand < 2 ^ 80)

abbrev pub value : MonotonicState → ℕ
value s = s.last_ms * 2 ^ 80 + s.last_rand

pub from_parts-value :
    (ms rand : ℕ) → ms < 2 ^ 48 → rand < 2 ^ 80 → from_parts ms rand ≡ ms * 2 ^ 80 + rand
unfolding from_parts
from_parts-value ms rand h k =
    let low : bit_and ms (2 ^ 48 - 1) * 2 ^ 80 % 2 ^ 128 ≡ ms * 2 ^ 80 =
      omega (arith, bit_and_low 48 ms) in
    let rest : bit_and rand random_mask ≡ rand = omega (arith, bit_and_low 80 rand) in
    rw (low, rest) (bit_or_disjoint 80 ms rand k)

encode_value-str_lt :
    (v u : ℕ) → v < u → u < 2 ^ 128 → str_lt (encode_value v) (encode_value u) ≡ true
encode_value-str_lt v u h k =
    str_lt-read crockford crockford-IsSorted (encode_value v) (encode_value u) 0 v u
      (length-encode_value v ∙ sym (length-encode_value u)) (encode_value-IsLetter v)
      (encode_value-IsLetter u) (read-encode_value v (omega arith)) (read-encode_value u k)
    ∙ lt→ltb v u h

leb-false→lt : (a b : ℕ) → leb a b ≡ false → b < a
leb-false→lt a b h = ground arith

pub id_of-str_lt :
    (s t : MonotonicState)
    → IsState s
    → IsState t
    → value s < value t
    → str_lt (id_of s) (id_of t) ≡ true
unfolding id_of
id_of-str_lt s t h k less =
    rw
      (
        from_parts-value s.last_ms s.last_rand h.0 h.1,
        from_parts-value t.last_ms t.last_rand k.0 k.1,
      )
      (encode_value-str_lt (value s) (value t) less (omega arith))

module _ (world : World) where
  open world use {State, next_u64, now_ms}

  -- The clock stays within the timestamps of a ULID, and a reading is not before the one it follows.
  abbrev pub IsSteady : Type 0
  IsSteady = (w : State) → ((now_ms w).0 < 2 ^ 48) × ((now_ms w).0 ≤ (now_ms (now_ms w).1).0)

  -- One of the next readings is past `ms`.
  abbrev pub Passes : ℕ → ℕ → State → Type 0
  Passes zero ms w = ⊥
  Passes (suc rounds) ms w = (ms < (now_ms w).0) ⊎ Passes rounds ms (now_ms w).1

  draw_80-lt : (w : State) → (draw_80 world w).0 < 2 ^ 80
  unfolding draw_80
  draw_80-lt w = omega (
    arith,
    bit_and_low 80 (bit_or ((next_u64 w).0 * 2 ^ 64 % 2 ^ 128) (next_u64 (next_u64 w).1).0),
  )

  -- Where the spin ends, the next reading is later.
  abbrev IsLater : ℕ → Option State → Type 0
  IsLater current none = Unit
  IsLater current (some w) = current < (now_ms w).0

  spin-IsLater :
      (rounds current : ℕ) (w : State)
      → IsSteady
      → IsLater current (spin_until_next_ms world rounds current w)
  unfolding spin_until_next_ms
  spin-IsLater zero current w steady = tt
  spin-IsLater (suc rounds) current w steady = elim (Bool-cases (leb (now_ms w).0 current)) [
    | inl early ↦ rw early (spin-IsLater rounds current (now_ms w).1 steady)
    | inr late ↦ rw late (omega (arith, (steady w).1, leb-false→lt (now_ms w).0 current late))
  ]

  spin-ends :
      (rounds current : ℕ) (w : State)
      → Passes rounds current w
      → (w' : State) × (spin_until_next_ms world rounds current w ≡ some w')
  unfolding spin_until_next_ms
  spin-ends zero current w p = elim p [ ]
  spin-ends (suc rounds) current w p = elim (Bool-cases (leb (now_ms w).0 current)) [
    | inl early ↦ rw early (elim p [
      | inl past ↦ absurd (ground (arith, past, early))
      | inr later ↦ spin-ends rounds current (now_ms w).1 later
    ])
    | inr late ↦ rw late ((now_ms w).1, refl)
  ]

  -- What a call makes of the state: a state of a greater value.
  abbrev pub IsNext : MonotonicState → Option (MonotonicState × State) → Type 0
  IsNext s none = Unit
  IsNext s (some (t, w)) = IsState t × (value s < value t)

  reseed-IsNext :
      (s : MonotonicState) (o : Option State)
      → IsSteady
      → IsState s
      → IsLater s.last_ms o
      → IsNext s (reseed world o)
  reseed-IsNext s none steady h later = tt
  reseed-IsNext s (some w) steady h later =
      (((steady w).0, draw_80-lt (now_ms w).1), omega (arith, h, later))

  pub advance-IsNext :
      (rounds now : ℕ) (s : MonotonicState) (w : State)
      → IsSteady
      → now < 2 ^ 48
      → IsState s
      → IsNext s (advance world rounds now s w)
  unfolding advance
  advance-IsNext rounds now s w steady h k = elim (Bool-cases (ltb s.last_ms now)) [
    | inl new ↦ rw new ((h, draw_80-lt w), omega (arith, k, ltb→lt s.last_ms now new))
    | inr old ↦ rw old (elim (Bool-cases (ltb s.last_rand random_mask)) [
      | inl left ↦ rw left ((k.0, omega (arith, ltb→lt s.last_rand random_mask left)), omega arith)
      | inr spent ↦ rw spent (reseed-IsNext s _ steady k (spin-IsLater rounds s.last_ms w steady))
    ])
  ]

  reseed-some :
      (o : Option State) (w : State)
      → o ≡ some w
      → (r : MonotonicState × State) × (reseed world o ≡ some r)
  reseed-some none w e = absurd (ground (arith, e))
  reseed-some (some v) w e = (_, refl)

  pub advance-some :
      (rounds now : ℕ) (s : MonotonicState) (w : State)
      → (s.last_ms < now) ⊎ ((s.last_rand < random_mask) ⊎ Passes rounds s.last_ms w)
      → (r : MonotonicState × State) × (advance world rounds now s w ≡ some r)
  unfolding advance
  advance-some rounds now s w can = elim (Bool-cases (ltb s.last_ms now)) [
    | inl new ↦ rw new (_, refl)
    | inr old ↦ rw old (elim (Bool-cases (ltb s.last_rand random_mask)) [
      | inl left ↦ rw left (_, refl)
      | inr spent ↦ rw spent (elim can [
        | inl new ↦ absurd (ground (arith, new, old))
        | inr (inl left) ↦ absurd (ground (arith, left, spent))
        | inr (inr passes) ↦ let (w', e) = spin-ends rounds s.last_ms w passes in reseed-some _ w' e
      ])
    ])
  ]

  -- Where the timestamp is new, or random bits are left, or the clock passes the last millisecond
  -- within the next `rounds` readings, a call returns an identifier, which comes after that of the
  -- previous state as a text. This holds of every timestamp of a ULID, also one before the previous,
  -- if the clock is steady and stays within the timestamps of a ULID.
  pub advance-returns :
      (rounds now : ℕ) (s : MonotonicState) (w : State)
      → IsSteady
      → now < 2 ^ 48
      → IsState s
      → (s.last_ms < now) ⊎ ((s.last_rand < random_mask) ⊎ Passes rounds s.last_ms w)
      → (t : MonotonicState) × (w' : State) × (advance world rounds now s w ≡ some (t, w'))
        × IsState t
        × (value s < value t)
        × (str_lt (id_of s) (id_of t) ≡ true)
  advance-returns rounds now s w steady h k can =
      let ((t, w'), e) = advance-some rounds now s w can in
      let next : IsNext s (some (t, w')) =
        subst (IsNext s) e (advance-IsNext rounds now s w steady h k) in
      (t, w', e, next.0, next.1, id_of-str_lt s t k next.0 next.1)
