-- ===== src/Runs/Generator.antt =====
-- A generator at a clock that stands still.
use rivid.Common.{
  ℕ, ◌+◌, ◌*◌, ◌^◌, ◌<◌, ◌≡◌, refl, ◌⊎◌, false, All, length, inl, inr, true, some, List, [], ◌∷◌,
  Bytes, str_lt, arith,
}
use rivid.Js.{pos, negsuc, returns, throws, native_count}
use rivid.Binding.Batches.{is_batch, IsStamped, generate_many, generate_many-IsStamped}
use rivid.Engine.Monotonic.{
  random_mask, World, MonotonicState, fresh, advance, id_of, next_each, draw_80,
}
use rivid.Engine.Monotonic.Increasing.{IsState, IsSteady, value, advance-returns}

abbrev still : World
still = record {
  State = ℕ;
  next_u64 = λ w. (7, w + 1);
  now_ms = λ w. (1000, w);
  next_u64-lt = λ w. omega arith;
}

still-IsSteady : IsSteady still
still-IsSteady w = (omega arith, omega arith)

-- A state without random bits left.
abbrev spent : MonotonicState
spent = record { last_ms = 900; last_rand = random_mask }

advance-returns_example :
    (t : MonotonicState) × (w' : ℕ) × (advance still 1 500 spent 0 ≡ some (t, w'))
    × IsState t
    × (value spent < value t)
    × (str_lt (id_of spent) (id_of t) ≡ true)
advance-returns_example =
    advance-returns still 1 500 spent 0 still-IsSteady (omega arith) (omega arith, omega arith)
      (inr (inr (inl (omega arith))))

abbrev three : List Bytes
three =
    id_of (record { last_ms = 5; last_rand = 7 * 2 ^ 64 + 7 })
    ∷ id_of (record { last_ms = 5; last_rand = 7 * 2 ^ 64 + 8 })
    ∷ id_of (record { last_ms = 6; last_rand = 7 * 2 ^ 64 + 7 })
    ∷ []

next_each-three : next_each still 0 (5 ∷ 3 ∷ 6 ∷ []) fresh 0 ≡ some three
unfolding next_each advance draw_80
next_each-three = refl

-- A first call with timestamp 0 draws no random bits.
advance-epoch : advance still 0 0 fresh 0 ≡ some (record { last_ms = 0; last_rand = 1 }, 0)
unfolding advance
advance-epoch = refl

generate_many-IsStamped_example :
    ((is_batch (pos 3) ≡ true)
      × ((ids : List Bytes) × (w' : ℕ) × (generate_many still (pos 3) 0 ≡ returns (ids, w'))
          × (pos (length ids) ≡ pos 3)
          × All (IsStamped 1000) ids))
    ⊎ ((is_batch (pos 3) ≡ false) × (generate_many still (pos 3) 0 ≡ throws (native_count (pos 3))))
generate_many-IsStamped_example = generate_many-IsStamped still (pos 3) 0 (omega arith)

generate_many-negative : generate_many still (negsuc 0) 0 ≡ throws (native_count (negsuc 0))
unfolding generate_many
generate_many-negative = refl
