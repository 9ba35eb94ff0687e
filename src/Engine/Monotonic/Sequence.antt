-- ===== src/Engine/Monotonic/Sequence.antt =====
-- The identifiers that the monotonic generator gives in turn are ascending.
use rivid.Common.{
  ℕ, ◌<◌, ◌^◌, ◌≡◌, subst, inl, inr, true, Option, none, some, List, [], ◌∷◌, Bytes, All, str_lt,
  Option-cases,
}
use rivid.Engine.Monotonic.{World, MonotonicState, advance, id_of, with_first, next_each}
use rivid.Engine.Monotonic.Increasing.{IsState, IsSteady, IsNext, advance-IsNext, id_of-str_lt}

-- Each text comes before the next.
abbrev pub IsAscending : List Bytes → Type 0
IsAscending [] = Unit
IsAscending (a ∷ []) = Unit
IsAscending (a ∷ b ∷ ids) = (str_lt a b ≡ true) × IsAscending (b ∷ ids)

abbrev IsAfter : MonotonicState → Option (List Bytes) → Type 0
IsAfter s none = Unit
IsAfter s (some ids) = IsAscending (id_of s ∷ ids)

IsAfter-with_first :
    (s t : MonotonicState) (o : Option (List Bytes))
    → str_lt (id_of s) (id_of t) ≡ true
    → IsAfter t o
    → IsAfter s (with_first (id_of t) o)
IsAfter-with_first s t none less h = tt
IsAfter-with_first s t (some ids) less h = (less, h)

module _ (world : World) where
  open world use {State}

  next_each-IsAfter :
      (rounds : ℕ) (nows : List ℕ) (s : MonotonicState) (w : State)
      → IsSteady world
      → All (λ now. now < 2 ^ 48) nows
      → IsState s
      → IsAfter s (next_each world rounds nows s w)
  unfolding next_each
  next_each-IsAfter rounds [] s w steady h k = tt
  next_each-IsAfter rounds (now ∷ nows) s w steady h k =
      elim (Option-cases (advance world rounds now s w)) [
        | inl e ↦ rw e tt
        | inr ((t, w'), e) ↦
            let next : IsNext world s (some (t, w')) =
              subst (IsNext world s) e (advance-IsNext world rounds now s w steady h.0 k) in
            rw e (
              IsAfter-with_first s t _ (id_of-str_lt s t k next.0 next.1)
                (next_each-IsAfter rounds nows t w' steady h.1 next.0))
      ]

  -- Whatever the timestamps of a ULID that a generator is called with, in any order, the identifiers
  -- that it returns are ascending texts, and come after that of the state it began with, if the
  -- clock is steady and stays within the timestamps of a ULID.
  next_each-IsAscending :
      (rounds : ℕ) (nows : List ℕ) (s : MonotonicState) (w : State) (ids : List Bytes)
      → IsSteady world
      → All (λ now. now < 2 ^ 48) nows
      → IsState s
      → next_each world rounds nows s w ≡ some ids
      → IsAscending (id_of s ∷ ids)
  next_each-IsAscending rounds nows s w ids steady h k e =
      subst (IsAfter s) e (next_each-IsAfter rounds nows s w steady h k)
