-- ===== src/Js/Regex.antt =====
-- JavaScript's regular expressions, as far as the command-line tool uses them: matching by
-- backtracking, greedy or lazy, with captures, assertions and a negative lookahead.
pub mod Endings
use rivid.Common.{
  ℕ, zero, suc, ◌+◌, ◌-◌, Bool, true, false, Option, none, some, List, [], ◌∷◌, Bytes, length, take,
  ltb, ◌==◌, if◌then◌else◌,
}
use mathlib.Core.List.{reverse}

pub data Regex : Type 0 where
  empty : Regex
  -- One character of a class.
  one : (ℕ → Bool) → Regex
  seq alt : Regex → Regex → Regex
  -- Any number of times, as many as possible first (`true`) or as few (`false`).
  star : Bool → Regex → Regex
  -- The capture with a number.
  group : ℕ → Regex → Regex
  -- A test of what stands before, last character first, and of what follows.
  assert : (Bytes → Bytes → Bool) → Regex
  not_ahead : Regex → Regex

-- A place in the text, and the captures so far, the latest first.
pub record Cursor : Type 0 where
  pub before : Bytes
  pub after : Bytes
  pub captures : List (ℕ × Bytes)

abbrev Next : Type 0
Next = Cursor → Option Cursor

consume : (ℕ → Bool) → Cursor → Bytes → Next → Option Cursor
consume p c [] k = none
consume p c (x ∷ rest) k = elim (p x) [
  | true ↦ k (record c { before = x ∷ c.before; after = rest })
  | false ↦ none
]

-- A round that consumes nothing is refused, so `n`, the length of what follows, bounds the rounds.
repeat : Bool → (Cursor → Next → Option Cursor) → ℕ → Cursor → Next → Option Cursor
repeat greedy round zero c k = k c
repeat true round (suc n) c k =
    elim (round c (λ d. elim (ltb (length d.after) (length c.after)) [
      | true ↦ repeat true round n d k
      | false ↦ none
    ])) [ some d ↦ some d | none ↦ k c ]
repeat false round (suc n) c k = elim (k c) [
  | some d ↦ some d
  | none ↦ round c (λ d. elim (ltb (length d.after) (length c.after)) [
    | true ↦ repeat false round n d k
    | false ↦ none
  ])
]

run : Regex → Cursor → Next → Option Cursor
unfolding consume repeat
run empty c k = k c
run (one p) c k = consume p c c.after k
run (seq a b) c k = run a c (λ d. run b d k)
run (alt a b) c k = elim (run a c k) [ some d ↦ some d | none ↦ run b c k ]
run (star greedy r) c k = repeat greedy (run r) (length c.after) c k
run (group i r) c k = run r c (λ d.
    k (record d { captures = (i, take (length c.after - length d.after) c.after) ∷ d.captures }))
run (assert holds) c k = elim (holds c.before c.after) [ true ↦ k c | false ↦ none ]
run (not_ahead r) c k = elim (run r c (λ d. some d)) [ some d ↦ none | none ↦ k c ]

-- A match that begins at this place.
unfoldable pub match_at : Regex → Bytes → Bytes → Option Cursor
unfolding run
match_at r before after =
    run r (record { before = before; after = after; captures = [] }) (λ c. some c)

-- The first match from this place on.
unfoldable pub exec_from : Regex → Bytes → Bytes → Option Cursor
unfolding match_at
exec_from r before [] = match_at r before []
exec_from r before (x ∷ after) = elim (match_at r before (x ∷ after)) [
  | some c ↦ some c
  | none ↦ exec_from r (x ∷ before) after
]

-- `text.match(r)`
unfoldable pub exec : Regex → Bytes → Option Cursor
unfolding exec_from
exec r text = exec_from r [] text

unfoldable pub test : Regex → Bytes → Bool
unfolding exec
test r text = elim (exec r text) [ some c ↦ true | none ↦ false ]

-- The text of a capture; `none` for one that took no part in the match.
abbrev pub capture : ℕ → List (ℕ × Bytes) → Option Bytes
capture i [] = none
capture i ((j, text) ∷ captures) = if i == j then some text else capture i captures

-- A capture that takes part in every match.
abbrev pub captured : ℕ → Cursor → Bytes
captured i c = elim (capture i c.captures) [ some text ↦ text | none ↦ [] ]

-- `text.matchAll(r)` for an expression that matches no empty text; `n` bounds the matches.
match_from : ℕ → Regex → Bytes → Bytes → List Cursor
match_from zero r before after = []
match_from (suc n) r before after = elim (exec_from r before after) [
  | none ↦ []
  | some c ↦ c ∷ match_from n r c.before c.after
]

unfoldable pub match_all : Regex → Bytes → List Cursor
unfolding match_from exec_from
match_all r text = match_from (length text) r [] text

-- `text.split(r)` for such an expression: `piece` is what was passed since the last separator, last
-- character first; `n` bounds the steps.
split_from : ℕ → Regex → Bytes → Bytes → List Bytes
split_from zero r piece after = reverse piece ∷ []
split_from (suc n) r piece [] = reverse piece ∷ []
split_from (suc n) r piece (x ∷ after) = elim (match_at r piece (x ∷ after)) [
  | some c ↦ reverse piece ∷ split_from n r [] c.after
  | none ↦ split_from n r (x ∷ piece) after
]

unfoldable pub split : Regex → Bytes → List Bytes
unfolding split_from match_at
split r text = split_from (length text + 1) r [] text
