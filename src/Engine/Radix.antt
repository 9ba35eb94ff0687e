-- ===== src/Engine/Radix.antt =====
-- Changing the base of a number that starts with zeros: what both directions of base58.rs compute,
-- with lists of digits for the text and for the bytes. It models no code.
pub mod Shift
pub mod Canonical
pub mod Inverse
use rivid.Common.{
  ℕ, zero, suc, ◌+◌, ◌*◌, ◌/◌, ◌%◌, ◌≤◌, ◌<◌, ◌≡◌, refl, ap, ap₂, sym, ◌∙◌, List, [], ◌∷◌, ◌++◌,
  All, drop, replicate, All-drop, All-append_lists, ◌==◌, if◌then◌else◌, Bool-cases, inl, inr,
  arith,
}
use mathlib.Core.List.{reverse, reverse_aux, reverse-cons, reverse-reverse}
use native.Mathlib.Nat.{
  div-add-mod', mod-lt, div-lt_self, mul_comm, mul-pos, mod-eq_of_lt, add-mul-mod_self_right,
  mul-div_cancel,
}

abbrev pub Digits : Type 0
Digits = List ℕ

-- The number of a list whose lowest digit comes first.
unfoldable pub value : ℕ → Digits → ℕ
value base [] = 0
value base (d ∷ ds) = d + value base ds * base

-- No zero in the highest places.
abbrev pub IsCanonical : ℕ → Digits → Type 0
IsCanonical base [] = Unit {0}
IsCanonical base (d ∷ ds) = (0 < value base (d ∷ ds)) × IsCanonical base ds

abbrev pub IsBelow : ℕ → Digits → Type 0
IsBelow base = All (λ d. d < base)

-- The digits of `carry`, with rounds enough.
unfoldable pub places : ℕ → ℕ → ℕ → Digits
places base zero carry = []
places base (suc rounds) zero = []
places base (suc rounds) (suc c) = (suc c % base) ∷ places base rounds (suc c / base)

-- `digits * by + carry` in the base `base`.
unfoldable pub shift_in : ℕ → ℕ → Digits → ℕ → Digits
shift_in by base [] carry = places base carry carry
shift_in by base (d ∷ ds) carry =
    ((carry + d * by) % base) ∷ shift_in by base ds ((carry + d * by) / base)

-- The digits read highest first, behind `out`.
unfoldable pub shift_all : ℕ → ℕ → Digits → Digits → Digits
shift_all by base [] out = out
shift_all by base (d ∷ ds) out = shift_all by base ds (shift_in by base out d)

-- How many zeros come first.
unfoldable pub zeros : Digits → ℕ
zeros [] = 0
zeros (zero ∷ ds) = suc (zeros ds)
zeros (suc d ∷ ds) = 0

unfoldable pub convert : ℕ → ℕ → Digits → Digits
convert by base ds = replicate (zeros ds) 0 ++ reverse (shift_all by base (drop (zeros ds) ds) [])
