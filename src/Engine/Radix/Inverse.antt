-- ===== src/Engine/Radix/Inverse.antt =====
-- Changing the base and changing it back.
use rivid.Common.{
  ℕ, zero, suc, ◌+◌, ◌<◌, ◌≡◌, refl, ap, sym, ◌∙◌, [], ◌∷◌, ◌++◌, All, drop, replicate, All-drop,
  All-append_lists, arith,
}
use mathlib.Core.List.{reverse, reverse-cons, reverse-reverse}
use rivid.Engine.Radix.{Digits, value, IsBelow, shift_all, zeros, convert}
use rivid.Engine.Radix.Shift.{
  horner-reverse, value-reverse, value-shift_all, shift_all-IsBelow, shift_all-IsCanonical,
}
use rivid.Engine.Radix.Canonical.{value_injective, zeros-IsCanonical, zeros-reverse}

All-reverse : (P : ℕ → Type 0) (ds : Digits) → All P ds → All P (reverse ds)
All-reverse P [] h = tt
All-reverse P (d ∷ ds) h =
    rw (reverse-cons d ds)
      (All-append_lists P (reverse ds) (d ∷ []) (All-reverse P ds h.1) (h.0, tt))

pub zeros-replicate : (k : ℕ) (ds : Digits) → zeros (replicate k 0 ++ ds) ≡ k + zeros ds
unfolding zeros
zeros-replicate zero ds = omega arith
zeros-replicate (suc k) ds = omega (arith, zeros-replicate k ds)

drop-replicate : (k : ℕ) (ds : Digits) → drop k (replicate k 0 ++ ds) ≡ ds
drop-replicate zero ds = refl
drop-replicate (suc k) ds = drop-replicate k ds

-- A list is its leading zeros and the rest, which starts with another digit.
pub zeros-rest :
    (ds : Digits)
    → (replicate (zeros ds) 0 ++ drop (zeros ds) ds ≡ ds) × (zeros (drop (zeros ds) ds) ≡ 0)
unfolding zeros
zeros-rest [] = (refl, refl)
zeros-rest (zero ∷ ds) = let (same, other) = zeros-rest ds in (ap (λ t. 0 ∷ t) same, other)
zeros-rest (suc d ∷ ds) = (refl, refl)

module _ (by base : ℕ) (by_two : 1 < by) (base_two : 1 < base) where
  -- Both directions on a list with no leading zeros.
  there_and_back :
      (ds : Digits)
      → zeros ds ≡ 0
      → IsBelow by ds
      → shift_all base by (reverse (shift_all by base ds [])) [] ≡ reverse ds
  unfolding value
  there_and_back ds z h =
      let out = shift_all by base ds [] in
      value_injective by (omega arith) (shift_all base by (reverse out) []) (reverse ds)
        (shift_all-IsBelow base by (omega arith) by_two (reverse out) [] tt) (All-reverse _ ds h)
        (shift_all-IsCanonical base by (omega arith) by_two (reverse out) [] tt)
        (zeros-IsCanonical by (omega arith) ds z)
        (value-shift_all base by (omega arith) by_two (reverse out) []
          ∙ horner-reverse base out
          ∙ value-shift_all by base (omega arith) base_two ds []
          ∙ sym (value-reverse by ds))

  pub zeros-convert : (ds : Digits) → zeros (convert by base ds) ≡ zeros ds
  unfolding convert
  zeros-convert ds =
      let out = shift_all by base (drop (zeros ds) ds) [] in
      let canonical =
        shift_all-IsCanonical by base (omega arith) base_two (drop (zeros ds) ds) [] tt in
      omega (
        arith,
        zeros-replicate (zeros ds) (reverse out),
        zeros-reverse base (omega arith) out canonical,
      )

  -- The way back gives the digits that there were.
  pub convert-convert : (ds : Digits) → IsBelow by ds → convert base by (convert by base ds) ≡ ds
  convert-convert ds h =
      let r = drop (zeros ds) ds in
      let same = zeros-convert ds in
      let dropped : drop (zeros ds) (convert by base ds) ≡ reverse (shift_all by base r []) =
        unfold convert in drop-replicate (zeros ds) _ in
      let back = there_and_back r (zeros-rest ds).1 (All-drop _ (zeros ds) ds h) in
      unfold convert in rw (same, dropped, back, reverse-reverse r) (zeros-rest ds).0

  pub convert-IsBelow : (ds : Digits) → IsBelow base (convert by base ds)
  unfolding convert
  convert-IsBelow ds = All-append_lists _ (replicate (zeros ds) 0) _ (below (zeros ds)) (
      All-reverse _ _ (shift_all-IsBelow by base (omega arith) base_two (drop (zeros ds) ds) [] tt))
    where
      below : (k : ℕ) → IsBelow base (replicate k 0)
      below zero = tt
      below (suc k) = (omega arith, below k)
