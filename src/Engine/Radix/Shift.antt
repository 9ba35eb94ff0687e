-- ===== src/Engine/Radix/Shift.antt =====
-- What shifting digits into a number of another base leaves: its value, and digits of that base with
-- no zero in the highest places.
use rivid.Common.{
  ℕ, zero, suc, ◌+◌, ◌*◌, ◌/◌, ◌≤◌, ◌<◌, ◌≡◌, refl, ap, sym, ◌∙◌, [], ◌∷◌, ◌++◌, arith,
}
use mathlib.Core.List.{reverse, reverse-cons, reverse-reverse}
use native.Mathlib.Nat.{div-add-mod', mod-lt, div-lt_self, mul_comm, mul-pos}
use rivid.Engine.Radix.{Digits, value, IsCanonical, IsBelow, places, shift_in, shift_all}

-- The number of a list whose highest digit comes first, behind `acc`.
unfoldable pub horner : ℕ → Digits → ℕ → ℕ
horner base [] acc = acc
horner base (d ∷ ds) acc = horner base ds (acc * base + d)

horner-snoc :
    (base d acc : ℕ) (ds : Digits)
    → horner base (ds ++ (d ∷ [])) acc ≡ horner base ds acc * base + d
unfolding horner
horner-snoc base d acc [] = refl
horner-snoc base d acc (e ∷ ds) = horner-snoc base d (acc * base + e) ds

pub horner-reverse : (base : ℕ) (ds : Digits) → horner base (reverse ds) 0 ≡ value base ds
unfolding horner value
horner-reverse base [] = refl
horner-reverse base (d ∷ ds) =
    rw (reverse-cons d ds, horner-snoc base d 0 (reverse ds), horner-reverse base ds) (omega arith)

pub value-reverse : (base : ℕ) (ds : Digits) → value base (reverse ds) ≡ horner base ds 0
value-reverse base ds =
    sym (horner-reverse base (reverse ds)) ∙ ap (λ t. horner base t 0) (reverse-reverse ds)

-- The digits in `base` of a number that digits of base `by` are shifted into.
module _ (by base : ℕ) (by_pos : 0 < by) (base_two : 1 < base) where
  value-places : (rounds c : ℕ) → c ≤ rounds → value base (places base rounds c) ≡ c
  unfolding places value
  value-places zero c h = omega arith
  value-places (suc rounds) zero h = refl
  value-places (suc rounds) (suc c) h =
      let smaller : suc c / base ≤ rounds =
        omega (arith, div-lt_self {n = suc c} {k = base} (omega arith) base_two) in
      omega (
        arith,
        value-places rounds (suc c / base) smaller,
        div-add-mod' (suc c) base,
        ap (λ (t : ℕ). t * base) (value-places rounds (suc c / base) smaller),
      )

  places-IsBelow : (rounds c : ℕ) → IsBelow base (places base rounds c)
  unfolding places
  places-IsBelow zero c = tt
  places-IsBelow (suc rounds) zero = tt
  places-IsBelow (suc rounds) (suc c) =
      (mod-lt (suc c) (omega arith), places-IsBelow rounds (suc c / base))

  places-IsCanonical : (rounds c : ℕ) → c ≤ rounds → IsCanonical base (places base rounds c)
  unfolding places
  places-IsCanonical zero c h = tt
  places-IsCanonical (suc rounds) zero h = tt
  places-IsCanonical (suc rounds) (suc c) h =
      let smaller : suc c / base ≤ rounds =
        omega (arith, div-lt_self {n = suc c} {k = base} (omega arith) base_two) in
      (
        omega (arith, value-places (suc rounds) (suc c) h),
        places-IsCanonical rounds (suc c / base) smaller,
      )

  value-shift_in :
      (ds : Digits) (c : ℕ) → value base (shift_in by base ds c) ≡ value base ds * by + c
  unfolding shift_in value
  value-shift_in [] c = omega (arith, value-places c c (omega arith))
  value-shift_in (d ∷ ds) c =
      let v = c + d * by in
      let e = value-shift_in ds (v / base) in
      omega
        (arith, div-add-mod' v base, ap (λ (t : ℕ). t * base) e, mul_comm (value base ds * by) base)

  pub shift_in-IsBelow : (ds : Digits) (c : ℕ) → IsBelow base (shift_in by base ds c)
  unfolding shift_in
  shift_in-IsBelow [] c = places-IsBelow c c
  shift_in-IsBelow (d ∷ ds) c =
      (mod-lt (c + d * by) (omega arith), shift_in-IsBelow ds ((c + d * by) / base))

  shift_in-IsCanonical :
      (ds : Digits) (c : ℕ) → IsCanonical base ds → IsCanonical base (shift_in by base ds c)
  unfolding shift_in
  shift_in-IsCanonical [] c h = places-IsCanonical c c (omega arith)
  shift_in-IsCanonical (d ∷ ds) c h =
      let p = mul-pos h.0 by_pos in
      (
        omega (arith, value-shift_in (d ∷ ds) c, p),
        shift_in-IsCanonical ds ((c + d * by) / base) h.1,
      )

  pub value-shift_all :
      (ds out : Digits) → value base (shift_all by base ds out) ≡ horner by ds (value base out)
  unfolding shift_all horner
  value-shift_all [] out = refl
  value-shift_all (d ∷ ds) out =
      value-shift_all ds (shift_in by base out d) ∙ ap (horner by ds) (value-shift_in out d)

  pub shift_all-IsBelow :
      (ds out : Digits) → IsBelow base out → IsBelow base (shift_all by base ds out)
  unfolding shift_all
  shift_all-IsBelow [] out h = h
  shift_all-IsBelow (d ∷ ds) out h =
      shift_all-IsBelow ds (shift_in by base out d) (shift_in-IsBelow out d)

  pub shift_all-IsCanonical :
      (ds out : Digits) → IsCanonical base out → IsCanonical base (shift_all by base ds out)
  unfolding shift_all
  shift_all-IsCanonical [] out h = h
  shift_all-IsCanonical (d ∷ ds) out h =
      shift_all-IsCanonical ds (shift_in by base out d) (shift_in-IsCanonical out d h)
