-- ===== src/Engine/Radix/Canonical.antt =====
-- Digits with no zero in the highest places: their number determines them, and the list read the
-- other way starts with no zero.
use rivid.Common.{
  ℕ, zero, suc, ◌+◌, ◌*◌, ◌/◌, ◌%◌, ◌<◌, ◌≡◌, refl, ap, ap₂, sym, ◌∙◌, [], ◌∷◌, ◌++◌, arith,
}
use mathlib.Core.List.{reverse, reverse_aux, reverse-cons}
use native.Mathlib.Nat.{mul-pos, mod-eq_of_lt, add-mul-mod_self_right, mul-div_cancel}
use rivid.Engine.Radix.{Digits, value, IsCanonical, IsBelow, zeros}

module _ (base : ℕ) (base_pos : 0 < base) where
  same_places :
      (d e m n : ℕ) → d < base → e < base → d + m * base ≡ e + n * base → (d ≡ e) × (m ≡ n)
  same_places d e m n h k eq =
      let low : d ≡ e =
        sym (mod-eq_of_lt h)
        ∙ sym (add-mul-mod_self_right d m base)
        ∙ ap (λ t. t % base) eq
        ∙ add-mul-mod_self_right e n base
        ∙ mod-eq_of_lt k in
      let high : m * base ≡ n * base = omega (arith, low) in
      (low, sym (mul-div_cancel m base_pos) ∙ ap (λ t. t / base) high ∙ mul-div_cancel n base_pos)

  -- Digits without zeros in the highest places are determined by their number.
  pub value_injective :
      (xs ys : Digits)
      → IsBelow base xs
      → IsBelow base ys
      → IsCanonical base xs
      → IsCanonical base ys
      → value base xs ≡ value base ys
      → xs ≡ ys
  value_injective [] [] h k p q e = refl
  value_injective [] (y ∷ ys) h k p q e =
      let zero_value : value base [] ≡ 0 = unfold value in refl in
      absurd (omega (arith, q.0, zero_value))
  value_injective (x ∷ xs) [] h k p q e =
      let zero_value : value base [] ≡ 0 = unfold value in refl in
      absurd (omega (arith, p.0, zero_value))
  value_injective (x ∷ xs) (y ∷ ys) h k p q e =
      let (low, high) =
        same_places x y (value base xs) (value base ys) h.0 k.0 (unfold value in e) in
      ap₂ ◌∷◌ low (value_injective xs ys h.1 k.1 p.1 q.1 high)

  IsCanonical-snoc : (d : ℕ) (ds : Digits) → 0 < d → IsCanonical base (ds ++ (d ∷ []))
  unfolding value
  IsCanonical-snoc d [] h = (omega arith, tt)
  IsCanonical-snoc d (e ∷ ds) h =
      let above = IsCanonical-snoc d ds h in
      (omega (arith, mul-pos (first_pos d ds above) base_pos), above)
    where
      first_pos :
          (d : ℕ) (ds : Digits)
          → IsCanonical base (ds ++ (d ∷ []))
          → 0 < value base (ds ++ (d ∷ []))
      first_pos d [] p = p.0
      first_pos d (e ∷ ds) p = p.0

  pub zeros-IsCanonical : (ds : Digits) → zeros ds ≡ 0 → IsCanonical base (reverse ds)
  unfolding zeros
  zeros-IsCanonical [] h = tt
  zeros-IsCanonical (zero ∷ ds) h = absurd (omega arith)
  zeros-IsCanonical (suc d ∷ ds) h =
      rw (reverse-cons (suc d) ds) (IsCanonical-snoc (suc d) (reverse ds) (omega arith))

  zeros-reverse_aux :
      (d : ℕ) (ds acc : Digits) → IsCanonical base (d ∷ ds) → zeros (reverse_aux (d ∷ ds) acc) ≡ 0
  zeros-reverse_aux zero [] acc h = unfold value in absurd (omega (arith, h.0))
  zeros-reverse_aux (suc d) [] acc h = unfold zeros in refl
  zeros-reverse_aux d (e ∷ ds) acc h = zeros-reverse_aux e ds (d ∷ acc) h.1

  pub zeros-reverse : (ds : Digits) → IsCanonical base ds → zeros (reverse ds) ≡ 0
  zeros-reverse [] h = unfold zeros in refl
  zeros-reverse (d ∷ ds) h = zeros-reverse_aux d ds [] h
