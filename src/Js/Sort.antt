-- ===== src/Js/Sort.antt =====
-- `Array.prototype.sort`. The language asks for a stable sort by the comparator and leaves the
-- algorithm open; an insertion sort stands for it.
pub mod Laws
use rivid.Common.{
  ℕ, suc, ◌≤◌, ◌<◌, ◌≡◌, refl, ap, ◌∙◌, Bool, true, false, List, [], ◌∷◌, ◌++◌, All, ltb, leb, ◌==◌,
  if◌then◌else◌, arith, Bytes, str_lt,
}
use rivid.Js.{ℤ, pos, negsuc, Outcome, returns, throws, ◌>>=◌}

-- The comparator's answer asks for an exchange.
abbrev is_positive : ℤ → Bool
is_positive (pos n) = ltb 0 n
is_positive (negsuc n) = false

module _ {ℓ} {A : Type ℓ} (cmp : A → A → Outcome ℤ) where
  -- `x` goes behind all that do not have to follow it.
  insert : A → List A → Outcome (List A)
  insert x [] = returns (x ∷ [])
  insert x (y ∷ ys) = do
    c ← cmp y x
    let rest = insert x ys
    if is_positive c then returns (x ∷ y ∷ ys) else (do zs ← rest; returns (y ∷ zs))

  sort_into : List A → List A → Outcome (List A)
  sort_into [] out = returns out
  sort_into (x ∷ xs) out = do out' ← insert x out; sort_into xs out'

  unfoldable pub sort_by : List A → Outcome (List A)
  unfolding insert sort_into
  sort_by xs = sort_into xs []

-- Without a comparator the elements are compared as strings.
abbrev pub code_unit_order : Bytes → Bytes → Outcome ℤ
code_unit_order x y = returns (if str_lt x y then negsuc 0 else if str_lt y x then pos 1 else pos 0)

-- The comparator answers by a key.
abbrev pub order_of : ℕ → ℕ → ℤ
order_of a b = if ltb a b then negsuc 0 else if ltb b a then pos 1 else pos 0

abbrev pub Ascending {ℓ} : {A : Type ℓ} → (A → ℕ) → List A → Type 0
Ascending key [] = Unit
Ascending key (x ∷ xs) = All (λ y. key x ≤ key y) xs × Ascending key xs

-- The elements with the key `k`, in their order.
abbrev pub with_key {ℓ} : {A : Type ℓ} → (A → ℕ) → ℕ → List A → List A
with_key key k [] = []
with_key key k (x ∷ xs) = if key x == k then x ∷ with_key key k xs else with_key key k xs

-- A stable ascending rearrangement: the elements of each key are those of the input, in their order.
pub record IsSortOf {ℓ} {A : Type ℓ} (key : A → ℕ) (xs ys : List A) : Type ℓ where
  pub ascending : Ascending key ys
  pub stable : (k : ℕ) → with_key key k ys ≡ with_key key k xs
