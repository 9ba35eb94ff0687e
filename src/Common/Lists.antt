-- ===== src/Common/Lists.antt =====
-- Lists measured and indexed by native numbers, and texts as lists of code units.
use rivid.Common.Tests.{ltb, ◌==◌, if◌then◌else◌}
use Prim.Native.Nat.{ℕ, zero, suc, ◌+◌, ◌-◌, ◌≤◌}
use Prim.Native.Char.{code}
use Prim.Native.String.{String}
use mathlib.Core.Path.{◌≡◌, refl}
use mathlib.Core.List.{List, [], ◌∷◌, ◌++◌}
use mathlib.Core.Bool.{Bool, true, false, ◌&&◌}
use mathlib.Core.Option.{Option, none, some}
use native.Mathlib.Omega.{arith}

-- A JavaScript string is its UTF-16 code units, a Rust string or buffer its bytes.
abbrev pub Bytes : Type 0
Bytes = List ℕ

abbrev pub codes : String → Bytes
codes String.[] = []
codes (String.◌∷◌ c s) = code c ∷ codes s

module _ {ℓ} {A : Type ℓ} where
  abbrev pub length : List A → ℕ
  length [] = 0
  length (x ∷ xs) = suc (length xs)

  abbrev pub get_elem? : List A → ℕ → Option A
  get_elem? [] i = none
  get_elem? (x ∷ xs) zero = some x
  get_elem? (x ∷ xs) (suc i) = get_elem? xs i

  abbrev pub get_or : List A → ℕ → A → A
  get_or [] i d = d
  get_or (x ∷ xs) zero d = x
  get_or (x ∷ xs) (suc i) d = get_or xs i d

  abbrev pub set : List A → ℕ → A → List A
  set [] i v = []
  set (x ∷ xs) zero v = v ∷ xs
  set (x ∷ xs) (suc i) v = x ∷ set xs i v

  abbrev pub take : ℕ → List A → List A
  take zero xs = []
  take (suc n) [] = []
  take (suc n) (x ∷ xs) = x ∷ take n xs

  abbrev pub drop : ℕ → List A → List A
  drop zero xs = xs
  drop (suc n) [] = []
  drop (suc n) (x ∷ xs) = drop n xs

  abbrev pub replicate : ℕ → A → List A
  replicate zero a = []
  replicate (suc n) a = a ∷ replicate n a

  abbrev pub All {κ} : (A → Type κ) → List A → Type κ
  All P [] = Unit {κ}
  All P (x ∷ xs) = P x × All P xs

  pub length-append : (xs ys : List A) → length (xs ++ ys) ≡ length xs + length ys
  length-append [] ys = omega arith
  length-append (x ∷ xs) ys = omega (arith, length-append xs ys)

-- JavaScript's `<` and `===` on strings: code unit by code unit, a proper prefix first.
abbrev pub str_lt : Bytes → Bytes → Bool
str_lt [] [] = false
str_lt [] (y ∷ ys) = true
str_lt (x ∷ xs) [] = false
str_lt (x ∷ xs) (y ∷ ys) = if ltb x y then true else if x == y then str_lt xs ys else false

abbrev pub str_eq : Bytes → Bytes → Bool
str_eq [] [] = true
str_eq [] (y ∷ ys) = false
str_eq (x ∷ xs) [] = false
str_eq (x ∷ xs) (y ∷ ys) = (x == y) && str_eq xs ys

pub str_eq→eq : (xs ys : Bytes) → str_eq xs ys ≡ true → xs ≡ ys
str_eq→eq [] [] h = refl
str_eq→eq [] (y ∷ ys) h = ground arith
str_eq→eq (x ∷ xs) [] h = ground arith
str_eq→eq (x ∷ xs) (y ∷ ys) h = ground (arith, str_eq→eq xs ys)

pub str_eq_refl : (xs : Bytes) → str_eq xs xs ≡ true
str_eq_refl [] = refl
str_eq_refl (x ∷ xs) = ground (arith, str_eq_refl xs)

-- Strings of which neither comes first are equal.
pub str_lt_connected : (xs ys : Bytes) → str_lt xs ys ≡ false → str_lt ys xs ≡ false → xs ≡ ys
str_lt_connected [] [] p q = refl
str_lt_connected [] (y ∷ ys) p q = ground arith
str_lt_connected (x ∷ xs) [] p q = ground arith
str_lt_connected (x ∷ xs) (y ∷ ys) p q = ground (arith, str_lt_connected xs ys)

pub get_or_outside {ℓ} :
    {A : Type ℓ} (xs : List A) (i : ℕ) (d : A) → length xs ≤ i → get_or xs i d ≡ d
get_or_outside [] i d h = refl
get_or_outside (x ∷ xs) zero d h = elim h [ ]
get_or_outside (x ∷ xs) (suc i) d h = get_or_outside xs i d (omega arith)

module _ {ℓ} {A : Type ℓ} where
  pub length-set : (xs : List A) (i : ℕ) (v : A) → length (set xs i v) ≡ length xs
  length-set [] i v = refl
  length-set (x ∷ xs) zero v = refl
  length-set (x ∷ xs) (suc i) v = omega (arith, length-set xs i v)

  pub All-set : (P : A → Type 0) (xs : List A) (i : ℕ) (v : A) → P v → All P xs → All P (set xs i v)
  All-set P [] i v p h = h
  All-set P (x ∷ xs) zero v p h = (p, h.1)
  All-set P (x ∷ xs) (suc i) v p h = (h.0, All-set P xs i v p h.1)

  pub length-drop : (n : ℕ) (xs : List A) → length (drop n xs) ≡ length xs - n
  length-drop zero xs = omega arith
  length-drop (suc n) [] = omega arith
  length-drop (suc n) (x ∷ xs) = omega (arith, length-drop n xs)

  pub All-drop : (P : A → Type 0) (n : ℕ) (xs : List A) → All P xs → All P (drop n xs)
  All-drop P zero xs h = h
  All-drop P (suc n) [] h = tt
  All-drop P (suc n) (x ∷ xs) h = All-drop P n xs h.1

  pub All-append_lists : (P : A → Type 0) (xs ys : List A) → All P xs → All P ys → All P (xs ++ ys)
  All-append_lists P [] ys h k = k
  All-append_lists P (x ∷ xs) ys h k = (h.0, All-append_lists P xs ys h.1 k)

  pub All-get_or :
      (P : A → Type 0) (xs : List A) (i : ℕ) (d : A) → P d → All P xs → P (get_or xs i d)
  All-get_or P [] i d p h = p
  All-get_or P (x ∷ xs) zero d p h = h.0
  All-get_or P (x ∷ xs) (suc i) d p h = All-get_or P xs i d p h.1

-- What holds of every index, by what the element is, after a change or an addition at the end.
module _ {ℓ} {A : Type ℓ} where
  pub get_or-set :
      (P : ℕ → A → Type 0) (xs : List A) (i : ℕ) (v d : A)
      → P i v
      → ((a : ℕ) → P a (get_or xs a d))
      → (a : ℕ) → P a (get_or (set xs i v) a d)
  get_or-set P [] i v d h k a = k a
  get_or-set P (x ∷ xs) zero v d h k zero = h
  get_or-set P (x ∷ xs) zero v d h k (suc a) = k (suc a)
  get_or-set P (x ∷ xs) (suc i) v d h k zero = k zero
  get_or-set P (x ∷ xs) (suc i) v d h k (suc a) =
      get_or-set (λ j. P (suc j)) xs i v d h (λ j. k (suc j)) a

  pub get_or-append :
      (P : ℕ → A → Type 0) (xs : List A) (v d : A)
      → P (length xs) v
      → ((a : ℕ) → P a (get_or xs a d))
      → (a : ℕ) → P a (get_or (xs ++ (v ∷ [])) a d)
  get_or-append P [] v d h k zero = h
  get_or-append P [] v d h k (suc a) = k (suc a)
  get_or-append P (x ∷ xs) v d h k zero = k zero
  get_or-append P (x ∷ xs) v d h k (suc a) =
      get_or-append (λ j. P (suc j)) xs v d h (λ j. k (suc j)) a
