-- ===== src/Js/Sort/Laws.antt =====
-- A sort by a comparator that answers by a key is the stable ascending rearrangement.
use rivid.Common.{
  ℕ, ◌≤◌, ◌<◌, ◌≡◌, refl, ap, sym, ◌∙◌, inl, inr, List, [], ◌∷◌, ◌++◌, All, map, ltb, ◌==◌,
  if◌then◌else◌, Bool-cases, ltb→lt, arith,
}
use rivid.Js.{ℤ, Outcome, returns}
use rivid.Js.Sort.{insert, sort_into, sort_by, order_of, Ascending, with_key, IsSortOf}
use mathlib.Core.List.{append-nil, append_assoc}

module _ {ℓ} {A : Type ℓ} (key : A → ℕ) where
  put : A → List A → List A
  put x [] = x ∷ []
  put x (y ∷ ys) = if ltb (key x) (key y) then x ∷ y ∷ ys else y ∷ put x ys

  put_all : List A → List A → List A
  put_all [] out = out
  put_all (x ∷ xs) out = put_all xs (put x out)

  put_before : (x y : A) (ys : List A) → key x < key y → put x (y ∷ ys) ≡ x ∷ y ∷ ys
  unfolding put
  put_before x y ys h = ground arith

  put_behind : (x y : A) (ys : List A) → key y ≤ key x → put x (y ∷ ys) ≡ y ∷ put x ys
  unfolding put
  put_behind x y ys h = ground arith

  All-put : (P : A → Type 0) (x : A) (ys : List A) → P x → All P ys → All P (put x ys)
  All-put P x [] p h = unfold put in (p, tt)
  All-put P x (y ∷ ys) p h = elim (Bool-cases (ltb (key x) (key y))) [
    | inl e ↦ rw (put_before x y ys (ltb→lt _ _ e)) (p, h)
    | inr e ↦ rw (put_behind x y ys (ground arith)) (h.0, All-put P x ys p h.1)
  ]

  All-weaken : (a b : ℕ) (ys : List A) → a ≤ b → All (λ y. b ≤ key y) ys → All (λ y. a ≤ key y) ys
  All-weaken a b [] h p = tt
  All-weaken a b (y ∷ ys) h p = (omega (arith, p.0), All-weaken a b ys h p.1)

  put-Ascending : (x : A) (ys : List A) → Ascending key ys → Ascending key (put x ys)
  put-Ascending x [] h = unfold put in (tt, tt)
  put-Ascending x (y ∷ ys) h = elim (Bool-cases (ltb (key x) (key y))) [
    | inl e ↦
        let lt = ltb→lt (key x) (key y) e in
        rw (put_before x y ys lt) ((omega arith, All-weaken _ _ ys (omega arith) h.0), h)
    | inr e ↦
        let le : key y ≤ key x = ground arith in
        rw (put_behind x y ys le) (All-put (λ z. key y ≤ key z) x ys le h.0, put-Ascending x ys h.1)
  ]

  with_key-append :
      (k : ℕ) (xs ys : List A) → with_key key k (xs ++ ys) ≡ with_key key k xs ++ with_key key k ys
  with_key-append k [] ys = refl
  with_key-append k (x ∷ xs) ys = ground (arith, with_key-append k xs ys)

  -- No element above `k` has the key `k`.
  with_key_above :
      (k b : ℕ) (ys : List A) → k < b → All (λ y. b ≤ key y) ys → with_key key k ys ≡ []
  with_key_above k b [] h p = refl
  with_key_above k b (y ∷ ys) h p = ground (arith, with_key_above k b ys h p.1)

  with_key-put :
      (k : ℕ) (x : A) (ys : List A)
      → Ascending key ys
      → with_key key k (put x ys) ≡ with_key key k ys ++ with_key key k (x ∷ [])
  with_key-put k x [] h = unfold put in refl
  with_key-put k x (y ∷ ys) h = elim (Bool-cases (ltb (key x) (key y))) [
    | inl e ↦
        let lt = ltb→lt (key x) (key y) e in
        rw (put_before x y ys lt) (elim (Bool-cases (key x == k)) [
          | inl same ↦ ground (arith, with_key_above k (key y) ys, h.0)
          | inr other ↦ ground (arith, append-nil (with_key key k (y ∷ ys)))
        ])
    | inr e ↦ rw (put_behind x y ys (ground arith)) (ground (arith, with_key-put k x ys h.1))
  ]

  put_all-Ascending : (xs out : List A) → Ascending key out → Ascending key (put_all xs out)
  unfolding put_all
  put_all-Ascending [] out h = h
  put_all-Ascending (x ∷ xs) out h = put_all-Ascending xs (put x out) (put-Ascending x out h)

  with_key-put_all :
      (k : ℕ) (xs out : List A)
      → Ascending key out
      → with_key key k (put_all xs out) ≡ with_key key k out ++ with_key key k xs
  unfolding put_all
  with_key-put_all k [] out h = sym (append-nil _)
  with_key-put_all k (x ∷ xs) out h =
      with_key-put_all k xs (put x out) (put-Ascending x out h)
      ∙ ap (λ t. t ++ with_key key k xs) (with_key-put k x out h)
      ∙ append_assoc (with_key key k out) (with_key key k (x ∷ [])) (with_key key k xs)
      ∙ ap (λ t. with_key key k out ++ t) (sym (with_key-append k (x ∷ []) xs))

  put_all-IsSortOf : (xs : List A) → IsSortOf key xs (put_all xs [])
  put_all-IsSortOf xs = record {
    ascending = put_all-Ascending xs [] tt;
    stable = λ k. with_key-put_all k xs [] tt;
  }

  -- The comparator answers by the key on all elements that have the property `P`.
  module _ (cmp : A → A → Outcome ℤ) (P : A → Type 0)
      (by_key : (x y : A) → P x → P y → cmp x y ≡ returns (order_of (key x) (key y))) where
    insert-put : (x : A) (ys : List A) → P x → All P ys → insert cmp x ys ≡ returns (put x ys)
    unfolding insert put
    insert-put x [] p h = refl
    insert-put x (y ∷ ys) p h = rw (by_key y x h.0 p) (ground (arith, insert-put x ys p h.1))

    sort_into-put_all :
        (xs out : List A) → All P xs → All P out → sort_into cmp xs out ≡ returns (put_all xs out)
    unfolding sort_into put_all
    sort_into-put_all [] out h k = refl
    sort_into-put_all (x ∷ xs) out h k =
        rw (insert-put x out h.0 k) (sort_into-put_all xs (put x out) h.1 (All-put P x out h.0 k))

    pub sort_by-IsSortOf :
        (xs : List A)
        → All P xs
        → (ys : List A) × (sort_by cmp xs ≡ returns ys) × IsSortOf key xs ys
    unfolding sort_by
    sort_by-IsSortOf xs h = (put_all xs [], sort_into-put_all xs [] h tt, put_all-IsSortOf xs)

-- A sort of values by what they carry is a sort of what they carry.
module _ {ℓ κ} {A : Type ℓ} {B : Type κ} (carried : A → B) (key : B → ℕ) where
  map-All :
      (n : ℕ) (xs : List A)
      → All (λ x. n ≤ key (carried x)) xs
      → All (λ y. n ≤ key y) (map carried xs)
  map-All n [] h = tt
  map-All n (x ∷ xs) h = (h.0, map-All n xs h.1)

  map-Ascending :
      (xs : List A) → Ascending (λ x. key (carried x)) xs → Ascending key (map carried xs)
  map-Ascending [] h = tt
  map-Ascending (x ∷ xs) h = (map-All (key (carried x)) xs h.0, map-Ascending xs h.1)

  with_key-map :
      (k : ℕ) (xs : List A)
      → with_key key k (map carried xs) ≡ map carried (with_key (λ x. key (carried x)) k xs)
  with_key-map k [] = refl
  with_key-map k (x ∷ xs) = ground (arith, with_key-map k xs)

  pub map-IsSortOf :
      (xs ys : List A)
      → IsSortOf (λ x. key (carried x)) xs ys
      → IsSortOf key (map carried xs) (map carried ys)
  map-IsSortOf xs ys h = record {
    ascending = map-Ascending ys h.ascending;
    stable = λ k. with_key-map k ys ∙ ap (map carried) (h.stable k) ∙ sym (with_key-map k xs);
  }
