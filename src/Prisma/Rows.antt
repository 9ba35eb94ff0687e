-- ===== src/Prisma/Rows.antt =====
-- Reading a row's properties after one was assigned.
use rivid.Common.{
  ℕ, zero, suc, ◌<◌, ◌≡◌, ap, inl, inr, false, ◌&&◌, [], ◌∷◌, Bytes, length, get_or, length-set,
  set, ltb, ◌==◌, str_eq, str_eq_refl, str_eq→eq, if◌then◌else◌, Bool-cases, ==_iff, arith,
}
use rivid.Prisma.{Value, Row, Heap, get_field, set_field, row_at, assign_field, is_missing, lacks}

get_field-set_field :
    (row : Row) (field : Bytes) (v : Value) → get_field (set_field row field v) field ≡ v
get_field-set_field [] field v = rw (str_eq_refl field)
get_field-set_field ((name, u) ∷ row) field v = elim (Bool-cases (str_eq name field)) [
  | inl e ↦ ground (arith, e)
  | inr e ↦ ground (arith, e, get_field-set_field row field v)
]

get_field-set_field_other :
    (row : Row) (field name : Bytes) (v : Value)
    → str_eq field name ≡ false
    → get_field (set_field row field v) name ≡ get_field row name
get_field-set_field_other [] field name v h = rw h
get_field-set_field_other ((other_name, u) ∷ row) field name v h =
    elim (Bool-cases (str_eq other_name field)) [
      | inl e ↦ ground (arith, ap (λ t. str_eq t name) (str_eq→eq other_name field e))
      | inr e ↦ ground (arith, get_field-set_field_other row field name v h)
    ]

get_or-set :
    (heap : Heap) (r q : ℕ) (row : Row)
    → get_or (set heap r row) q []
      ≡ (if (q == r) && ltb r (length heap) then row else get_or heap q [])
get_or-set [] r q row = ground arith
get_or-set (first ∷ heap) zero zero row = ground arith
get_or-set (first ∷ heap) zero (suc q) row = ground arith
get_or-set (first ∷ heap) (suc r) zero row = ground arith
get_or-set (first ∷ heap) (suc r) (suc q) row = ground (arith, get_or-set heap r q row)

module _ (heap : Heap) (r : ℕ) (field : Bytes) (v : Value) where
  pub length-assign_field : length (assign_field heap r field v) ≡ length heap
  unfolding assign_field
  length-assign_field = length-set heap r (set_field (row_at heap r) field v)

  row_at-assign_field :
      (q : ℕ)
      → row_at (assign_field heap r field v) q ≡ (
          if (q == r) && ltb r (length heap)
          then set_field (row_at heap r) field v
          else row_at heap q)
  unfolding assign_field
  row_at-assign_field q = get_or-set heap r q (set_field (row_at heap r) field v)

  pub assigned : r < length heap → get_field (row_at (assign_field heap r field v) r) field ≡ v
  assigned h =
      rw (row_at-assign_field r) (ground (arith, get_field-set_field (row_at heap r) field v))

  pub other_row :
      (q : ℕ) → (q == r) ≡ false → row_at (assign_field heap r field v) q ≡ row_at heap q
  other_row q h = rw (row_at-assign_field q, h)

  pub other_field :
      (q : ℕ) (name : Bytes)
      → str_eq field name ≡ false
      → get_field (row_at (assign_field heap r field v) q) name ≡ get_field (row_at heap q) name
  other_field q name h = rw (row_at-assign_field q) (elim (Bool-cases (q == r)) [
    | inl e ↦ ground (
      arith,
      e,
      get_field-set_field_other (row_at heap r) field name v h,
      ap (λ t. get_field (row_at heap t) name) ((==_iff q r).0 e),
    )
    | inr e ↦ rw e
  ])

  -- A property that was there is still there if the assigned value is not missing.
  pub lacks-assign_field :
      (q : ℕ)
      → is_missing v ≡ false
      → lacks heap field q ≡ false
      → lacks (assign_field heap r field v) field q ≡ false
  lacks-assign_field q h k =
      rw (row_at-assign_field q) (elim (Bool-cases ((q == r) && ltb r (length heap))) [
        | inl e ↦ rw (e, get_field-set_field (row_at heap r) field v) h
        | inr e ↦ rw e k
      ])
