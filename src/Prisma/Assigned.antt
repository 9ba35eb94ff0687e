-- ===== src/Prisma/Assigned.antt =====
-- What writing identifiers into rows leaves in them.
use rivid.Common.{
  ℕ, ◌<◌, ◌≡◌, refl, ap, ◌∙◌, subst, inl, inr, false, List, [], ◌∷◌, Bytes, length, All, map, ◌==◌,
  ==_iff, str_eq, if◌then◌else◌, Bool-cases, arith,
}
use rivid.Prisma.{
  Value, undefined, text, Heap, get_field, row_at, assign_field, is_missing, lacks, missing_rows,
  assign_ids,
}
use rivid.Prisma.Rows.{length-assign_field, assigned, other_row, other_field, lacks-assign_field}

abbrev pub IsRowOf : Heap → List ℕ → Type 0
IsRowOf heap rows = All (λ r. r < length heap) rows

-- `q` is none of the rows.
abbrev pub IsNoneOf : ℕ → List ℕ → Type 0
IsNoneOf q rows = All (λ r. (q == r) ≡ false) rows

-- No row is listed twice.
abbrev pub AreDistinct : List ℕ → Type 0
AreDistinct [] = Unit
AreDistinct (r ∷ rows) = IsNoneOf r rows × AreDistinct rows

module _ (field : Bytes) where
  pub All-missing_rows :
      (P : ℕ → Type 0) (heap : Heap) (rows : List ℕ)
      → All P rows
      → All P (missing_rows heap field rows)
  unfolding missing_rows
  All-missing_rows P heap [] h = tt
  All-missing_rows P heap (r ∷ rows) h = elim (Bool-cases (lacks heap field r)) [
    | inl e ↦ rw e (h.0, All-missing_rows P heap rows h.1)
    | inr e ↦ rw e (All-missing_rows P heap rows h.1)
  ]

  pub missing_rows-AreDistinct :
      (heap : Heap) (rows : List ℕ) → AreDistinct rows → AreDistinct (missing_rows heap field rows)
  unfolding missing_rows
  missing_rows-AreDistinct heap [] h = tt
  missing_rows-AreDistinct heap (r ∷ rows) h = elim (Bool-cases (lacks heap field r)) [
    | inl e ↦ rw e (All-missing_rows _ heap rows h.0, missing_rows-AreDistinct heap rows h.1)
    | inr e ↦ rw e (missing_rows-AreDistinct heap rows h.1)
  ]

  -- A row that has its key is none of the missing ones.
  pub missing_rows-IsNoneOf :
      (heap : Heap) (rows : List ℕ) (q : ℕ)
      → lacks heap field q ≡ false
      → IsNoneOf q (missing_rows heap field rows)
  unfolding missing_rows
  missing_rows-IsNoneOf heap [] q h = tt
  missing_rows-IsNoneOf heap (r ∷ rows) q h = elim (Bool-cases (lacks heap field r)) [
    | inr e ↦ rw e (missing_rows-IsNoneOf heap rows q h)
    | inl e ↦ rw e (
      elim (Bool-cases (q == r)) [
        | inr k ↦ k
        | inl k ↦ absurd (ground (arith, e, h, ap (lacks heap field) ((==_iff q r).0 k)))
      ],
      missing_rows-IsNoneOf heap rows q h,
    )
  ]

  pub assign_ids-none :
      (heap : Heap) (rows : List ℕ) (ids : List Bytes) (q : ℕ)
      → IsNoneOf q rows
      → row_at (assign_ids heap field rows ids) q ≡ row_at heap q
  unfolding assign_ids
  assign_ids-none heap [] ids q h = refl
  assign_ids-none heap (r ∷ rows) [] q h =
      assign_ids-none (assign_field heap r field undefined) rows [] q h.1
      ∙ other_row heap r field _ q h.0
  assign_ids-none heap (r ∷ rows) (id ∷ ids) q h =
      assign_ids-none (assign_field heap r field (text id)) rows ids q h.1
      ∙ other_row heap r field _ q h.0

  pub assign_ids-other_field :
      (heap : Heap) (rows : List ℕ) (ids : List Bytes) (q : ℕ) (name : Bytes)
      → str_eq field name ≡ false
      → get_field (row_at (assign_ids heap field rows ids) q) name ≡ get_field (row_at heap q) name
  unfolding assign_ids
  assign_ids-other_field heap [] ids q name h = refl
  assign_ids-other_field heap (r ∷ rows) [] q name h =
      assign_ids-other_field (assign_field heap r field undefined) rows [] q name h
      ∙ other_field heap r field _ q name h
  assign_ids-other_field heap (r ∷ rows) (id ∷ ids) q name h =
      assign_ids-other_field (assign_field heap r field (text id)) rows ids q name h
      ∙ other_field heap r field _ q name h

  -- With an identifier for each row, a key that is there stays there.
  pub assign_ids-keeps :
      (heap : Heap) (rows : List ℕ) (ids : List Bytes) (q : ℕ)
      → length ids ≡ length rows
      → lacks heap field q ≡ false
      → lacks (assign_ids heap field rows ids) field q ≡ false
  unfolding assign_ids
  assign_ids-keeps heap [] ids q n h = h
  assign_ids-keeps heap (r ∷ rows) [] q n h = absurd (omega arith)
  assign_ids-keeps heap (r ∷ rows) (id ∷ ids) q n h =
      assign_ids-keeps (assign_field heap r field (text id)) rows ids q (omega arith)
        (lacks-assign_field heap r field (text id) q refl h)

  pub IsRowOf-assign_field :
      (heap : Heap) (r : ℕ) (v : Value) (rows : List ℕ)
      → IsRowOf heap rows
      → IsRowOf (assign_field heap r field v) rows
  IsRowOf-assign_field heap r v rows h = rw (length-assign_field heap r field v) h

  pub lacks-assigned :
      (heap : Heap) (r : ℕ) (id : Bytes)
      → r < length heap
      → lacks (assign_field heap r field (text id)) field r ≡ false
  lacks-assigned heap r id h = ap is_missing (assigned heap r field (text id) h)

  -- Every row that was missing its key has one, the others as before, so all have.
  pub assign_ids-fills :
      (heap : Heap) (rows : List ℕ) (ids : List Bytes)
      → length ids ≡ length rows
      → IsRowOf heap rows
      → All (λ r. lacks (assign_ids heap field rows ids) field r ≡ false) rows
  unfolding assign_ids
  assign_ids-fills heap [] ids n h = tt
  assign_ids-fills heap (r ∷ rows) [] n h = absurd (omega arith)
  assign_ids-fills heap (r ∷ rows) (id ∷ ids) n h = (
    assign_ids-keeps (assign_field heap r field (text id)) rows ids r (omega arith)
        (lacks-assigned heap r id h.0),
    assign_ids-fills (assign_field heap r field (text id)) rows ids (omega arith)
        (IsRowOf-assign_field heap r (text id) rows h.1),
  )

  -- Distinct rows hold the identifiers in their order.
  pub assign_ids-in_order :
      (heap : Heap) (rows : List ℕ) (ids : List Bytes)
      → length ids ≡ length rows
      → IsRowOf heap rows
      → AreDistinct rows
      → map (λ r. get_field (row_at (assign_ids heap field rows ids) r) field) rows ≡ map text ids
  unfolding assign_ids
  assign_ids-in_order heap [] [] n h d = refl
  assign_ids-in_order heap [] (id ∷ ids) n h d = absurd (omega arith)
  assign_ids-in_order heap (r ∷ rows) [] n h d = absurd (omega arith)
  assign_ids-in_order heap (r ∷ rows) (id ∷ ids) n h d =
      let after = assign_field heap r field (text id) in
      rw (assign_ids-none after rows ids r d.0, assigned heap r field (text id) h.0)
        (ap (λ t. text id ∷ t)
          (assign_ids-in_order (assign_field heap r field (text id)) rows ids (omega arith)
            (IsRowOf-assign_field heap r (text id) rows h.1) d.1))

-- Rows are filled if the missing ones were and no other lost its key.
pub filled_rows :
    (field : Bytes) (heap after : Heap) (rows : List ℕ)
    → ((q : ℕ) → lacks heap field q ≡ false → lacks after field q ≡ false)
    → All (λ r. lacks after field r ≡ false) (missing_rows heap field rows)
    → All (λ r. lacks after field r ≡ false) rows
unfolding missing_rows
filled_rows field heap after [] kept h = tt
filled_rows field heap after (r ∷ rows) kept h = elim (Bool-cases (lacks heap field r)) [
  | inl e ↦
      let both =
        subst
          (λ b.
            All (λ q. lacks after field q ≡ false)
              (if b then r ∷ missing_rows heap field rows else missing_rows heap field rows))
          e h in
      (both.0, filled_rows field heap after rows kept both.1)
  | inr e ↦ (
    kept r e,
    filled_rows field heap after rows kept (
        subst
          (λ b.
            All (λ q. lacks after field q ≡ false)
              (if b then r ∷ missing_rows heap field rows else missing_rows heap field rows))
          e h),
  )
]
