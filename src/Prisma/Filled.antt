-- ===== src/Prisma/Filled.antt =====
-- What `fillIds` leaves in the rows.
use rivid.Common.{
  ℕ, zero, suc, ◌≤◌, ◌≡◌, refl, ap, sym, ◌∙◌, ◌⊎◌, inl, inr, false, List, [], ◌∷◌, Bytes, length,
  All, map, str_eq,
}
use rivid.Js.{Outcome, ◌>>=◌, returns}
use rivid.Binding.Source.{Source, max_batch, last_time}
use rivid.Prisma.{
  text, Heap, get_field, row_at, lacks, missing_rows, assign_ids, Mode, ulid, uuid7, fill_missing,
  fill_ids, generate_one, generate_batch,
}
use rivid.Prisma.Assigned.{
  IsRowOf, AreDistinct, All-missing_rows, missing_rows-AreDistinct, missing_rows-IsNoneOf,
  assign_ids-none, assign_ids-other_field, assign_ids-keeps, assign_ids-fills, assign_ids-in_order,
  filled_rows,
}

-- The identifiers that a batch with so many missing keys draws, and the state they leave.
abbrev pub drawn : (source : Source) → Mode → ℕ → source.State → Outcome (List Bytes × source.State)
drawn source mode zero s = returns ([], s)
drawn source mode (suc zero) s = do made ← generate_one source mode s; returns (made.0 ∷ [], made.1)
drawn source mode (suc (suc n)) s = generate_batch source mode (suc (suc n)) s

module _ (source : Source) (heap : Heap) (field : Bytes) (s : source.State)
    (in_time : source.clock s ≤ last_time) where
  generate_one-returns :
      (mode : Mode)
      → (id : Bytes) × (t : source.State) × (generate_one source mode s ≡ returns (id, t))
  generate_one-returns ulid = source.ulid-returns s in_time
  generate_one-returns uuid7 = source.uuidv7-returns s

  generate_batch-returns :
      (mode : Mode) (n : ℕ)
      → n ≤ max_batch
      → (ids : List Bytes) × (t : source.State) × (generate_batch source mode n s
          ≡ returns (ids, t))
        × (length ids ≡ n)
  generate_batch-returns ulid n h = source.generate_many-returns n s h
  generate_batch-returns uuid7 n h = source.generate_uuidv7_many-returns n s h

  abbrev Assigns : Mode → List ℕ → Type 0
  Assigns mode rows =
      (ids : List Bytes) × (t : source.State) × (fill_missing source heap rows field mode s
        ≡ returns (length rows, (assign_ids heap field rows ids, t)))
      × (length ids ≡ length rows)
      × (drawn source mode (length rows) s ≡ returns (ids, t))

  fill_missing-Assigns : (mode : Mode) (rows : List ℕ) → length rows ≤ max_batch → Assigns mode rows
  unfolding fill_missing assign_ids
  fill_missing-Assigns mode [] h = ([], s, refl, refl, refl)
  fill_missing-Assigns mode (r ∷ []) h =
      let (id, t, made) = generate_one-returns mode in (id ∷ [], t, rw made, refl, rw made)
  fill_missing-Assigns mode (r ∷ q ∷ rows) h =
      let (ids, t, made, n) = generate_batch-returns mode (length (r ∷ q ∷ rows)) h in
      (ids, t, rw made, n, made)

module _ (source : Source) (heap : Heap) (rows : List ℕ) (field : Bytes) (mode : Mode)
    (s : source.State) (in_time : source.clock s ≤ last_time) (exist : IsRowOf heap rows)
    (few : length (missing_rows heap field rows) ≤ max_batch) where
  -- `fillIds` on a batch of existing rows, of which at most 100000000 lack the key, at a time that a
  -- ULID can hold, succeeds, counts the rows that lacked it, and leaves every row of the batch with
  -- the key.
  pub fill_ids-fills :
      (after : Heap) × (t : source.State) × (fill_ids source heap rows field mode s
        ≡ returns (length (missing_rows heap field rows), (after, t)))
      × All (λ r. lacks after field r ≡ false) rows
  unfolding fill_ids
  fill_ids-fills =
      let missing = missing_rows heap field rows in
      let (ids, t, made, n, draws) =
        fill_missing-Assigns source heap field s in_time mode missing few in
      let after = assign_ids heap field missing ids in
      (
        after,
        t,
        made,
        filled_rows field heap after rows (λ q h. assign_ids-keeps field heap missing ids q n h)
            (assign_ids-fills field heap missing ids n (All-missing_rows field _ heap rows exist)),
      )

  -- For a batch of existing rows of which at most 100000000 lack the key, at a time that a ULID can
  -- hold, `fillIds` leaves every property of every object as it was that is not the key, and all of
  -- an object that had its key.
  pub fill_ids-keeps :
      (q : ℕ) (name : Bytes)
      → (lacks heap field q ≡ false) ⊎ (str_eq field name ≡ false)
      → (after : Heap) × (t : source.State) × (fill_ids source heap rows field mode s
          ≡ returns (length (missing_rows heap field rows), (after, t)))
        × (get_field (row_at after q) name ≡ get_field (row_at heap q) name)
  unfolding fill_ids
  fill_ids-keeps q name h =
      let missing = missing_rows heap field rows in
      let (ids, t, made, n, draws) =
        fill_missing-Assigns source heap field s in_time mode missing few in
      (
        assign_ids heap field missing ids,
        t,
        made,
        elim h [
          | inl has ↦
              ap (λ row. get_field row name)
                (assign_ids-none field heap missing ids q
                  (missing_rows-IsNoneOf field heap rows q has))
          | inr differ ↦ assign_ids-other_field field heap missing ids q name differ
        ],
      )

  -- For a batch of existing rows, none listed twice, of which at most 100000000 lack the key, at a
  -- time that a ULID can hold: `fillIds` draws as many identifiers as rows lack the key (one by the
  -- single call, more by the batch call), and those rows then hold them, one each and in order.
  pub fill_ids-in_order :
      AreDistinct rows
      → (ids : List Bytes) × (after : Heap) × (t : source.State) × (drawn source mode
            (length (missing_rows heap field rows))
            s
          ≡ returns (ids, t))
        × (fill_ids source heap rows field mode s ≡ returns (length ids, (after, t)))
        × (map (λ r. get_field (row_at after r) field) (missing_rows heap field rows)
            ≡ map text ids)
  unfolding fill_ids
  fill_ids-in_order distinct =
      let missing = missing_rows heap field rows in
      let (ids, t, made, n, draws) =
        fill_missing-Assigns source heap field s in_time mode missing few in
      (
        ids,
        assign_ids heap field missing ids,
        t,
        draws,
        made ∙ ap (λ k. returns (k, (assign_ids heap field missing ids, t))) (sym n),
        assign_ids-in_order field heap missing ids n (All-missing_rows field _ heap rows exist)
            (missing_rows-AreDistinct field heap rows distinct),
      )
