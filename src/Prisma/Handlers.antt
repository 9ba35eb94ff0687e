-- ===== src/Prisma/Handlers.antt =====
-- The handlers of the Prisma extension: what the query they pass on sees.
use rivid.Common.{ℕ, ◌≤◌, ◌≡◌, true, false, List, [], Bytes, codes, length, All}
use rivid.Js.{Outcome}
use rivid.Binding.Source.{Source, max_batch, last_time}
use rivid.Prisma.{
  Heap, lacks, missing_rows, RidOptions, ulid, or_default, should_fill, create, create_many,
  create_many_and_return,
}
use rivid.Prisma.Assigned.{IsRowOf}
use rivid.Prisma.Filled.{fill_ids-fills}

abbrev pub key_of : RidOptions → Bytes
key_of options = or_default options.field (codes "id")

-- For a model that the options select, `createMany` and `createManyAndReturn` pass the query on with
-- every row of the batch holding its key, if the rows exist, at most 100000000 of them lack the key,
-- and the time is one that a ULID can hold.
pub create_many-filled {ℓ} :
    (source : Source) {R : Type ℓ} (options : RidOptions) (model : Bytes)
    (query : Heap → source.State → Outcome R) (heap : Heap) (rows : List ℕ) (s : source.State)
    → should_fill model (or_default options.models []) ≡ true
    → source.clock s ≤ last_time
    → IsRowOf heap rows
    → length (missing_rows heap (key_of options) rows) ≤ max_batch
    → (after : Heap) × (t : source.State) × (create_many source options model query heap rows s
        ≡ query after t)
      × (create_many_and_return source options model query heap rows s ≡ query after t)
      × All (λ r. lacks after (key_of options) r ≡ false) rows
unfolding create_many create_many_and_return
create_many-filled source options model query heap rows s chosen in_time exist few =
    let (after, t, made, filled) =
      fill_ids-fills source heap rows (key_of options) (or_default options.mode ulid) s in_time
        exist few in
    (after, t, rw (chosen, made), rw (chosen, made), filled)

-- For a model that the options leave out, every handler passes the query on with the rows untouched.
pub create-excluded {ℓ} :
    (source : Source) {R : Type ℓ} (options : RidOptions) (model : Bytes)
    (query : Heap → source.State → Outcome R) (heap : Heap) (row : ℕ) (rows : List ℕ)
    (s : source.State)
    → should_fill model (or_default options.models []) ≡ false
    → (create source options model query heap row s ≡ query heap s)
      × (create_many source options model query heap rows s ≡ query heap s)
      × (create_many_and_return source options model query heap rows s ≡ query heap s)
unfolding create create_many create_many_and_return
create-excluded source options model query heap row rows s left_out =
    (rw left_out, rw left_out, rw left_out)
