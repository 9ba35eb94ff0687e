-- ===== src/Prisma.antt =====
-- packages/prisma/src/index.ts: the Prisma extension that fills missing keys. Rows are objects that
-- the caller and the extension share, so they live in a heap and a batch lists references to them.
pub mod Rows
pub mod Assigned
pub mod Filled
pub mod Handlers
pub mod Native
use rivid.Common.{
  ℕ, suc, ◌≡◌, Bool, true, false, ◌||◌, not, Option, none, some, List, [], ◌∷◌, Bytes, codes,
  length, get_or, set, ◌==◌, str_eq, if◌then◌else◌,
}
use rivid.Js.{Outcome, returns, throws, ◌>>=◌}
use rivid.Binding.Source.{Source}

-- A value of type `unknown`, as far as it matters here.
pub data Value : Type 0 where
  undefined null : Value
  text : Bytes → Value
  other : ℕ → Value

-- A `Record<string, unknown>`: its properties in their order.
abbrev pub Row : Type 0
Row = List (Bytes × Value)

-- The value under `field`; `undefined` if there is no such property.
abbrev pub get_field : Row → Bytes → Value
get_field [] field = undefined
get_field ((name, v) ∷ row) field = if str_eq name field then v else get_field row field

abbrev pub set_field : Row → Bytes → Value → Row
set_field [] field v = (field, v) ∷ []
set_field ((name, u) ∷ row) field v =
    if str_eq name field then (name, v) ∷ row else (name, u) ∷ set_field row field v

abbrev pub Heap : Type 0
Heap = List Row

abbrev pub row_at : Heap → ℕ → Row
row_at heap r = get_or heap r []

-- `row[field] = v`
unfoldable pub assign_field : Heap → ℕ → Bytes → Value → Heap
assign_field heap r field v = set heap r (set_field (row_at heap r) field v)

abbrev pub is_missing : Value → Bool
is_missing undefined = true
is_missing null = true
is_missing (text t) = false
is_missing (other n) = false

abbrev pub lacks : Heap → Bytes → ℕ → Bool
lacks heap field r = is_missing (get_field (row_at heap r) field)

-- `rows.filter(...)`
unfoldable pub missing_rows : Heap → Bytes → List ℕ → List ℕ
missing_rows heap field [] = []
missing_rows heap field (r ∷ rows) =
    if lacks heap field r then r ∷ missing_rows heap field rows else missing_rows heap field rows

-- `missing.forEach((row, i) => { row[field] = ids[i] })`
unfoldable pub assign_ids : Heap → Bytes → List ℕ → List Bytes → Heap
assign_ids heap field [] ids = heap
assign_ids heap field (r ∷ rows) [] = assign_ids (assign_field heap r field undefined) field rows []
assign_ids heap field (r ∷ rows) (id ∷ ids) =
    assign_ids (assign_field heap r field (text id)) field rows ids

pub data Mode : Type 0 where
  ulid uuid7 : Mode

pub record RidOptions : Type 0 where
  pub models : Option (List Bytes)
  pub field : Option Bytes
  pub mode : Option Mode

abbrev includes : List Bytes → Bytes → Bool
includes [] model = false
includes (m ∷ models) model = str_eq m model || includes models model

unfoldable pub should_fill : Bytes → List Bytes → Bool
should_fill model models = (length models == 0) || includes models model

-- `options.models ?? []` and so on.
abbrev pub or_default {ℓ} : {A : Type ℓ} → Option A → A → A
or_default none d = d
or_default (some a) d = a

module _ (source : Source) where
  open source use {State}

  abbrev pub generate_one : Mode → State → Outcome (Bytes × State)
  generate_one ulid s = source.ulid s
  generate_one uuid7 s = source.uuidv7 s

  abbrev pub generate_batch : Mode → ℕ → State → Outcome (List Bytes × State)
  generate_batch ulid n s = source.generate_many n s
  generate_batch uuid7 n s = source.generate_uuidv7_many n s

  fill_missing : Heap → List ℕ → Bytes → Mode → State → Outcome (ℕ × (Heap × State))
  fill_missing heap [] field mode s = returns (0, (heap, s))
  fill_missing heap (r ∷ []) field mode s = do
    made ← generate_one mode s
    returns (1, (assign_field heap r field (text made.0), made.1))
  fill_missing heap (r ∷ q ∷ rows) field mode s = do
    made ← generate_batch mode (length (r ∷ q ∷ rows)) s
    returns (length (r ∷ q ∷ rows), (assign_ids heap field (r ∷ q ∷ rows) made.0, made.1))

  -- The count, and the heap and the generators' state that the call leaves. Identifiers are
  -- generated before the first row is written, so a call that throws leaves the heap as it was.
  unfoldable pub fill_ids : Heap → List ℕ → Bytes → Mode → State → Outcome (ℕ × (Heap × State))
  unfolding fill_missing
  fill_ids heap rows field mode s = fill_missing heap (missing_rows heap field rows) field mode s

  -- The handlers of the extension, up to `query(args)`, which is Prisma's: `query` says what it
  -- makes of the rows as they are when it is called.
  module _ {ℓ} {R : Type ℓ} (options : RidOptions) (model : Bytes)
      (query : Heap → State → Outcome R) where
    unfoldable pub create_many : Heap → List ℕ → State → Outcome R
    create_many heap data_rows s =
        if should_fill model (or_default options.models [])
        then (do
          filled ←
              fill_ids heap data_rows (or_default options.field (codes "id"))
                (or_default options.mode ulid) s
          query filled.1.0 filled.1.1)
        else query heap s

    unfoldable pub create : Heap → ℕ → State → Outcome R
    create heap data_row s = create_many heap (data_row ∷ []) s

    unfoldable pub create_many_and_return : Heap → List ℕ → State → Outcome R
    create_many_and_return heap data_rows s = create_many heap data_rows s
