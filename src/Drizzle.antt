-- ===== src/Drizzle.antt =====
-- packages/drizzle/src/index.ts: the column helpers. A column of Drizzle's `customType` is its name,
-- its type in the database and the default function, if it was given one.
use rivid.Common.{Bool, Option, none, some, Bytes, codes, if◌then◌else◌}
use rivid.Js.{Outcome}
use rivid.Binding.Source.{Source}

-- The options, each `false` if it is not given.
pub record RidColumnOptions : Type 0 where
  pub default_random : Bool
  pub monotonic : Bool

module _ (source : Source) where
  open source use {State}

  pub record ColumnBuilder : Type 0 where
    pub name : Bytes
    pub data_type : Bytes
    pub default_fn : Option (State → Outcome (Bytes × State))

  unfoldable pub next_ulid : RidColumnOptions → State → Outcome (Bytes × State)
  next_ulid opts s = if opts.monotonic then source.monotonic_ulid s else source.ulid s

  unfoldable pub ulid_column : Bytes → RidColumnOptions → ColumnBuilder
  ulid_column name opts = record {
    name = name;
    data_type = codes "char(26)";
    default_fn = if opts.default_random then some (next_ulid opts) else none;
  }

  unfoldable pub uuidv7_column : Bytes → RidColumnOptions → ColumnBuilder
  uuidv7_column name opts = record {
    name = name;
    data_type = codes "char(36)";
    default_fn = if opts.default_random then some source.uuidv7 else none;
  }
