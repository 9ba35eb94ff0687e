-- ===== src/Cli/Extract/Sources.antt =====
-- The columns that are extracted from a file name the file.
use rivid.Common.{
  ◌≡◌, refl, Bool, true, false, Option, none, some, List, [], ◌∷◌, Bytes, codes, All,
  All-append_lists, if◌then◌else◌,
}
use rivid.Js.Regex.{Cursor, captured}
use rivid.Js.Text.{trim, join}
use rivid.Cli.Columns.{Column}
use rivid.Cli.Extract.Sql.{extract_sql}
use rivid.Cli.Extract.PrismaSchema.{
  extract_prisma, schema_fields, model_fields, line_fields, field_of, field_column, field_rep,
}
use rivid.Cli.Extract.DrizzleSchema.{
  extract_drizzle_ts, schema_tables, table_properties, property_column,
}
use rivid.Cli.Extract.Identifiers.{IsSqlColumn, extract_sql-IsSqlColumn}

module _ (file : Bytes) where
  abbrev pub IsOf : Column → Type 0
  IsOf c = c.file ≡ file

  IsSqlColumn-IsOf : (cols : List Column) → All (IsSqlColumn file) cols → All IsOf cols
  IsSqlColumn-IsOf [] h = tt
  IsSqlColumn-IsOf (c ∷ cols) h = (h.0.0, IsSqlColumn-IsOf cols h.1)

  pub extract_sql-IsOf : (text : Bytes) → All IsOf (extract_sql text file)
  extract_sql-IsOf text =
      IsSqlColumn-IsOf (extract_sql text file) (extract_sql-IsSqlColumn file text)

  pub if-IsOf :
      (b : Bool) (cols others : List Column)
      → All IsOf cols
      → All IsOf others
      → All IsOf (if b then cols else others)
  if-IsOf true cols others h k = h
  if-IsOf false cols others h k = k

  when-IsOf : (b : Bool) (c : Column) → IsOf c → All IsOf (if b then c ∷ [] else [])
  when-IsOf b c h = if-IsOf b (c ∷ []) [] (h, tt) tt

  field_column-IsOf :
      (table name attrs : Bytes) (o : Option _) → All IsOf (field_column table file name attrs o)
  field_column-IsOf table name attrs none = tt
  field_column-IsOf table name attrs (some (rep, width)) = (refl, tt)

  field_of-IsOf : (table : Bytes) (words : List Bytes) → All IsOf (field_of table file words)
  unfolding field_of
  field_of-IsOf table [] = tt
  field_of-IsOf table (name ∷ []) = tt
  field_of-IsOf table (name ∷ type ∷ attrs) = if-IsOf _ [] _ tt (
      field_column-IsOf table name (join (codes " ") attrs)
        (field_rep type (join (codes " ") attrs)))

  line_fields-IsOf : (table line : Bytes) → All IsOf (line_fields table file line)
  unfolding line_fields
  line_fields-IsOf table line = if-IsOf _ [] _ tt (field_of-IsOf table _)

  model_fields-IsOf :
      (table : Bytes) (lines : List Bytes) → All IsOf (model_fields table file lines)
  unfolding model_fields
  model_fields-IsOf table [] = tt
  model_fields-IsOf table (line ∷ lines) =
      All-append_lists IsOf (line_fields table file line) (model_fields table file lines)
        (line_fields-IsOf table line) (model_fields-IsOf table lines)

  schema_fields-IsOf : (ms : List Cursor) → All IsOf (schema_fields file ms)
  unfolding schema_fields
  schema_fields-IsOf [] = tt
  schema_fields-IsOf (m ∷ ms) =
      All-append_lists IsOf (model_fields (captured 1 m) file _) (schema_fields file ms)
        (model_fields-IsOf (captured 1 m) _) (schema_fields-IsOf ms)

  pub extract_prisma-IsOf : (text : Bytes) → All IsOf (extract_prisma text file)
  unfolding extract_prisma
  extract_prisma-IsOf text = schema_fields-IsOf _

  property_column-IsOf :
      (table line : Bytes) (o : Option Cursor) → All IsOf (property_column table file line o)
  unfolding property_column
  property_column-IsOf table line none = tt
  property_column-IsOf table line (some col) = when-IsOf _ _ refl

  table_properties-IsOf :
      (table : Bytes) (lines : List Bytes) → All IsOf (table_properties table file lines)
  unfolding table_properties
  table_properties-IsOf table [] = tt
  table_properties-IsOf table (line ∷ lines) =
      All-append_lists IsOf (property_column table file (trim line) _)
        (table_properties table file lines) (property_column-IsOf table (trim line) _)
        (table_properties-IsOf table lines)

  schema_tables-IsOf : (ms : List Cursor) → All IsOf (schema_tables file ms)
  unfolding schema_tables
  schema_tables-IsOf [] = tt
  schema_tables-IsOf (m ∷ ms) =
      All-append_lists IsOf (table_properties (captured 2 m) file _) (schema_tables file ms)
        (table_properties-IsOf (captured 2 m) _) (schema_tables-IsOf ms)

  pub extract_drizzle_ts-IsOf : (text : Bytes) → All IsOf (extract_drizzle_ts text file)
  unfolding extract_drizzle_ts
  extract_drizzle_ts-IsOf text = schema_tables-IsOf _
