-- ===== src/Cli/Extract/Identifiers.antt =====
-- What holds of every column that is extracted.
use rivid.Common.{
  ℕ, ◌≡◌, refl, inl, inr, Bool, true, not, ◌&&◌, ◌||◌, Option, none, some, List, [], ◌∷◌, Bytes,
  codes, All, All-append_lists, str_eq, if◌then◌else◌, Bool-cases, arith,
}
use rivid.Js.Regex.{Cursor, test, captured, match_all}
use rivid.Js.Text.{trim, starts_with}
use rivid.Cli.Columns.{Column}
use rivid.Cli.Extract.{key_name}
use rivid.Cli.Extract.Sql.{
  SqlType, sql_types, find_type, typed_column, primary_key_re, column_of, column_match,
  line_columns, body_columns, table_columns, extract_sql, is_nil,
}

-- The representations of `SQL_TYPES`, with their widths in bytes.
abbrev pub known_width : Bytes → Option (Option ℕ)
known_width rep =
    if str_eq rep (codes "uuid") || str_eq rep (codes "bytea(16)")
    then some (some 16)
    else if str_eq rep (codes "char(36)") || str_eq rep (codes "varchar(36)")
    then some (some 36)
    else if str_eq rep (codes "char(26)") || str_eq rep (codes "varchar(26)")
    then some (some 26)
    else if str_eq rep (codes "text")
    then some none
    else if str_eq rep (codes "bigint")
    then some (some 8)
    else none

-- The column is a primary key or is named like a key.
abbrev pub is_identifier : Column → Bool
is_identifier c = c.pk || test key_name c.column

abbrev IsTyped : SqlType → Type 0
IsTyped t = known_width t.rep ≡ some t.width

find_type-IsTyped :
    (types : List SqlType) (rest : Bytes) (t : SqlType)
    → All IsTyped types
    → find_type types rest ≡ some t
    → IsTyped t
unfolding find_type
find_type-IsTyped [] rest t h e = ground arith
find_type-IsTyped (u ∷ types) rest t h e = elim (Bool-cases (test u.re rest)) [
  | inl hit ↦ ground (arith, e, hit, h.0)
  | inr miss ↦ find_type-IsTyped types rest t h.1 (ground (arith, e, miss))
]

sql_types-IsTyped : All IsTyped sql_types
unfolding sql_types
sql_types-IsTyped = (refl, (refl, (refl, (refl, (refl, (refl, (refl, (refl, tt))))))))

module _ (file : Bytes) where
  -- What is claimed of a column of the file.
  abbrev pub IsSqlColumn : Column → Type 0
  IsSqlColumn c = (c.file ≡ file) × (known_width c.rep ≡ some c.width) × (is_identifier c ≡ true)

  typed_column-IsSqlColumn :
      (table name rest : Bytes) (o : Option SqlType)
      → ((t : SqlType) → o ≡ some t → IsTyped t)
      → (test primary_key_re rest || test key_name name) ≡ true
      → All IsSqlColumn (typed_column table file name rest o)
  unfolding typed_column
  typed_column-IsSqlColumn table name rest none typed identifies = tt
  typed_column-IsSqlColumn table name rest (some t) typed identifies =
      ((refl, typed t refl, identifies), tt)

  column_of-IsSqlColumn :
      (table name rest : Bytes) → All IsSqlColumn (column_of table file name rest)
  unfolding column_of
  column_of-IsSqlColumn table name rest =
      elim (Bool-cases (not (test primary_key_re rest) && not (test key_name name))) [
        | inl skip ↦ rw skip tt
        | inr keep ↦ rw keep (
            typed_column-IsSqlColumn table name rest (find_type sql_types rest)
              (λ t e. find_type-IsTyped sql_types rest t sql_types-IsTyped e)
              (ground (arith, keep)))
      ]

  column_match-IsSqlColumn :
      (table : Bytes) (o : Option Cursor) → All IsSqlColumn (column_match table file o)
  column_match-IsSqlColumn table none = tt
  column_match-IsSqlColumn table (some col) =
      column_of-IsSqlColumn table (captured 1 col) (captured 2 col)

  line_columns-IsSqlColumn :
      (table raw_line : Bytes) → All IsSqlColumn (line_columns table file raw_line)
  unfolding line_columns
  line_columns-IsSqlColumn table raw_line =
      let line = trim raw_line in
      elim (Bool-cases (is_nil line || starts_with (codes "--") line)) [
        | inl skip ↦ rw skip tt
        | inr keep ↦ rw keep (column_match-IsSqlColumn table _)
      ]

  body_columns-IsSqlColumn :
      (table : Bytes) (lines : List Bytes) → All IsSqlColumn (body_columns table file lines)
  unfolding body_columns
  body_columns-IsSqlColumn table [] = tt
  body_columns-IsSqlColumn table (line ∷ lines) =
      All-append_lists IsSqlColumn (line_columns table file line) (body_columns table file lines)
        (line_columns-IsSqlColumn table line) (body_columns-IsSqlColumn table lines)

  table_columns-IsSqlColumn : (ms : List Cursor) → All IsSqlColumn (table_columns file ms)
  unfolding table_columns
  table_columns-IsSqlColumn [] = tt
  table_columns-IsSqlColumn (m ∷ ms) =
      All-append_lists IsSqlColumn (body_columns (captured 1 m) file _) (table_columns file ms)
        (body_columns-IsSqlColumn (captured 1 m) _) (table_columns-IsSqlColumn ms)

  -- Whatever the text of an SQL file, every column extracted from it is of that file, has one of the
  -- representations of `SQL_TYPES` with the width that belongs to it, and is a primary key or named
  -- `id`, `..._id` or `..._key`.
  pub extract_sql-IsSqlColumn : (text : Bytes) → All IsSqlColumn (extract_sql text file)
  unfolding extract_sql
  extract_sql-IsSqlColumn text = table_columns-IsSqlColumn (match_all _ text)
