-- ===== src/Cli/Extract/DrizzleSchema.antt =====
-- cli/check.mjs: `extractDrizzleTs`.
use rivid.Common.{
  ℕ, ◌+◌, ◌*◌, ◌-◌, Bool, true, false, ◌||◌, Option, none, some, List, [], ◌∷◌, ◌++◌, Bytes, codes,
  ◌==◌, str_eq, if◌then◌else◌,
}
use rivid.Js.Regex.{
  Regex, Cursor, one, star, group, exec, test, capture, captured, match_all, split,
}
use rivid.Js.Pattern.{
  all_of, any_of, some_of, maybe, literal, any_case, one_of, none_of, spaces, word_char, digit_char,
  start,
}
use rivid.Js.Text.{trim}
use rivid.Cli.Columns.{Column}
use rivid.Cli.Extract.{key_name, line_break}

abbrev quote_mark : Regex
quote_mark = one_of (codes "\"'`")

table_re : Regex
table_re = all_of (
    any_of (
      literal (codes "pgTable") ∷ literal (codes "mysqlTable") ∷ literal (codes "sqliteTable") ∷ [])
    ∷ spaces
    ∷ literal (codes "(")
    ∷ spaces
    ∷ quote_mark
    ∷ group 2 (some_of word_char)
    ∷ quote_mark
    ∷ spaces
    ∷ literal (codes ",")
    ∷ spaces
    ∷ literal (codes "{")
    ∷ group 3 (star false (one (λ c. true)))
    ∷ literal (10 ∷ [])
    ∷ spaces
    ∷ literal (codes "}")
    ∷ [])

column_re : Regex
column_re = all_of (
    start
    ∷ group 1 (some_of word_char)
    ∷ spaces
    ∷ literal (codes ":")
    ∷ spaces
    ∷ group 2 (
        any_of (
          any_case (codes "uuid")
          ∷ any_case (codes "char")
          ∷ any_case (codes "varchar")
          ∷ any_case (codes "text")
          ∷ any_case (codes "bytea")
          ∷ []))
    ∷ spaces
    ∷ literal (codes "(")
    ∷ spaces
    ∷ quote_mark
    ∷ group 3 (some_of word_char)
    ∷ quote_mark
    ∷ maybe (
        all_of (
          spaces
          ∷ literal (codes ",")
          ∷ spaces
          ∷ group 4 (
              all_of
                (literal (codes "{") ∷ star true (none_of (codes "}")) ∷ literal (codes "}") ∷ []))
          ∷ []))
    ∷ spaces
    ∷ literal (codes ")")
    ∷ [])

length_re : Regex
length_re = all_of (
    literal (codes "length")
    ∷ spaces
    ∷ literal (codes ":")
    ∷ spaces
    ∷ group 1 (some_of digit_char)
    ∷ [])

-- `Number` of a run of digits.
abbrev number : ℕ → Bytes → ℕ
number n [] = n
number n (c ∷ cs) = number (n * 10 + (c - b'0')) cs

abbrev length_of : Option Cursor → Option ℕ
length_of none = none
length_of (some len) = some (number 0 (captured 1 len))

abbrev is_length : Option ℕ → ℕ → Bool
is_length none n = false
is_length (some l) n = l == n

-- The representation and the width by the column function and the length option.
unfoldable pub column_rep : Bytes → Option ℕ → Bytes × Option ℕ
column_rep fn l =
    let is_char = str_eq fn (codes "char") in
    if str_eq fn (codes "uuid")
    then (codes "uuid", some 16)
    else if str_eq fn (codes "bytea")
    then (codes "bytea(16)", some 16)
    else if str_eq fn (codes "text")
    then (codes "text", none)
    else if is_length l 26
    then (if is_char then codes "char(26)" else codes "varchar(26)", some 26)
    else if is_length l 36
    then (if is_char then codes "char(36)" else codes "varchar(36)", some 36)
    else (fn ++ codes "(?)", l)

abbrev or_empty : Option Bytes → Bytes
or_empty none = []
or_empty (some s) = s

unfoldable pub property_column : Bytes → Bytes → Bytes → Option Cursor → List Column
unfolding length_re
property_column table file line none = []
property_column table file line (some col) =
    let primary = test (literal (codes ".primaryKey()")) line in
    let (rep, width) =
      column_rep (captured 2 col)
        (length_of (exec length_re (or_empty (capture 4 col.captures)))) in
    if primary || test key_name (captured 1 col)
    then record {
      table = table;
      column = captured 3 col;
      rep = rep;
      width = width;
      pk = primary;
      unique = test (literal (codes ".unique()")) line;
      fk = none;
      file = file;
    }
      ∷ []
    else []

unfoldable pub table_properties : Bytes → Bytes → List Bytes → List Column
unfolding column_re
table_properties table file [] = []
table_properties table file (raw_line ∷ lines) =
    let line = trim raw_line in
    property_column table file line (exec column_re line) ++ table_properties table file lines

unfoldable pub schema_tables : Bytes → List Cursor → List Column
schema_tables file [] = []
schema_tables file (m ∷ ms) =
    table_properties (captured 2 m) file (split line_break (captured 3 m)) ++ schema_tables file ms

unfoldable pub extract_drizzle_ts : Bytes → Bytes → List Column
unfolding table_re
extract_drizzle_ts text file = schema_tables file (match_all table_re text)
