-- ===== src/Cli/Extract/Sql.antt =====
-- cli/check.mjs: `SQL_TYPES` and `extractSql`.
use rivid.Common.{
  ℕ, Bool, true, false, not, ◌&&◌, ◌||◌, Option, none, some, List, [], ◌∷◌, ◌++◌, Bytes, codes,
  if◌then◌else◌,
}
use rivid.Js.Regex.{
  Regex, Cursor, seq, alt, star, group, not_ahead, exec, test, captured, match_all, split,
}
use rivid.Js.Pattern.{
  all_of, some_of, maybe, literal, any_case, one_of, none_of, space, spaces, word_char, dot, start,
  end, word_edge,
}
use rivid.Js.Text.{starts_with, trim}
use rivid.Cli.Columns.{Column}
use rivid.Cli.Extract.{key_name, line_break}

pub record SqlType : Type 0 where
  pub re : Regex
  pub rep : Bytes
  pub width : Option ℕ

-- `\s*\(\s*n\s*\)`
abbrev size : Bytes → Regex
size n =
    all_of (spaces ∷ literal (codes "(") ∷ spaces ∷ literal n ∷ spaces ∷ literal (codes ")") ∷ [])

-- `\bname\b`
abbrev whole_word : Bytes → Regex
whole_word name = all_of (word_edge ∷ any_case name ∷ word_edge ∷ [])

-- `\bchar\s*\(\s*n\s*\)` and `(?:var)?char\s*\(\s*n\s*\)`
abbrev char_of : Bytes → Regex
char_of n = all_of (word_edge ∷ any_case (codes "char") ∷ size n ∷ [])

abbrev varchar_of : Bytes → Regex
varchar_of n = all_of (maybe (any_case (codes "var")) ∷ any_case (codes "char") ∷ size n ∷ [])

unfoldable pub sql_types : List SqlType
sql_types =
    record { re = whole_word (codes "uuid"); rep = codes "uuid"; width = some 16 }
    ∷ record { re = whole_word (codes "bytea"); rep = codes "bytea(16)"; width = some 16 }
    ∷ record { re = char_of (codes "36"); rep = codes "char(36)"; width = some 36 }
    ∷ record { re = varchar_of (codes "36"); rep = codes "varchar(36)"; width = some 36 }
    ∷ record { re = char_of (codes "26"); rep = codes "char(26)"; width = some 26 }
    ∷ record { re = varchar_of (codes "26"); rep = codes "varchar(26)"; width = some 26 }
    ∷ record { re = whole_word (codes "text"); rep = codes "text"; width = none }
    ∷ record {
      re = alt (whole_word (codes "bigint")) (whole_word (codes "bigserial"));
      rep = codes "bigint";
      width = some 8;
    }
    ∷ []

-- `SQL_TYPES.find((t) => t.re.test(rest))`
unfoldable pub find_type : List SqlType → Bytes → Option SqlType
find_type [] rest = none
find_type (t ∷ types) rest = if test t.re rest then some t else find_type types rest

-- `["`]?`
abbrev pub quote : Regex
quote = maybe (one_of (codes "\"`"))

-- The name and the body of a table.
table_re : Regex
table_re = all_of (
    any_case (codes "create")
    ∷ some_of space
    ∷ any_case (codes "table")
    ∷ some_of space
    ∷ maybe (
        all_of (
          any_case (codes "if")
          ∷ some_of space
          ∷ any_case (codes "not")
          ∷ some_of space
          ∷ any_case (codes "exists")
          ∷ some_of space
          ∷ []))
    ∷ quote
    ∷ group 1 (some_of (alt word_char (literal (codes "."))))
    ∷ quote
    ∷ spaces
    ∷ literal (codes "(")
    ∷ group 2 (seq (none_of (codes ";")) (star false (none_of (codes ";"))))
    ∷ literal (codes ");")
    ∷ [])

-- A line break, or a comma outside of parentheses.
separator_re : Regex
separator_re = alt line_break (
    all_of (
      spaces
      ∷ literal (codes ",")
      ∷ spaces
      ∷ not_ahead (seq (star true (none_of (codes "("))) (literal (codes ")")))
      ∷ []))

-- The name of a column and the rest of its line.
column_re : Regex
column_re = all_of (
    start
    ∷ quote
    ∷ group 1 (some_of word_char)
    ∷ quote
    ∷ some_of space
    ∷ group 2 (some_of dot)
    ∷ end
    ∷ [])

unfoldable pub primary_key_re : Regex
primary_key_re = all_of (
    word_edge
    ∷ any_case (codes "primary")
    ∷ some_of space
    ∷ any_case (codes "key")
    ∷ word_edge
    ∷ [])

unfoldable pub references_re : Regex
references_re = all_of (
    any_case (codes "references")
    ∷ some_of space
    ∷ quote
    ∷ group 1 (some_of (alt word_char (literal (codes "."))))
    ∷ quote
    ∷ spaces
    ∷ literal (codes "(")
    ∷ spaces
    ∷ quote
    ∷ group 2 (some_of word_char)
    ∷ quote
    ∷ spaces
    ∷ literal (codes ")")
    ∷ [])

abbrev pub is_nil : Bytes → Bool
is_nil [] = true
is_nil (c ∷ s) = false

abbrev reference : Option Cursor → Option (Option Bytes × Bytes)
reference none = none
reference (some fk) = some (some (captured 1 fk), captured 2 fk)

-- The column of a known type; a line of no known type gives none.
unfoldable pub typed_column : Bytes → Bytes → Bytes → Bytes → Option SqlType → List Column
unfolding primary_key_re references_re
typed_column table file name rest none = []
typed_column table file name rest (some type) =
    record {
      table = table;
      column = name;
      rep = type.rep;
      width = type.width;
      pk = test primary_key_re rest;
      unique = test (whole_word (codes "unique")) rest;
      fk = reference (exec references_re rest);
      file = file;
    }
    ∷ []

-- The column that the name and the rest of a line give, if it is an identifier.
unfoldable pub column_of : Bytes → Bytes → Bytes → Bytes → List Column
unfolding primary_key_re
column_of table file name rest =
    if not (test primary_key_re rest) && not (test key_name name)
    then []
    else typed_column table file name rest (find_type sql_types rest)

abbrev pub column_match : Bytes → Bytes → Option Cursor → List Column
column_match table file none = []
column_match table file (some col) = column_of table file (captured 1 col) (captured 2 col)

unfoldable pub line_columns : Bytes → Bytes → Bytes → List Column
unfolding column_re
line_columns table file raw_line =
    let line = trim raw_line in
    if is_nil line || starts_with (codes "--") line
    then []
    else column_match table file (exec column_re line)

unfoldable pub body_columns : Bytes → Bytes → List Bytes → List Column
body_columns table file [] = []
body_columns table file (raw_line ∷ lines) =
    line_columns table file raw_line ++ body_columns table file lines

unfoldable pub table_columns : Bytes → List Cursor → List Column
unfolding separator_re
table_columns file [] = []
table_columns file (m ∷ ms) =
    body_columns (captured 1 m) file (split separator_re (captured 2 m)) ++ table_columns file ms

unfoldable pub extract_sql : Bytes → Bytes → List Column
unfolding table_re
extract_sql text file = table_columns file (match_all table_re text)
