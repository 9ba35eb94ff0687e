-- ===== src/Cli/Extract/PrismaSchema.antt =====
-- cli/check.mjs: `extractPrisma`.
use rivid.Common.{
  ℕ, true, not, ◌&&◌, ◌||◌, Option, none, some, List, [], ◌∷◌, ◌++◌, Bytes, codes, str_eq,
  if◌then◌else◌,
}
use rivid.Js.Regex.{Regex, Cursor, seq, alt, star, group, test, captured, match_all, split}
use rivid.Js.Pattern.{
  all_of, some_of, literal, any_case, none_of, space, spaces, word_char, line_start, is_nil,
}
use rivid.Js.Text.{starts_with, trim, join}
use rivid.Cli.Columns.{Column}
use rivid.Cli.Extract.{key_name, line_break}

model_re : Regex
model_re = all_of (
    line_start
    ∷ spaces
    ∷ literal (codes "model")
    ∷ some_of space
    ∷ group 1 (some_of word_char)
    ∷ spaces
    ∷ literal (codes "{")
    ∷ group 2 (star true (none_of (codes "}")))
    ∷ literal (codes "}")
    ∷ [])

-- `/@db\.name/i` and `/@db\.Char\s*\(\s*n\s*\)/i`
abbrev db : Bytes → Regex
db name = seq (any_case (codes "@db.")) (any_case name)

abbrev db_char : Bytes → Regex
db_char n = all_of (
    db (codes "char")
    ∷ spaces
    ∷ literal (codes "(")
    ∷ spaces
    ∷ literal n
    ∷ spaces
    ∷ literal (codes ")")
    ∷ [])

-- The representation and the width of a field, by its type and its attributes.
unfoldable pub field_rep : Bytes → Bytes → Option (Bytes × Option ℕ)
field_rep type attrs =
    if test (db (codes "uuid")) attrs || str_eq type (codes "Uuid")
    then some (codes "uuid", some 16)
    else if test (db_char (codes "26")) attrs
    then some (codes "char(26)", some 26)
    else if test (db_char (codes "36")) attrs
    then some (codes "char(36)", some 36)
    else if str_eq type (codes "String")
    then some (codes "text", none)
    else if str_eq type (codes "Bytes")
    then some (codes "bytea(16)", some 16)
    else if str_eq type (codes "BigInt")
    then some (codes "bigint", some 8)
    else none

abbrev pub field_column : Bytes → Bytes → Bytes → Bytes → Option (Bytes × Option ℕ) → List Column
field_column table file name attrs none = []
field_column table file name attrs (some (rep, width)) =
    record {
      table = table;
      column = name;
      rep = rep;
      width = width;
      pk = test (literal (codes "@id")) attrs;
      unique = test (literal (codes "@unique")) attrs;
      fk = if test (literal (codes "@relation")) attrs then some (none, name) else none;
      file = file;
    }
    ∷ []

-- The words of a line: a name, a type and attributes.
unfoldable pub field_of : Bytes → Bytes → List Bytes → List Column
field_of table file [] = []
field_of table file (name ∷ []) = []
field_of table file (name ∷ type ∷ attrs) =
    let attr_str = join (codes " ") attrs in
    let is_id = test (literal (codes "@id")) attr_str || test key_name name in
    let sized = test (alt (db (codes "uuid")) (db (codes "char"))) attr_str in
    if not is_id && not sized
    then []
    else field_column table file name attr_str (field_rep type attr_str)

unfoldable pub line_fields : Bytes → Bytes → Bytes → List Column
line_fields table file raw_line =
    let line = trim raw_line in
    if is_nil line || starts_with (codes "//") line || starts_with (codes "@@") line
    then []
    else field_of table file (split (some_of space) line)

unfoldable pub model_fields : Bytes → Bytes → List Bytes → List Column
model_fields table file [] = []
model_fields table file (raw_line ∷ lines) =
    line_fields table file raw_line ++ model_fields table file lines

unfoldable pub schema_fields : Bytes → List Cursor → List Column
schema_fields file [] = []
schema_fields file (m ∷ ms) =
    model_fields (captured 1 m) file (split line_break (captured 2 m)) ++ schema_fields file ms

unfoldable pub extract_prisma : Bytes → Bytes → List Column
unfolding model_re
extract_prisma text file = schema_fields file (match_all model_re text)
