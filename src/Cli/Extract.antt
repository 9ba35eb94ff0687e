-- ===== src/Cli/Extract.antt =====
-- cli/check.mjs: the extraction of identifier columns from the text of a file.
pub mod Sql
pub mod PrismaSchema
pub mod DrizzleSchema
pub mod Identifiers
pub mod KeyNames
pub mod Sources
use rivid.Common.{ℕ, Bool, Option, none, some, List, [], ◌∷◌, Bytes, codes}
use rivid.Js.Regex.{Regex, alt, seq}
use rivid.Js.Pattern.{all_of, any_of, any_case, literal, start, end, maybe}

-- `/^id$|_id$|_key$/i`
abbrev pub key_name : Regex
key_name = any_of (
    all_of (start ∷ any_case (codes "id") ∷ end ∷ [])
    ∷ seq (any_case (codes "_id")) end
    ∷ seq (any_case (codes "_key")) end
    ∷ [])

-- `/\r?\n/`
abbrev pub line_break : Regex
line_break = seq (maybe (literal (13 ∷ []))) (literal (10 ∷ []))
