-- ===== src/Runs/Policy.antt =====
-- The policy file of the documentation.
use rivid.Cli.PolicyFile.Frames.{IsParser}
use rivid.Cli.PolicyFile.Stack.{initial-IsParser, parse_line-IsParser}
use rivid.Common.{◌≡◌, refl, [], ◌∷◌, Bytes, codes}
use rivid.Js.Regex.{Cursor, exec, split, exec_from, match_at}
use rivid.Js.Text.{trim, trim_start, is_space, is_word}
use rivid.Cli.PolicyFile.{
  initial, text, object, list, nil, item, parse_policy_yaml, parse_lines, parse_line, pop_to,
  coerce, holder, set_entry, list_re, key_re, line_match, add_item,
}

abbrev documented : Bytes
documented =
    codes
      "rivid:\n  database: uuidv7   \n  allow:\n    - table: legacy_users\n      column: id\n      reason: \"frozen\"\n"

-- The keys of a list item behind the first go to the object at 2, which nothing refers to.
parse_policy_yaml-documented : parse_policy_yaml documented ≡ (
    ((codes "rivid", object 1) ∷ [])
    ∷ ((codes "database", text (codes "uuidv7")) ∷ (codes "allow", list (item (object 3) nil)) ∷ [])
    ∷ ((codes "column", text (codes "id")) ∷ (codes "reason", text (codes "frozen")) ∷ [])
    ∷ ((codes "table", text (codes "legacy_users")) ∷ [])
    ∷ [])
unfolding parse_policy_yaml line_match add_item parse_lines parse_line pop_to coerce holder
    set_entry list_re key_re exec split exec_from match_at trim trim_start is_space is_word
parse_policy_yaml-documented = refl

parse_line-IsParser_example : IsParser (parse_line initial (codes "rivid:"))
parse_line-IsParser_example = parse_line-IsParser initial (codes "rivid:") initial-IsParser

-- The match of `table: users`.
abbrev table_users : Cursor
table_users = record {
  before = [];
  after = [];
  captures = (2, codes "users") ∷ (1, codes "table") ∷ [];
}
