-- ===== src/Scripts/PostBuild.antt =====
-- scripts/post-build.mjs: what the step behind the compiler makes of dist and of index.d.ts.
pub mod Counts
use rivid.Common.{
  ℕ, zero, suc, ◌+◌, ◌-◌, Bool, true, not, Option, none, some, List, [], ◌∷◌, ◌++◌, Bytes, codes,
  length, drop, ltb, str_eq, if◌then◌else◌,
}
use mathlib.Core.List.{reverse}
use rivid.Js.Regex.{Regex, Cursor, seq, alt, star, group, exec, test, captured}
use rivid.Js.Pattern.{all_of, literal, one_of, none_of, end}
use rivid.Js.Text.{starts_with}

-- A directory: its entries in the order in which they are read.
pub data Entries : Type 0 where
  nil : Entries
  file : Bytes → Bytes → Entries → Entries
  folder : Bytes → Entries → Entries → Entries

-- `text.replaceAll(p, r)` for a text `p`, and `skip` characters of an occurrence still to pass.
pub replace_from : Bytes → Bytes → ℕ → Bytes → Bytes
replace_from p r skip [] = []
replace_from p r (suc skip) (c ∷ s) = replace_from p r skip s
replace_from p r zero (c ∷ s) =
    let found = starts_with p (c ∷ s) in
    let rest = replace_from p r (if found then length p - 1 else 0) s in
    if found then r ++ rest else c ∷ rest

unfoldable pub replace_all : Bytes → Bytes → Bytes → Bytes
unfolding replace_from
replace_all p r text = replace_from p r 0 text

abbrev pub single_quoted : Bytes
single_quoted = codes "'../index.js'"

abbrev pub double_quoted : Bytes
double_quoted = codes "\"../index.js\""

-- The two replacements of the specifier.
unfoldable pub rewrite : Bytes → Bytes
rewrite src =
    replace_all double_quoted (codes "\"../../index.js\"")
      (replace_all single_quoted (codes "'../../index.js'") src)

-- `/\.(js|d\.ts)$/`
unfoldable pub module_re : Regex
module_re =
    all_of (literal (codes ".") ∷ alt (literal (codes "js")) (literal (codes "d.ts")) ∷ end ∷ [])

-- `/['"]\.\.\/index\.js['"]/`
unfoldable pub specifier_re : Regex
specifier_re =
    all_of (one_of (codes "'\"") ∷ literal (codes "../index.js") ∷ one_of (codes "'\"") ∷ [])

-- The entries as the walk leaves them, and its two counters.
pub record Walked : Type 0 where
  pub entries : Entries
  pub fixed : ℕ
  pub remaining : ℕ

abbrev keep_file : Bytes → Bytes → Walked → Walked
keep_file name text w = record w { entries = file name text w.entries }

abbrev walk_file : Bytes → Bytes → Bytes → Walked → Walked
walk_file name before src w =
    if str_eq src before
    then (if test specifier_re src
        then record (keep_file name before w) { remaining = w.remaining + 1 }
        else keep_file name before w)
    else record (keep_file name src w) { fixed = w.fixed + 1 }

unfoldable pub walk : Entries → Walked
walk nil = record { entries = nil; fixed = 0; remaining = 0 }
walk (file name text rest) =
    let others = walk rest in
    if test module_re name
    then walk_file name text (rewrite text) others
    else keep_file name text others
walk (folder name inner rest) =
    let below = walk inner in
    let others = walk rest in
    record {
      entries = folder name below.entries others.entries;
      fixed = below.fixed + others.fixed;
      remaining = below.remaining + others.remaining;
    }

-- `text.replace(re, sub)`, the part in front of the match, `sub` of the match, and what follows.
replace_at : (Cursor → Bytes) → Bytes → Option Cursor → Bytes
replace_at sub text none = text
replace_at sub text (some c) = reverse (drop (length (captured 0 c)) c.before) ++ (sub c ++ c.after)

unfoldable pub replace : Regex → (Cursor → Bytes) → Bytes → Bytes
unfolding replace_at
replace re sub text = replace_at sub text (exec (group 0 re) text)

-- `head\(([^)]*)\): result` and its replacement, with the parameters kept.
abbrev call_re : Bytes → Bytes → Regex
call_re head result = all_of (
    literal (head ++ codes "(")
    ∷ group 1 (star true (none_of (codes ")")))
    ∷ literal (codes "): " ++ result)
    ∷ [])

abbrev retyped : Bytes → Bytes → Bytes → Bytes → Bytes
retyped head result replacement src =
    replace (call_re head result)
      (λ c. head ++ (codes "(" ++ (captured 1 c ++ (codes "): " ++ replacement)))) src

abbrev readonly_sort : Bytes → Bytes
readonly_sort src =
    replace (literal (codes "export declare function sort(ids: Array<string>): Array<string>"))
      (λ c. codes "export declare function sort(ids: ReadonlyArray<string>): Array<string>") src

abbrev declared : Bytes → Bytes
declared name = codes "export declare function " ++ name

-- The patched text of index.d.ts.
unfoldable pub patch_declarations : Bytes → Bytes
patch_declarations src =
    let sorted = readonly_sort (readonly_sort src) in
    let many =
      retyped (declared (codes "generateMany")) (codes "object") (codes "string[]") sorted in
    let ksuids =
      retyped (declared (codes "generateKsuidMany")) (codes "object") (codes "string[]") many in
    let decoded =
      retyped (declared (codes "decodeMany")) (codes "Uint8Array") (codes "Uint8Array") ksuids in
    let next = retyped (codes "nextMany") (codes "object") (codes "string[]") decoded in
    let monotonic = retyped (codes "monotonicMany") (codes "object") (codes "string[]") next in
    retyped (declared (codes "decodeInto")) (codes "void") (codes "void") monotonic

-- What the script reports: how many files it rewrote and whether it aligned the declarations; `none`
-- where it throws.
unfoldable pub post_build : Entries → Bytes → Option (ℕ × Bool)
post_build dist declarations =
    let w = walk dist in
    if ltb 0 w.remaining
    then none
    else some (w.fixed, not (str_eq (patch_declarations declarations) declarations))
