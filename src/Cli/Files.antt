-- ===== src/Cli/Files.antt =====
-- cli/check.mjs: `walk` and `extractAll`. The file system and node:path are parameters.
pub mod Walk
pub mod Sources
use rivid.Common.{
  ℕ, zero, suc, ◌+◌, Bool, true, false, ◌&&◌, ◌||◌, Option, none, some, List, [], ◌∷◌, ◌++◌, Bytes,
  codes, str_eq, if◌then◌else◌,
}
use rivid.Js.Regex.{Regex, test}
use rivid.Js.Pattern.{literal, any_of}
use rivid.Js.Text.{contains}
use rivid.Cli.Columns.{Column}
use rivid.Cli.Extract.Sql.{extract_sql}
use rivid.Cli.Extract.PrismaSchema.{extract_prisma}
use rivid.Cli.Extract.DrizzleSchema.{extract_drizzle_ts}

-- Of node:fs and node:path, what the scanner calls; `none` is a call that throws.
pub record FileSystem : Type 0 where
  pub read_dir : Bytes → Option (List Bytes)
  pub is_directory : Bytes → Option Bool
  pub read_file : Bytes → Option Bytes
  pub join : Bytes → Bytes → Bytes
  pub ext_name : Bytes → Bytes
  pub relative : Bytes → Bytes → Bytes
  pub sep : Bytes

unfoldable pub skip_dirs : List Bytes
skip_dirs =
    codes "node_modules"
    ∷ codes ".git"
    ∷ codes "dist"
    ∷ codes "target"
    ∷ codes "build"
    ∷ codes ".next"
    ∷ codes ".venv"
    ∷ codes "venv"
    ∷ codes "__pycache__"
    ∷ codes ".gradle"
    ∷ codes "coverage"
    ∷ codes ".pytest_cache"
    ∷ codes "pkg"
    ∷ []

unfoldable pub scan_ext : List Bytes
scan_ext =
    codes ".sql"
    ∷ codes ".prisma"
    ∷ codes ".ts"
    ∷ codes ".mts"
    ∷ codes ".cts"
    ∷ codes ".tsx"
    ∷ codes ".js"
    ∷ codes ".mjs"
    ∷ codes ".cjs"
    ∷ codes ".py"
    ∷ codes ".go"
    ∷ codes ".rs"
    ∷ codes ".yml"
    ∷ codes ".yaml"
    ∷ []

-- `set.has(name)`, `names.includes(name)`
abbrev pub has_name : List Bytes → Bytes → Bool
has_name [] name = false
has_name (n ∷ names) name = str_eq n name || has_name names name

-- `/pgTable|mysqlTable|sqliteTable/`
unfoldable pub drizzle_re : Regex
drizzle_re =
    any_of (
      literal (codes "pgTable") ∷ literal (codes "mysqlTable") ∷ literal (codes "sqliteTable") ∷ [])

-- The extractor for a file by its extension and its text.
unfoldable pub extract_file : Bytes → Bytes → Bytes → List Column
extract_file ext text rel =
    if str_eq ext (codes ".sql")
    then extract_sql text rel
    else if str_eq ext (codes ".prisma")
    then extract_prisma text rel
    else if has_name (codes ".ts" ∷ codes ".mts" ∷ codes ".tsx" ∷ []) ext && test drizzle_re text
    then extract_drizzle_ts text rel
    else []

infixl 5 ◌>>=◌
abbrev pub ◌>>=◌ {ℓ κ} : {A : Type ℓ} {B : Type κ} → Option A → (A → Option B) → Option B
none >>= f = none
some a >>= f = f a

module _ (fs : FileSystem) where
  -- What becomes of an entry: `visit` walks a directory.
  abbrev pub walk_kind :
      (Bytes → List Bytes → Option (List Bytes))
      → Bytes
      → Bytes
      → List Bytes
      → Option Bool
      → Option (List Bytes)
  walk_kind visit name p files none = some files
  walk_kind visit name p files (some true) = visit p files
  walk_kind visit name p files (some false) =
      some (if has_name scan_ext (fs.ext_name name) then files ++ (p ∷ []) else files)

  abbrev pub walk_entry :
      (Bytes → List Bytes → Option (List Bytes)) → Bytes → Bytes → List Bytes → Option (List Bytes)
  walk_entry visit dir name files =
      if has_name skip_dirs name
      then some files
      else walk_kind visit name (fs.join dir name) files (fs.is_directory (fs.join dir name))

  -- `for (const name of entries)`
  unfoldable pub walk_entries :
      (Bytes → List Bytes → Option (List Bytes))
      → Bytes
      → List Bytes
      → List Bytes
      → Option (List Bytes)
  walk_entries visit dir [] files = some files
  walk_entries visit dir (name ∷ names) files = do
    more ← walk_entry visit dir name files
    walk_entries visit dir names more

  abbrev pub walk_listing :
      (Bytes → List Bytes → Option (List Bytes))
      → Bytes
      → List Bytes
      → Option (List Bytes)
      → Option (List Bytes)
  walk_listing visit dir files none = some files
  walk_listing visit dir files (some entries) = walk_entries visit dir entries files

  -- A directory may contain itself by a symbolic link, which `statSync` follows: `none` is a walk
  -- that goes deeper than `depth`.
  unfoldable pub walk : ℕ → Bytes → List Bytes → Option (List Bytes)
  walk zero dir files = none
  walk (suc depth) dir files = walk_listing (walk depth) dir files (fs.read_dir dir)

  unfoldable pub is_excluded : Bytes → Bool
  is_excluded file =
      contains (fs.sep ++ codes "integrations" ++ fs.sep) file
      || contains (fs.sep ++ codes "benchmarks" ++ fs.sep) file

  abbrev pub extract_text : Bytes → Bytes → Option Bytes → List Column
  extract_text root file none = []
  extract_text root file (some text) = extract_file (fs.ext_name file) text (fs.relative root file)

  -- The columns of the walked files, and how many files were scanned.
  unfoldable pub extract_files : Bytes → List Bytes → List Column × ℕ
  extract_files root [] = ([], 0)
  extract_files root (file ∷ files) =
      let rest = extract_files root files in
      if is_excluded file
      then rest
      else (extract_text root file (fs.read_file file) ++ rest.0, rest.1 + 1)

  unfoldable pub extract_all : ℕ → Bytes → Option (List Column × ℕ)
  extract_all depth root = do files ← walk depth root []; some (extract_files root files)
