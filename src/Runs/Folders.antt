-- ===== src/Runs/Folders.antt =====
-- A folder with a schema, a folder in it with another, and a folder that is skipped.
use rivid.Common.{
  ℕ, Bool, Option, subst, sym, ◌≡◌, refl, inl, inr, ◌↔◌, true, false, none, some, List, [], ◌∷◌,
  ◌++◌, ◌||◌, ◌+◌, ◌-◌, Bytes, codes, All, str_eq, drop, length, if◌then◌else◌, arith,
}
use rivid.Cli.Columns.{Column, Policy, is_text_like}
use rivid.Cli.PolicyFile.{
  Heap, Value, text, object, parse_policy_yaml, parse_lines, parse_line, line_match, pop_to, coerce,
  set_entry,
}
use rivid.Js.Regex.{split, exec, match_all, test}
use rivid.Js.Text.{trim, is_word}
use rivid.Cli.LoadPolicy.{loaded, load_policy, load_from}
use rivid.Cli.RunCheck.{Disk, scan_root}
use rivid.Cli.Files
use rivid.Cli.Check
use rivid.Cli.Extract.Sql
use rivid.Cli.Audit.{policy_of, check}
use rivid.Cli.Audit.Disks.{IsDiskAt}
use rivid.Cli.Audit.Blame.{IsVerdict, check-blames}
use rivid.Cli.Files.{FileSystem, skip_dirs, scan_ext, has_name, walk, walk_entries, extract_all}
use rivid.Cli.Files.Walk.{IsIn, IsBelow, HasDepth, walk-lists}
use rivid.Cli.Files.Sources.{IsFrom, included, extract_all-IsFrom}

abbrev pub folders : FileSystem
folders = record {
  read_dir = λ dir.
      if str_eq dir (codes "p")
      then some (codes "a.sql" ∷ codes "b.txt" ∷ codes "db" ∷ codes "dist" ∷ [])
      else if str_eq dir (codes "p/db")
      then some (codes "c.sql" ∷ [])
      else none;
  is_directory = λ p. some (str_eq p (codes "p/db") || str_eq p (codes "p/dist"));
  read_file = λ p. some (codes "CREATE TABLE t (id uuid);");
  join = λ dir name. dir ++ (codes "/" ++ name);
  ext_name = λ name. drop (length name - 4) name;
  relative = λ root file. drop (length root + 1) file;
  sep = codes "/";
}

walk-folders : walk folders 2 (codes "p") [] ≡ some (codes "p/a.sql" ∷ codes "p/db/c.sql" ∷ [])
unfolding walk walk_entries skip_dirs scan_ext
walk-folders = refl

some_injective : {a b : List Bytes} → some b ≡ some a → b ≡ a
some_injective e = ground (arith, e)

-- Nothing but p/db is a directory that is not skipped.
p-subfolder :
    (names : List Bytes) (name : Bytes)
    → folders.read_dir (codes "p") ≡ some names
    → IsIn name names
    → has_name skip_dirs name ≡ false
    → folders.is_directory (folders.join (codes "p") name) ≡ some true
    → name ≡ codes "db"
unfolding skip_dirs
p-subfolder names name listed i keep d =
    let found : IsIn name (codes "a.sql" ∷ codes "b.txt" ∷ codes "db" ∷ codes "dist" ∷ []) =
      subst (IsIn name) (sym (some_injective listed)) i in
    elim found [
      | inl e ↦
          ground
            (arith, subst (λ n. folders.is_directory (folders.join (codes "p") n) ≡ some true) e d)
      | inr (inl e) ↦
          ground
            (arith, subst (λ n. folders.is_directory (folders.join (codes "p") n) ≡ some true) e d)
      | inr (inr (inl e)) ↦ e
      | inr (inr (inr (inl e))) ↦ ground (arith, subst (λ n. has_name skip_dirs n ≡ false) e keep)
      | inr (inr (inr (inr e))) ↦ elim e [ ]
    ]

folders-HasDepth : HasDepth folders 2 (codes "p")
folders-HasDepth names name listed i keep d names' name' listed' i' keep' d' =
    let e = p-subfolder names name listed i keep d in
    ground (
      arith,
      subst
          (λ n. folders.is_directory (folders.join (folders.join (codes "p") n) name') ≡ some true)
          e d',
    )

walk-lists_example :
    (files : List Bytes) × (walk folders 2 (codes "p") [] ≡ some files)
    × ((f : Bytes) → IsIn f files ↔ IsBelow folders f (codes "p"))
walk-lists_example = walk-lists folders 2 (codes "p") folders-HasDepth

extract_all-IsFrom_example :
    (files : List Bytes) × (cols : List Column) × (walk folders 2 (codes "p") [] ≡ some files)
    × (extract_all folders 2 (codes "p") ≡ some (cols, included folders (codes "p") files))
    × All (IsFrom folders (codes "p")) cols
extract_all-IsFrom_example = extract_all-IsFrom folders (codes "p") 2 folders-HasDepth

-- The same folders, with a policy file and a schema that it does not agree with.
abbrev audited : FileSystem
audited = record folders {
  read_file = λ p.
      if str_eq p (codes "p/.rivid.yml")
      then some (codes "database: uuidv7")
      else some (codes "CREATE TABLE t (id text);");
}

abbrev audited_exists : Bytes → Bool
audited_exists p = str_eq p (codes "p") || str_eq p (codes "p/.rivid.yml")

abbrev no_json : Bytes → Option (Heap × Value)
no_json raw = none

abbrev as_is : Bytes → Bytes
as_is s = s

abbrev audited_heap : Heap
audited_heap = ((codes "database", text (codes "uuidv7")) ∷ []) ∷ []

abbrev uuid_only : Policy
uuid_only = record {
  database = some (codes "uuidv7");
  public_ids = none;
  events = none;
  idempotency = none;
  allow = [];
}

audited-load_policy :
    load_policy audited audited_exists no_json (codes "p")
    ≡ loaded audited_heap (object 0) (some (codes "p/.rivid.yml"))
unfolding load_policy load_from parse_policy_yaml parse_lines parse_line line_match pop_to coerce
    set_entry split exec trim is_word
audited-load_policy = refl

audited-policy_of : policy_of audited_heap (object 0) ≡ some uuid_only
unfolding policy_of
audited-policy_of = refl

audited-HasDepth : HasDepth audited 2 (codes "p")
audited-HasDepth = folders-HasDepth

audited-check : check audited audited_exists no_json as_is 2 [] (codes "p") ≡ some 1
unfolding check policy_of load_policy load_from parse_policy_yaml parse_lines split parse_line trim
    line_match exec is_word set_entry pop_to coerce Files.extract_all walk walk_entries skip_dirs
    scan_ext Files.extract_files Files.extract_file Files.is_excluded Sql.extract_sql
    Sql.table_columns Sql.body_columns Sql.line_columns Sql.column_of Sql.typed_column
    Sql.primary_key_re Check.allowed Check.analyze Check.bucket Check.check_column Check.check_drift
    Check.check_fk Check.classify Check.collect Check.findings Check.pk_reps Check.target_of
    match_all test Sql.find_type Sql.sql_types is_text_like
audited-check = refl

check-blames_example :
    (cols : List Column) × (n : ℕ) × (extract_all audited 2 (codes "p") ≡ some (cols, n))
    × IsVerdict audited audited_exists no_json as_is 2 [] (codes "p") uuid_only cols
check-blames_example =
    check-blames audited audited_exists no_json as_is 2 [] (codes "p") audited_heap (object 0)
      (some (codes "p/.rivid.yml")) uuid_only audited-HasDepth audited-load_policy audited-policy_of
      refl refl

abbrev text_id : Bytes → Column
text_id file = record {
  table = codes "t";
  column = codes "id";
  rep = codes "text";
  width = none;
  pk = false;
  unique = false;
  fk = none;
  file = file;
}

abbrev text_ids : List Column
text_ids = text_id (codes "a.sql") ∷ text_id (codes "db/c.sql") ∷ []

audited-extract_all : extract_all audited 2 (codes "p") ≡ some (text_ids, 2)
unfolding walk walk_entries skip_dirs scan_ext Files.extract_all Files.extract_files
    Files.extract_file Files.is_excluded Sql.extract_sql Sql.table_columns Sql.body_columns
    Sql.line_columns Sql.column_of Sql.typed_column Sql.primary_key_re Sql.find_type Sql.sql_types
    match_all test split exec trim is_word
audited-extract_all = refl

abbrev audited_disk : Disk
audited_disk = record {
  load_policy = λ start. some uuid_only;
  exists = audited_exists;
  extract_all = λ start. text_ids;
}

audited-IsDiskAt :
    IsDiskAt audited audited_exists no_json as_is 2 audited_disk (scan_root [] (codes "p"))
audited-IsDiskAt = record {
  policies = rw audited-load_policy (uuid_only, audited-policy_of, refl);
  existence = refl;
  columns = (2, audited-extract_all);
}
