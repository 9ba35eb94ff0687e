-- ===== src/Cli/Audit.antt =====
-- cli/check.mjs: `runCheck` with the policy file and the directory walk in place of the interface
-- `Disk`. The file system, `existsSync`, `JSON.parse` and `toLowerCase` are parameters.
pub mod Disks
pub mod Blame
use rivid.Common.{
  ℕ, ◌+◌, Bool, true, false, Option, none, some, List, [], ◌∷◌, Bytes, codes, ltb, if◌then◌else◌,
}
use rivid.Cli.Columns.{Column, Policy}
use rivid.Cli.Check.{analyze}
use rivid.Cli.Files.{FileSystem, ◌>>=◌, extract_all}
use rivid.Cli.PolicyFile.{
  Value, Values, undefined, null, flag, number, text, object, list, nil, item, Heap, Fields,
  get_field, fields_of,
}
use rivid.Cli.LoadPolicy.{Loaded, loaded, failed, load_policy}
use rivid.Cli.RunCheck.{includes, scan_root}

-- An entry that is a string or not given; `none` is an entry of another kind.
abbrev pub entry : Value → Option (Option Bytes)
entry undefined = some none
entry null = some none
entry (text s) = some (some s)
entry (flag b) = none
entry (number n) = none
entry (object a) = none
entry (list vs) = none

-- A value in a template string; `none` is a value that is not in_template as itself.
abbrev pub in_template : Value → Option Bytes
in_template undefined = some (codes "undefined")
in_template null = some (codes "null")
in_template (text s) = some s
in_template (flag true) = some (codes "true")
in_template (flag false) = some (codes "false")
in_template (number n) = none
in_template (object a) = none
in_template (list vs) = none

-- `a.table` and `a.column` of an item; a text has no such fields.
abbrev pub allow_item : Heap → Value → Option (Bytes × Bytes)
allow_item heap (object a) = do
  table ← in_template (get_field (fields_of heap a) (codes "table"))
  column ← in_template (get_field (fields_of heap a) (codes "column"))
  some (table, column)
allow_item heap (text s) = some (codes "undefined", codes "undefined")
allow_item heap (flag b) = some (codes "undefined", codes "undefined")
allow_item heap (number n) = some (codes "undefined", codes "undefined")
allow_item heap undefined = none
allow_item heap null = none
allow_item heap (list vs) = some (codes "undefined", codes "undefined")

abbrev pub allow_items : Heap → Values → Option (List (Bytes × Bytes))
allow_items heap nil = some []
allow_items heap (item v vs) = do
  first ← allow_item heap v
  rest ← allow_items heap vs
  some (first ∷ rest)

-- `(policy.allow ?? []).map(...)`; only a list has `map`.
abbrev pub allow_of : Heap → Value → Option (List (Bytes × Bytes))
allow_of heap undefined = some []
allow_of heap null = some []
allow_of heap (list vs) = allow_items heap vs
allow_of heap (text s) = none
allow_of heap (flag b) = none
allow_of heap (number n) = none
allow_of heap (object a) = none

abbrev pub fields_policy : Heap → Fields → Option Policy
fields_policy heap fields = do
  database ← entry (get_field fields (codes "database"))
  public_ids ← entry (get_field fields (codes "public_ids"))
  events ← entry (get_field fields (codes "events"))
  idempotency ← entry (get_field fields (codes "idempotency"))
  allow ← allow_of heap (get_field fields (codes "allow"))
  some (record {
    database = database;
    public_ids = public_ids;
    events = events;
    idempotency = idempotency;
    allow = allow;
  })

-- The policy that `analyze` reads in the object of a policy file, where its entries are strings.
unfoldable pub policy_of : Heap → Value → Option Policy
policy_of heap (object a) = fields_policy heap (fields_of heap a)
policy_of heap undefined = none
policy_of heap null = none
policy_of heap (flag b) = none
policy_of heap (number n) = none
policy_of heap (text s) = none
policy_of heap (list vs) = none

module _ (fs : FileSystem) (exists : Bytes → Bool) (parse_json : Bytes → Option (Heap × Value))
    (to_lower_case : Bytes → Bytes) (depth : ℕ) where
  -- From the columns and the policy to the exit code.
  abbrev pub failures_code : Bool → Policy → List Column → ℕ
  failures_code strict policy cols =
      let summary = (analyze to_lower_case cols policy).1 in
      let failures = summary.error_count + (if strict then summary.warning_count else 0) in
      if ltb 0 failures then 1 else 0

  abbrev pub scan : Bool → Bytes → Option Policy → Option ℕ
  scan strict start policy = do
    policy' ← policy
    found ← extract_all fs depth start
    some (failures_code strict policy' found.0)

  abbrev pub with_policy : Bool → Bytes → Loaded → Option ℕ
  with_policy strict start (failed path) = some 2
  with_policy strict start (loaded heap config path) =
      let result = scan strict start (policy_of heap config) in
      if exists start then result else some 2

  -- The exit code; `none` is a policy with entries that are no strings, or a walk deeper than `depth`.
  unfoldable pub check : List Bytes → Bytes → Option ℕ
  check args root =
      let start = scan_root args root in
      with_policy (includes args (codes "--strict")) start (load_policy fs exists parse_json start)
