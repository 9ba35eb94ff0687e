-- ===== src/Cli/RunCheck.antt =====
-- cli/check.mjs: the command, from its arguments to the exit code.
pub mod ExitCode
use rivid.Common.{
  ℕ, zero, suc, ◌+◌, ◌-◌, Bool, true, false, not, ◌&&◌, ◌||◌, Option, none, some, List, [], ◌∷◌,
  ◌++◌, Bytes, codes, length, drop, map, leb, ltb, ◌==◌, str_eq, if◌then◌else◌,
}
use rivid.Cli.Columns.{
  Column, Policy, Severity, error, warning, Rule, uuid_as_text, unbounded_text_id, ulid_as_uuid,
  fk_mismatch, pk_drift, Finding, starts_with, contains, ends_with, ascii_lower, is_uuid_like,
  is_text_like, is_public_id, or_else, is_given, is_family, same_family,
}
use rivid.Cli.Check.{Summary, analyze}

-- What the command finds on the disk: the policy at a root, unless it cannot be parsed, whether a
-- path exists, and the columns below it.
pub record Disk : Type 0 where
  pub load_policy : Bytes → Option Policy
  pub exists : Bytes → Bool
  pub extract_all : Bytes → List Column

abbrev pub includes : List Bytes → Bytes → Bool
includes [] a = false
includes (b ∷ args) a = str_eq b a || includes args a

-- `paths[0] ?? root`
abbrev pub scan_root : List Bytes → Bytes → Bytes
scan_root [] root = root
scan_root (a ∷ args) root = if starts_with (codes "--") a then scan_root args root else a

-- The exit code for what loading the policy at `start` gave.
abbrev pub exit_code : (Bytes → Bytes) → Disk → Bool → Bytes → Option Policy → ℕ
exit_code to_lower_case disk strict start none = 2
exit_code to_lower_case disk strict start (some policy) =
    let summary = (analyze to_lower_case (disk.extract_all start) policy).1 in
    let failures = summary.error_count + (if strict then summary.warning_count else 0) in
    if disk.exists start then (if ltb 0 failures then 1 else 0) else 2

unfoldable pub run_check : (Bytes → Bytes) → Disk → List Bytes → Bytes → ℕ
run_check to_lower_case disk args root =
    let start = scan_root args root in
    exit_code to_lower_case disk (includes args (codes "--strict")) start (disk.load_policy start)
