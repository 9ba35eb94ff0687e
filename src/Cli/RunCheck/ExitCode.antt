-- ===== src/Cli/RunCheck/ExitCode.antt =====
-- The exit code of `rivid check`, and which columns it can report.
use rivid.Common.{
  ◌≡◌, ap, ◌∙◌, true, false, some, List, Bytes, codes, length, ltb, ◌==◌, if◌then◌else◌, arith,
}
use rivid.Cli.Columns.{Policy}
use rivid.Cli.Check.{findings, analyze}
use rivid.Cli.RunCheck.{Disk, includes, scan_root, run_check}
use rivid.Cli.Check.Findings.{any, is_error_column, has_error-findings, length-findings}

-- Without `--strict`, with a policy that can be parsed and a path that exists, the command exits with
-- 1 exactly if some extracted column is not exempted by the policy and is either a UUID by the policy
-- stored as unbounded text, or a foreign key whose representation differs from that of the column it
-- refers to, where that column is known and not exempted. Otherwise it exits with 0.
pub run_check-errors :
    (to_lower_case : Bytes → Bytes) (disk : Disk) (args : List Bytes) (root : Bytes)
    (policy : Policy)
    → disk.load_policy (scan_root args root) ≡ some policy
    → disk.exists (scan_root args root) ≡ true
    → includes args (codes "--strict") ≡ false
    → run_check to_lower_case disk args root ≡ (
        let cols = disk.extract_all (scan_root args root) in
        if any (is_error_column to_lower_case policy cols) cols then 1 else 0)
unfolding run_check analyze
run_check-errors to_lower_case disk args root policy parsed found lenient =
    let cols = disk.extract_all (scan_root args root) in
    rw (parsed, found, lenient)
      (ap (λ b. if b then 1 else 0)
        (ap (ltb 0) (omega arith) ∙ has_error-findings to_lower_case policy cols))

-- With `--strict`, a policy that can be parsed and a path that exists, the command exits with 1
-- exactly if there is any finding, and with 0 otherwise.
run_check-strict :
    (to_lower_case : Bytes → Bytes) (disk : Disk) (args : List Bytes) (root : Bytes)
    (policy : Policy)
    → disk.load_policy (scan_root args root) ≡ some policy
    → disk.exists (scan_root args root) ≡ true
    → includes args (codes "--strict") ≡ true
    → run_check to_lower_case disk args root ≡ (
        let cols = disk.extract_all (scan_root args root) in
        if length (findings to_lower_case policy cols) == 0 then 0 else 1)
unfolding run_check analyze
run_check-strict to_lower_case disk args root policy parsed found strict =
    let all = findings to_lower_case policy (disk.extract_all (scan_root args root)) in
    rw (parsed, found, strict) (ground (arith, length-findings all))
