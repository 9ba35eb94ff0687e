-- ===== src/Cli/Main/ExitCodes.antt =====
-- The exit codes of the program, with `runCheck` over files.
use rivid.Common.{ℕ, ◌≤◌, ◌≡◌, ◌⊎◌, Bool, true, false, Option, none, some, List, Bytes}
use rivid.Cli.Files.{FileSystem, extract_all}
use rivid.Cli.PolicyFile.{Value, Heap}
use rivid.Cli.LoadPolicy.{loaded, failed, load_policy}
use rivid.Cli.RunCheck.{scan_root}
use rivid.Cli.Generate.{Ending}
use rivid.Cli.Inspect
use rivid.Cli.Dispatch.{checks, benchmarks, dispatch}
use rivid.Cli.Audit.{policy_of, check}
use rivid.Cli.Main.{Core, Environment, ending_code, status_or_one}

module _ (core : Core) (env : Environment) where
  -- The program ends with 0 or 1.
  IsUsual : Ending core.source env.to_number → Type 0
  IsUsual e = ending_code core env e ≤ 1

module _ (fs : FileSystem) (exists : Bytes → Bool) (parse_json : Bytes → Option (Heap × Value))
    (to_lower_case : Bytes → Bytes) (depth : ℕ) where
  -- The policy at the path cannot be read or parsed, or there is no such path.
  abbrev pub IsUnusable : Bytes → Type 0
  IsUnusable start =
      ((path : Bytes) × (load_policy fs exists parse_json start ≡ failed path))
      ⊎ (exists start ≡ false)

  -- An exit code is 0 or 1, or 2 for an unusable path.
  abbrev pub IsCheckCode : Bytes → ℕ → Type 0
  IsCheckCode start n = (n ≤ 1) ⊎ ((n ≡ 2) × IsUnusable start)

  -- There is a policy and the path exists, but an entry of the policy is no string, or the walk from
  -- the path is deeper than `depth`.
  abbrev pub IsUnanswered : Bytes → Type 0
  IsUnanswered start =
      (heap : Heap) × (config : Value) × (path : Option Bytes) × (load_policy fs exists parse_json
          start
        ≡ loaded heap config path)
      × (exists start ≡ true)
      × ((policy_of heap config ≡ none) ⊎ (extract_all fs depth start ≡ none))

  -- The environment with `runCheck` over the files.
  abbrev pub over_files : Environment → Environment
  over_files env = record env { run_check = check fs exists parse_json to_lower_case depth }

  -- What an exit code says of the arguments: 0 or 1; or 2, and the command was check, on a path that
  -- is unusable; or the command was benchmark, and its status, or 1 if it has none.
  abbrev pub IsExitCode : Environment → List Bytes → ℕ → Type 0
  IsExitCode env argv n =
      (n ≤ 1)
      ⊎ (((rest : List Bytes) × (dispatch argv ≡ checks rest)
            × (n ≡ 2)
            × IsUnusable (scan_root rest env.package_root))
          ⊎ ((quick : Bool) × (dispatch argv ≡ benchmarks quick)
              × (n ≡ status_or_one (env.spawn quick))))

  -- No exit code only where the command was check, on a path that has no answer.
  abbrev pub IsOutcome : Environment → List Bytes → Option ℕ → Type 0
  IsOutcome env argv (some n) = IsExitCode env argv n
  IsOutcome env argv none =
      (rest : List Bytes) × (dispatch argv ≡ checks rest)
      × IsUnanswered (scan_root rest env.package_root)
