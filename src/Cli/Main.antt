-- ===== src/Cli/Main.antt =====
-- cli/rivid.mjs: the loading of the native module, and the program from its arguments to the exit code.
pub mod ExitCodes
use rivid.Common.{ℕ, Bool, Option, none, some, List, [], ◌∷◌, Bytes, codes}
use rivid.Js.{Host, Number, Thrown, Outcome, returns, throws}
use rivid.Binding.Source.{Source}
use rivid.Cli.Generate.{Ending, done, exits, fails, ulid_command, uuidv7_command}
use rivid.Cli.Inspect
use rivid.Cli.Inspect.{decode_command, validate_command}
use rivid.Cli.Dispatch.{
  Command, shows, prints_member, generates_ulid, generates_uuidv7, decodes, validates, checks,
  generates_bytes16, prints_version, prints_usage, benchmarks, unknown_command, dispatch,
}

abbrev pub module_paths : List Bytes
module_paths = codes "../index.js" ∷ codes "../../index.js" ∷ codes "@rivid/core" ∷ []

-- The first path that can be required decides.
abbrev pub load_first {ℓ} : {M : Type ℓ} → (Bytes → Option M) → List Bytes → Option M
load_first require [] = none
load_first require (p ∷ paths) = elim (require p) [
  | some core ↦ some core
  | none ↦ load_first require paths
]

unfoldable pub load {ℓ} : {M : Type ℓ} → (Bytes → Option M) → Option M
load require = load_first require module_paths

-- `r.status ?? 1`
abbrev pub status_or_one : Option ℕ → ℕ
status_or_one none = 1
status_or_one (some status) = status

-- The native module, with the state of its generators.
pub record Core : Type 1 where
  pub source : Source
  pub initial : source.State
  pub host : Host
  pub ulid_bytes : source.State → Outcome (Bytes × source.State)

-- `Number`, `Date`, `runCheck`, the benchmark's process with its status, and the path of the package.
pub record Environment : Type 0 where
  pub to_number : Option Bytes → Number
  pub to_iso_string : ℕ → Bytes
  pub run_check : List Bytes → Bytes → Option ℕ
  pub spawn : Bool → Option ℕ
  pub package_root : Bytes

module _ (core : Core) (env : Environment) where
  open core use {source, host, ulid_bytes}
  open env use {to_number, to_iso_string, run_check, spawn, package_root}

  -- An uncaught error ends the process with 1.
  abbrev pub ending_code : Ending source to_number → ℕ
  ending_code (done printed s) = 0
  ending_code (exits n) = n
  ending_code (fails e) = 1

  abbrev pub bytes16_code : Outcome (Bytes × source.State) → ℕ
  bytes16_code (returns (bytes, s)) = 0
  bytes16_code (throws e) = 1

  -- The exit code of a command; `none` where `runCheck` has none.
  unfoldable pub run : source.State → Command → Option ℕ
  run s (shows help) = some 0
  run s (prints_member name) = some 0
  run s (generates_ulid rest) = some (ending_code (ulid_command source to_number rest s))
  run s (generates_uuidv7 rest) = some (ending_code (uuidv7_command source to_number rest s))
  run s (decodes rest) = some (Inspect.exit_code (decode_command host to_iso_string rest))
  run s (validates rest) = some (Inspect.exit_code (validate_command host rest))
  run s (checks rest) = run_check rest package_root
  run s generates_bytes16 = some (bytes16_code (ulid_bytes s))
  run s prints_version = some 0
  run s prints_usage = some 0
  run s (benchmarks quick) = some (status_or_one (spawn quick))
  run s (unknown_command cmd) = some 1

-- The whole program: without a native module it exits with 1.
unfoldable pub main : (require : Bytes → Option Core) → Environment → List Bytes → Option ℕ
main require env argv = elim (load require) [
  | none ↦ some 1
  | some core ↦ run core env core.initial (dispatch argv)
]
