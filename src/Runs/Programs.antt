-- ===== src/Runs/Programs.antt =====
-- The whole program on a path that does not exist, and without a native module.
use rivid.Common.{ℕ, ◌≡◌, refl, false, Option, none, some, List, [], ◌∷◌, Bytes, codes}
use rivid.Js.{Host, not_a_number, returns}
use rivid.Cli.LoadPolicy.{load_policy, load_from}
use rivid.Cli.Dispatch.{dispatch, with_rest, command}
use rivid.Cli.Audit.{check}
use rivid.Cli.Main.{Core, Environment, load, run, main}
use rivid.Cli.Main.ExitCodes.{over_files}
use rivid.Runs.Rows.{counter}
use rivid.Runs.Folders.{folders}

abbrev same_host : Host
same_host = record { utf8 = λ s. s; utf8_ascii = λ s h. refl; ascii_utf8 = λ s h. refl }

abbrev counting : Core
counting = record {
  source = counter;
  initial = 0;
  host = same_host;
  ulid_bytes = λ s. returns ([], s);
}

abbrev nothing_else : Environment
nothing_else = record {
  to_number = λ s. not_a_number;
  to_iso_string = λ ts. [];
  run_check = λ args root. none;
  spawn = λ quick. none;
  package_root = codes "p";
}

abbrev missing : List Bytes
missing = codes "check" ∷ codes "q" ∷ []

abbrev program : (Bytes → Option Core) → List Bytes → Option ℕ
program require argv =
    main require (over_files folders (λ path. false) (λ raw. none) (λ s. s) 2 nothing_else) argv

program-missing : program (λ p. some counting) missing ≡ some 2
unfolding main load run dispatch with_rest command check load_policy load_from
program-missing = refl

program-unloaded : program (λ p. none) missing ≡ some 1
unfolding main load
program-unloaded = refl
