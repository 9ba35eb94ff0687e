-- ===== src/Cli/Audit/Disks.antt =====
-- The command over files against the command over the interface `Disk`.
use rivid.Common.{ℕ, ◌≡◌, refl, inl, inr, Bool, Option, none, some, List, Bytes, codes, Bool-cases}
use rivid.Cli.Columns.{Policy}
use rivid.Cli.Files.{FileSystem, extract_all}
use rivid.Cli.PolicyFile.{Value, Heap}
use rivid.Cli.LoadPolicy.{Loaded, loaded, failed, load_policy}
use rivid.Cli.RunCheck.{Disk, exit_code, includes, scan_root, run_check}
use rivid.Cli.Audit.{policy_of, with_policy, check}

module _ (fs : FileSystem) (exists : Bytes → Bool) (parse_json : Bytes → Option (Heap × Value))
    (to_lower_case : Bytes → Bytes) (depth : ℕ) where
  -- The policy of a file that was loaded is one that the disk has.
  abbrev pub IsPolicy : Option Policy → Loaded → Type 0
  IsPolicy policy (failed path) = policy ≡ none
  IsPolicy policy (loaded heap config path) =
      (p : Policy) × (policy_of heap config ≡ some p) × (policy ≡ some p)

  -- What the disk answers at a path is what the files there give.
  pub record IsDiskAt (disk : Disk) (start : Bytes) : Type 0 where
    pub policies : IsPolicy (disk.load_policy start) (load_policy fs exists parse_json start)
    pub existence : disk.exists start ≡ exists start
    pub columns : (n : ℕ) × (extract_all fs depth start ≡ some (disk.extract_all start, n))

  with_policy-exit_code :
      (disk : Disk) (strict : Bool) (start : Bytes) (l : Loaded)
      → IsPolicy (disk.load_policy start) l
      → disk.exists start ≡ exists start
      → ((n : ℕ) × (extract_all fs depth start ≡ some (disk.extract_all start, n)))
      → with_policy fs exists parse_json to_lower_case depth strict start l
        ≡ some (exit_code to_lower_case disk strict start (disk.load_policy start))
  with_policy-exit_code disk strict start (failed path) p e c = rw p refl
  with_policy-exit_code disk strict start (loaded heap config path) (policy, q, p) e (n, c) =
      elim (Bool-cases (exists start)) [
        | inl there ↦ rw (p, q, c, e, there) refl
        | inr gone ↦ rw (p, q, c, e, gone) refl
      ]

  -- Where an interface `Disk` answers as the files below the scanned path do, the command over the
  -- files ends, with the exit code that the command over the interface has.
  pub check-run_check :
      (disk : Disk) (args : List Bytes) (root : Bytes)
      → IsDiskAt disk (scan_root args root)
      → check fs exists parse_json to_lower_case depth args root
        ≡ some (run_check to_lower_case disk args root)
  unfolding check run_check
  check-run_check disk args root h =
      with_policy-exit_code disk (includes args (codes "--strict")) (scan_root args root) _
        h.policies h.existence h.columns
