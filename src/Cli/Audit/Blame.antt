-- ===== src/Cli/Audit/Blame.antt =====
-- What an exit code of `rivid check` says of the files.
use rivid.Common.{
  ℕ, ◌≡◌, refl, ap, sym, ◌∙◌, ◌⊎◌, inl, inr, Bool, true, false, Option, some, List, [], ◌∷◌, Bytes,
  All, codes, Bool-cases, if◌then◌else◌, arith,
}
use rivid.Cli.Columns.{Column, Policy}
use rivid.Cli.Files.{FileSystem, extract_all}
use rivid.Cli.Files.Walk.{HasDepth}
use rivid.Cli.Files.Sources.{IsFrom, extract_all-IsFrom}
use rivid.Cli.Check.Findings.{any, is_error_column}
use rivid.Cli.PolicyFile.{Value, Heap}
use rivid.Cli.LoadPolicy.{loaded, load_policy}
use rivid.Cli.RunCheck.{Disk, includes, scan_root}
use rivid.Cli.RunCheck.ExitCode.{run_check-errors}
use rivid.Cli.Audit.{policy_of, check}
use rivid.Cli.Audit.Disks.{IsDiskAt, check-run_check}

any-true :
    {P : Column → Type 0} (p : Column → Bool) (cols : List Column)
    → All P cols
    → any p cols ≡ true
    → (c : Column) × P c × (p c ≡ true)
any-true p [] h e = absurd (ground (arith, e))
any-true p (c ∷ cols) h e = elim (Bool-cases (p c)) [
  | inl t ↦ (c, h.0, t)
  | inr f ↦ any-true p cols h.1 (ground (arith, e, f))
]

any-false :
    (p : Column → Bool) (cols : List Column) → any p cols ≡ false → All (λ c. p c ≡ false) cols
any-false p [] e = tt
any-false p (c ∷ cols) e = (ground (arith, e), any-false p cols (ground (arith, e)))

module _ (fs : FileSystem) (exists : Bytes → Bool) (parse_json : Bytes → Option (Heap × Value))
    (to_lower_case : Bytes → Bytes) (depth : ℕ) (args : List Bytes) (root : Bytes) where
  -- The outcome over the columns `cols`: 0 where none of them is an error, and otherwise 1, and some
  -- column from a scanned file is one.
  abbrev pub IsVerdict : Policy → List Column → Type 0
  IsVerdict policy cols =
      ((check fs exists parse_json to_lower_case depth args root ≡ some 0)
        × All (λ c. is_error_column to_lower_case policy cols c ≡ false) cols)
      ⊎ ((check fs exists parse_json to_lower_case depth args root ≡ some 1)
          × ((c : Column) × IsFrom fs (scan_root args root) c
              × (is_error_column to_lower_case policy cols c ≡ true)))

  any-IsVerdict :
      (policy : Policy) (cols : List Column)
      → All (IsFrom fs (scan_root args root)) cols
      → check fs exists parse_json to_lower_case depth args root
        ≡ some (if any (is_error_column to_lower_case policy cols) cols then 1 else 0)
      → IsVerdict policy cols
  any-IsVerdict policy cols from e =
      elim (Bool-cases (any (is_error_column to_lower_case policy cols) cols)) [
        | inl t ↦ inr (e ∙ rw t refl, any-true _ cols from t)
        | inr f ↦ inl (e ∙ rw f refl, any-false _ cols f)
      ]

  -- `rivid check` without `--strict`, on a path that exists, with directories that nest less than
  -- `depth` deep and a policy file, if there is one, whose entries are strings: the command ends with 0
  -- or 1. It is 0 where no extracted column is an error by the policy; it is 1 where some is, and that
  -- column comes from a readable file below the path that the walk does not skip.
  pub check-blames :
      (heap : Heap) (config : Value) (path : Option Bytes) (policy : Policy)
      → HasDepth fs depth (scan_root args root)
      → load_policy fs exists parse_json (scan_root args root) ≡ loaded heap config path
      → policy_of heap config ≡ some policy
      → exists (scan_root args root) ≡ true
      → includes args (codes "--strict") ≡ false
      → (cols : List Column) × (n : ℕ) × (extract_all fs depth (scan_root args root)
          ≡ some (cols, n))
        × IsVerdict policy cols
  check-blames heap config path policy deep parsed readable there lenient =
      let (files, cols, walked, extracted, from) =
        extract_all-IsFrom fs (scan_root args root) depth deep in
      let disk : Disk = record {
        load_policy = λ start. some policy;
        exists = λ start. true;
        extract_all = λ start. cols;
      } in
      let same : IsDiskAt fs exists parse_json to_lower_case depth disk (scan_root args root) =
        record {
          policies = rw parsed (policy, readable, refl);
          existence = sym there;
          columns = (_, extracted);
        } in
      (
        cols,
        _,
        extracted,
        any-IsVerdict policy cols from (
            check-run_check fs exists parse_json to_lower_case depth disk args root same
            ∙ ap some (run_check-errors to_lower_case disk args root policy refl refl lenient)),
      )
