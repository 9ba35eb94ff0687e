-- ===== src/Cli/Check.antt =====
-- cli/check.mjs: the audit of the extracted columns. `toLowerCase` of the language is a parameter.
pub mod Findings
pub mod Policies
use rivid.Common.{
  ℕ, zero, suc, ◌+◌, ◌-◌, Bool, true, false, not, ◌&&◌, ◌||◌, Option, none, some, List, [], ◌∷◌,
  ◌++◌, Bytes, codes, length, drop, map, leb, ltb, ◌==◌, str_eq, if◌then◌else◌,
}
use rivid.Cli.Columns.{
  Column, Policy, Severity, error, warning, Rule, uuid_as_text, unbounded_text_id, ulid_as_uuid,
  fk_mismatch, pk_drift, Finding, starts_with, contains, ends_with, ascii_lower, is_uuid_like,
  is_text_like, is_public_id, or_else, is_given, is_family, same_family,
}

-- `${table}.${column}`
abbrev key_of : Bytes → Bytes → Bytes
key_of table column = table ++ codes "." ++ column

abbrev has : List (Bytes × Bytes) → Bytes → Bool
has [] key = false
has ((table, column) ∷ allow) key = str_eq (key_of table column) key || has allow key

-- The last column with the key, as the map built from all the columns has it.
abbrev by_key : List Column → Bytes → Option Column
by_key [] key = none
by_key (c ∷ cols) key = elim (by_key cols key) [
  | some found ↦ some found
  | none ↦ if str_eq (key_of c.table c.column) key then some c else none
]

-- `Map.set`: a key that is there keeps its place.
abbrev map_set : List (Bytes × Bytes) → Bytes → Bytes → List (Bytes × Bytes)
map_set [] k v = (k, v) ∷ []
map_set ((k', u) ∷ entries) k v =
    if str_eq k' k then (k', v) ∷ entries else (k', u) ∷ map_set entries k v

-- `new Set(values).size > 1`: some value differs from the first.
abbrev more_than_one : List (Bytes × Bytes) → Bool
more_than_one [] = false
more_than_one ((k, v) ∷ entries) = differs v entries
  where
    differs : Bytes → List (Bytes × Bytes) → Bool
    differs v [] = false
    differs v ((k, u) ∷ entries) = not (str_eq u v) || differs v entries

module _ (to_lower_case : Bytes → Bytes) (policy : Policy) where
  unfoldable pub classify : Column → Option Bytes
  unfolding is_public_id
  classify col =
      let name = to_lower_case col.column in
      if is_public_id name || str_eq (map ascii_lower col.column) (codes "publicid")
      then some (or_else policy.public_ids (codes "ulid"))
      else if contains (codes "idempot") name
      then some (or_else policy.idempotency (codes "random128"))
      else if contains (codes "event") (to_lower_case col.table) && is_given policy.events
      then policy.events
      else policy.database

  unfoldable pub allowed : Column → Bool
  allowed c =
      has policy.allow (key_of c.table c.column) || has policy.allow (key_of c.table (codes "*"))

  -- Rules 1 to 3 on a column.
  unfoldable pub check_column : Column → List Finding
  check_column c =
      let family = classify c in
      if allowed c
      then []
      else (if is_family family (codes "uuidv7") && is_text_like c.rep
          then record {
            severity = if str_eq c.rep (codes "text") then error else warning;
            rule = uuid_as_text;
            column = some c;
          }
            ∷ []
          else [])
        ++ (if is_text_like c.rep && str_eq c.rep (codes "text")
            then record { severity = warning; rule = unbounded_text_id; column = some c } ∷ []
            else [])
        ++ (if is_family family (codes "ulid")
              && is_uuid_like c.rep
              && is_family policy.database (codes "ulid")
            then record { severity = warning; rule = ulid_as_uuid; column = some c } ∷ []
            else [])

  -- The column that a foreign key refers to, if it is among the columns and not allowed.
  unfoldable pub target_of : List Column → Column → Option Column
  target_of cols c = elim c.fk [
    | none ↦ none
    | some (table, column) ↦
        if is_given table
        then elim (by_key cols (key_of (or_else table []) column)) [
          | none ↦ none
          | some target ↦ if allowed target then none else some target
        ]
        else none
  ]

  -- Rule 4 on a column.
  unfoldable pub check_fk : List Column → Column → List Finding
  check_fk cols c = if allowed c then [] else elim (target_of cols c) [
    | none ↦ []
    | some target ↦
        if str_eq target.rep c.rep
        then []
        else record { severity = error; rule = fk_mismatch; column = some c } ∷ []
  ]

  unfoldable pub bucket : Bytes → Bytes
  bucket rep =
      if is_uuid_like rep
      then codes "uuid-like"
      else if is_text_like rep
      then codes "text-like"
      else rep

  -- `pkReps` behind the columns.
  unfoldable pub pk_reps : List Column → List (Bytes × Bytes) → List (Bytes × Bytes)
  pk_reps [] reps = reps
  pk_reps (c ∷ cols) reps =
      if not c.pk || allowed c || not (same_family (classify c) policy.database)
      then pk_reps cols reps
      else pk_reps cols (map_set reps c.table (bucket c.rep))

  -- Rule 5.
  unfoldable pub check_drift : List Column → List Finding
  check_drift cols =
      if is_given policy.database && more_than_one (pk_reps cols [])
      then record { severity = warning; rule = pk_drift; column = none } ∷ []
      else []

  unfoldable pub collect : (Column → List Finding) → List Column → List Finding
  collect check [] = []
  collect check (c ∷ cols) = check c ++ collect check cols

  unfoldable pub findings : List Column → List Finding
  findings cols = collect check_column cols ++ collect (check_fk cols) cols ++ check_drift cols

abbrev pub is_error : Severity → Bool
is_error error = true
is_error warning = false

abbrev pub errors : List Finding → ℕ
errors [] = 0
errors (f ∷ fs) = if is_error f.severity then suc (errors fs) else errors fs

abbrev pub warnings : List Finding → ℕ
warnings [] = 0
warnings (f ∷ fs) = if is_error f.severity then warnings fs else suc (warnings fs)

-- `byRep[rep] = (byRep[rep] ?? 0) + 1`
abbrev count_rep : List (Bytes × ℕ) → Bytes → List (Bytes × ℕ)
count_rep [] rep = (rep, 1) ∷ []
count_rep ((r, n) ∷ reps) rep =
    if str_eq r rep then (r, n + 1) ∷ reps else (r, n) ∷ count_rep reps rep

abbrev by_rep : List Column → List (Bytes × ℕ) → List (Bytes × ℕ)
by_rep [] reps = reps
by_rep (c ∷ cols) reps = by_rep cols (count_rep reps c.rep)

pub record Summary : Type 0 where
  pub identifiers : ℕ
  pub by_representation : List (Bytes × ℕ)
  pub error_count : ℕ
  pub warning_count : ℕ

unfoldable pub analyze : (Bytes → Bytes) → List Column → Policy → List Finding × Summary
analyze to_lower_case cols policy =
    let found = findings to_lower_case policy cols in
    (
      found,
      record {
        identifiers = length cols;
        by_representation = by_rep cols [];
        error_count = errors found;
        warning_count = warnings found;
      },
    )
