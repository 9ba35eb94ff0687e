-- ===== src/Cli/Check/Policies.antt =====
-- What a policy exempts from the audit, and what is reported without one.
use rivid.Common.{
  ◌≡◌, refl, inl, inr, Bool, true, false, ◌&&◌, Option, none, some, List, [], ◌∷◌, ◌++◌, Bytes,
  codes, All, str_eq, if◌then◌else◌, Bool-cases, Option-cases, arith,
}
use rivid.Cli.Columns.{
  Column, Policy, Finding, error, warning, Rule, uuid_as_text, unbounded_text_id, ulid_as_uuid,
  fk_mismatch, pk_drift, is_family, is_text_like,
}
use rivid.Cli.Check.{
  classify, allowed, check_column, target_of, check_fk, check_drift, collect, findings,
}
use rivid.Cli.Check.Findings.{All-append, rules_1_to_3, check_column-rules}

module _ (P : Finding → Type 0) where
  All-guard : (b : Bool) (f : Finding) → (b ≡ true → P f) → All P (if b then f ∷ [] else [])
  All-guard true f h = (h refl, tt)
  All-guard false f h = tt

  All-collect :
      (to_lower_case : Bytes → Bytes) (policy : Policy) (check : Column → List Finding)
      → ((c : Column) → All P (check c))
      → (cols : List Column) → All P (collect to_lower_case policy check cols)
  unfolding collect
  All-collect to_lower_case policy check h [] = tt
  All-collect to_lower_case policy check h (c ∷ cols) =
      All-append P (check c) _ (h c) (All-collect to_lower_case policy check h cols)

-- What holds of the findings of rules 1 to 3 that can be made, holds of those that are made.
All-rules :
    (P : Finding → Type 0) (exempt uuid text_like text ulid : Bool) (c : Column)
    → (exempt ≡ false
        → uuid ≡ true
        → P (record {
          severity = if text then error else warning;
          rule = uuid_as_text;
          column = some c;
        }))
    → (exempt ≡ false
        → P (record { severity = warning; rule = unbounded_text_id; column = some c }))
    → (exempt ≡ false
        → ulid ≡ true
        → P (record { severity = warning; rule = ulid_as_uuid; column = some c }))
    → All P (rules_1_to_3 exempt uuid text_like text ulid c)
unfolding rules_1_to_3
All-rules P true uuid text_like text ulid c p q r = tt
All-rules P false uuid text_like text ulid c p q r =
    let first : Finding = record {
      severity = if text then error else warning;
      rule = uuid_as_text;
      column = some c;
    } in
    let second : Finding = record {
      severity = warning;
      rule = unbounded_text_id;
      column = some c;
    } in
    let third : Finding = record { severity = warning; rule = ulid_as_uuid; column = some c } in
    let xs : List Finding = if uuid && text_like then first ∷ [] else [] in
    let ys : List Finding = if text_like && text then second ∷ [] else [] in
    let zs : List Finding = if ulid then third ∷ [] else [] in
    All-append P (xs ++ ys) zs
      (All-append P xs ys (All-guard P (uuid && text_like) first (λ h. p refl (ground arith)))
        (All-guard P (text_like && text) second (λ h. q refl)))
      (All-guard P ulid third (λ h. r refl h))

module _ (to_lower_case : Bytes → Bytes) (policy : Policy) where
  abbrev pub is_exempt : Option Column → Bool
  is_exempt none = false
  is_exempt (some c) = allowed to_lower_case policy c

  abbrev Reports : Finding → Type 0
  Reports f = is_exempt f.column ≡ false

  check_column-Reports : (c : Column) → All Reports (check_column to_lower_case policy c)
  check_column-Reports c = rw (check_column-rules to_lower_case policy c) (
      All-rules Reports _ _ (is_text_like c.rep) (str_eq c.rep (codes "text")) _ c (λ e h. e)
        (λ e. e) (λ e h. e))

  check_fk-Reports :
      (cols : List Column) (c : Column) → All Reports (check_fk to_lower_case policy cols c)
  unfolding check_fk
  check_fk-Reports cols c = elim (Bool-cases (allowed to_lower_case policy c)) [
    | inl e ↦ rw e tt
    | inr e ↦ rw e (elim (Option-cases (target_of to_lower_case policy cols c)) [
      | inl n ↦ rw n tt
      | inr (target, t) ↦
          rw t
            (elim (Bool-cases (str_eq target.rep c.rep)) [ inl s ↦ rw s tt | inr s ↦ rw s (e, tt) ])
    ])
  ]

  drift-Reports : (cols : List Column) → All Reports (check_drift to_lower_case policy cols)
  unfolding check_drift
  drift-Reports cols =
      All-guard Reports _ (record { severity = warning; rule = pk_drift; column = none })
        (λ h. refl)

  -- Whatever the columns and the policy, no finding is about a column that the policy allows.
  findings-exempt :
      (cols : List Column)
      → All (λ f. is_exempt f.column ≡ false) (findings to_lower_case policy cols)
  unfolding findings
  findings-exempt cols =
      let columns = collect to_lower_case policy (check_column to_lower_case policy) cols in
      let keys = collect to_lower_case policy (check_fk to_lower_case policy cols) cols in
      All-append Reports (columns ++ keys) (check_drift to_lower_case policy cols)
        (All-append Reports columns keys
          (All-collect Reports to_lower_case policy _ check_column-Reports cols)
          (All-collect Reports to_lower_case policy _ (check_fk-Reports cols) cols))
        (drift-Reports cols)

abbrev pub no_policy : Policy
no_policy = record {
  database = none;
  public_ids = none;
  events = none;
  idempotency = none;
  allow = [];
}

-- A finding about text of unbounded width or about a foreign key.
abbrev pub is_structural : Rule → Bool
is_structural unbounded_text_id = true
is_structural fk_mismatch = true
is_structural uuid_as_text = false
is_structural ulid_as_uuid = false
is_structural pk_drift = false

module _ (to_lower_case : Bytes → Bytes) where
  abbrev IsStructural : Finding → Type 0
  IsStructural f = is_structural f.rule ≡ true

  -- Without a policy no identifier is taken for a UUID.
  classify-no_policy :
      (c : Column) → is_family (classify to_lower_case no_policy c) (codes "uuidv7") ≡ false
  unfolding classify
  classify-no_policy c = ground arith

  check_column-IsStructural :
      (c : Column) → All IsStructural (check_column to_lower_case no_policy c)
  check_column-IsStructural c = rw (check_column-rules to_lower_case no_policy c) (
      All-rules IsStructural _ _ (is_text_like c.rep) (str_eq c.rep (codes "text")) _ c
        (λ e h. ground (arith, classify-no_policy c)) (λ e. refl) (λ e h. ground arith))

  check_fk-IsStructural :
      (cols : List Column) (c : Column) → All IsStructural (check_fk to_lower_case no_policy cols c)
  unfolding check_fk
  check_fk-IsStructural cols c = elim (Bool-cases (allowed to_lower_case no_policy c)) [
    | inl e ↦ rw e tt
    | inr e ↦ rw e (elim (Option-cases (target_of to_lower_case no_policy cols c)) [
      | inl n ↦ rw n tt
      | inr (target, t) ↦ rw t (elim (Bool-cases (str_eq target.rep c.rep)) [
        | inl s ↦ rw s tt
        | inr s ↦ rw s (refl, tt)
      ])
    ])
  ]

  -- Without a policy, every finding is about text of unbounded width or about a foreign key: none is
  -- about the family of an identifier or about drift.
  pub findings-no_policy :
      (cols : List Column)
      → All (λ f. is_structural f.rule ≡ true) (findings to_lower_case no_policy cols)
  unfolding findings check_drift
  findings-no_policy cols =
      let columns = collect to_lower_case no_policy (check_column to_lower_case no_policy) cols in
      let keys = collect to_lower_case no_policy (check_fk to_lower_case no_policy cols) cols in
      All-append IsStructural (columns ++ keys) []
        (All-append IsStructural columns keys
          (All-collect IsStructural to_lower_case no_policy _ check_column-IsStructural cols)
          (All-collect IsStructural to_lower_case no_policy _ (check_fk-IsStructural cols) cols))
        tt
