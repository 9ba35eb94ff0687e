-- ===== src/Cli/Check/Findings.antt =====
-- What the audit reports, and the exit code.
use rivid.Common.{
  ◌+◌, ◌≡◌, refl, ap, ap₂, ◌∙◌, inl, inr, Bool, true, false, not, ◌&&◌, ◌||◌, Option, none, some,
  List, [], ◌∷◌, ◌++◌, Bytes, codes, length, All, ltb, str_eq, if◌then◌else◌, Option-cases, arith,
}
use rivid.Cli.Columns.{
  Column, Policy, Finding, error, warning, uuid_as_text, unbounded_text_id, ulid_as_uuid, is_family,
  is_text_like, is_uuid_like,
}
use rivid.Cli.Check.{
  classify, allowed, check_column, target_of, check_fk, check_drift, collect, findings, errors,
  warnings,
}

-- Some finding is an error.
abbrev pub has_error : List Finding → Bool
has_error found = ltb 0 (errors found)

abbrev pub any : (Column → Bool) → List Column → Bool
any p [] = false
any p (c ∷ cols) = p c || any p cols

has_error-append : (xs ys : List Finding) → has_error (xs ++ ys) ≡ (has_error xs || has_error ys)
has_error-append [] ys = refl
has_error-append (x ∷ xs) ys = ground (arith, has_error-append xs ys)

has_error-three :
    (xs ys zs : List Finding)
    → has_error (xs ++ ys ++ zs) ≡ ((has_error xs || has_error ys) || has_error zs)
has_error-three xs ys zs =
    has_error-append (xs ++ ys) zs ∙ ap (λ b. b || has_error zs) (has_error-append xs ys)

and-or : (a b c : Bool) → ((a && b) || (a && c)) ≡ (a && (b || c))
and-or true b c = refl
and-or false b c = refl

or-false : (a : Bool) → (a || false) ≡ a
or-false true = refl
or-false false = refl

any-or :
    (p q : Column → Bool) (cols : List Column)
    → (any p cols || any q cols) ≡ any (λ c. p c || q c) cols
any-or p q [] = refl
any-or p q (c ∷ cols) = ground (arith, any-or p q cols)

any-ext :
    (p q : Column → Bool)
    → ((c : Column) → p c ≡ q c)
    → (cols : List Column) → any p cols ≡ any q cols
any-ext p q h [] = refl
any-ext p q h (c ∷ cols) = ap₂ (λ a b. a || b) (h c) (any-ext p q h cols)

pub All-append :
    (P : Finding → Type 0) (xs ys : List Finding) → All P xs → All P ys → All P (xs ++ ys)
All-append P [] ys h k = k
All-append P (x ∷ xs) ys h k = (h.0, All-append P xs ys h.1 k)

pub length-findings : (found : List Finding) → errors found + warnings found ≡ length found
length-findings [] = refl
length-findings (f ∷ found) = ground (arith, length-findings found)

-- The findings of rules 1 to 3, by the tests they make.
unfoldable pub rules_1_to_3 : (exempt uuid text_like text ulid : Bool) → Column → List Finding
rules_1_to_3 exempt uuid text_like text ulid c =
    if exempt
    then []
    else (if uuid && text_like
        then record {
          severity = if text then error else warning;
          rule = uuid_as_text;
          column = some c;
        }
          ∷ []
        else [])
      ++ (if text_like && text
          then record { severity = warning; rule = unbounded_text_id; column = some c } ∷ []
          else [])
      ++ (if ulid
          then record { severity = warning; rule = ulid_as_uuid; column = some c } ∷ []
          else [])

has_error-rules :
    (exempt uuid text_like text ulid : Bool) (c : Column)
    → (text ≡ true → text_like ≡ true)
    → has_error (rules_1_to_3 exempt uuid text_like text ulid c) ≡ (not exempt && (uuid && text))
unfolding rules_1_to_3
has_error-rules true uuid text_like text ulid c h = refl
has_error-rules false false text_like text ulid c h = ground arith
has_error-rules false true true text ulid c h = ground arith
has_error-rules false true false text ulid c h = ground (arith, h)

text-text_like : (rep : Bytes) → str_eq rep (codes "text") ≡ true → is_text_like rep ≡ true
unfolding is_text_like
text-text_like rep h = rw h

module _ (to_lower_case : Bytes → Bytes) (policy : Policy) where
  -- The identifier is a UUID by the policy and is stored as text of unbounded width.
  abbrev pub is_unbounded_uuid : Column → Bool
  is_unbounded_uuid c =
      is_family (classify to_lower_case policy c) (codes "uuidv7") && str_eq c.rep (codes "text")

  abbrev differs : Option Column → Column → Bool
  differs none c = false
  differs (some target) c = not (str_eq target.rep c.rep)

  -- The representation is not that of the column that the foreign key refers to.
  abbrev pub is_mismatched : List Column → Column → Bool
  is_mismatched cols c = differs (target_of to_lower_case policy cols c) c

  abbrev pub is_error_column : List Column → Column → Bool
  is_error_column cols c =
      not (allowed to_lower_case policy c) && (is_unbounded_uuid c || is_mismatched cols c)

  pub check_column-rules :
      (c : Column)
      → check_column to_lower_case policy c
        ≡ rules_1_to_3
            (allowed to_lower_case policy c)
            (is_family (classify to_lower_case policy c) (codes "uuidv7"))
            (is_text_like c.rep)
            (str_eq c.rep (codes "text"))
            (is_family (classify to_lower_case policy c) (codes "ulid")
              && is_uuid_like c.rep
              && is_family policy.database (codes "ulid"))
            c
  unfolding check_column rules_1_to_3
  check_column-rules c = refl

  has_error-check_column :
      (c : Column)
      → has_error (check_column to_lower_case policy c)
        ≡ (not (allowed to_lower_case policy c) && is_unbounded_uuid c)
  has_error-check_column c =
      rw (check_column-rules c)
        (has_error-rules _ _ (is_text_like c.rep) _ _ c (text-text_like c.rep))

  has_error-check_fk :
      (cols : List Column) (c : Column)
      → has_error (check_fk to_lower_case policy cols c)
        ≡ (not (allowed to_lower_case policy c) && is_mismatched cols c)
  unfolding check_fk
  has_error-check_fk cols c = elim (Option-cases (target_of to_lower_case policy cols c)) [
    | inl e ↦ ground (arith, e)
    | inr (target, e) ↦ ground (arith, e)
  ]

  has_error-collect :
      (check : Column → List Finding) (cols : List Column)
      → has_error (collect to_lower_case policy check cols) ≡ any (λ c. has_error (check c)) cols
  unfolding collect
  has_error-collect check [] = refl
  has_error-collect check (c ∷ cols) =
      has_error-append (check c) (collect to_lower_case policy check cols)
      ∙ ap (λ b. has_error (check c) || b) (has_error-collect check cols)

  has_error-check_drift :
      (cols : List Column) → has_error (check_drift to_lower_case policy cols) ≡ false
  unfolding check_drift
  has_error-check_drift cols = ground arith

  column_error :
      (cols : List Column) (c : Column)
      → (has_error (check_column to_lower_case policy c)
          || has_error (check_fk to_lower_case policy cols c))
        ≡ is_error_column cols c
  column_error cols c =
      ap₂ (λ a b. a || b) (has_error-check_column c) (has_error-check_fk cols c)
      ∙ and-or (not (allowed to_lower_case policy c)) (is_unbounded_uuid c) (is_mismatched cols c)

  -- An error is reported exactly if some column is at fault.
  pub has_error-findings :
      (cols : List Column)
      → has_error (findings to_lower_case policy cols) ≡ any (is_error_column cols) cols
  unfolding findings
  has_error-findings cols =
      has_error-three (collect to_lower_case policy (check_column to_lower_case policy) cols)
        (collect to_lower_case policy (check_fk to_lower_case policy cols) cols)
        (check_drift to_lower_case policy cols)
      ∙ rw
          (
            has_error-check_drift cols,
            has_error-collect (check_column to_lower_case policy) cols,
            has_error-collect (check_fk to_lower_case policy cols) cols,
          )
          (or-false _
            ∙ any-or (λ c. has_error (check_column to_lower_case policy c))
                (λ c. has_error (check_fk to_lower_case policy cols c)) cols
            ∙ any-ext
                (λ c.
                  has_error (check_column to_lower_case policy c)
                  || has_error (check_fk to_lower_case policy cols c))
                (is_error_column cols) (column_error cols) cols)
