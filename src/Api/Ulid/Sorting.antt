-- ===== src/Api/Ulid/Sorting.antt =====
-- `sort` and `sortInPlace` of src/ulid.ts.
use rivid.Common.{
  ℕ, ◌≡◌, refl, ap, ◌∙◌, inl, inr, true, false, none, some, List, [], ◌∷◌, Bytes, All, Bool-cases,
  arith,
}
use rivid.Engine.Error.{Result, ok, err}
use rivid.Engine.Crockford.{decode_chars}
use rivid.Binding.{compare_ulids}
use rivid.Js.{Host, Outcome, returns, throws}
use rivid.Js.Sort.{sort_by, code_unit_order, order_of, IsSortOf}
use rivid.Js.Sort.Laws.{sort_by-IsSortOf}
use rivid.Api.Ulid.{
  is_canonical, validate_and_detect_case, SortOptions, skips_validation, ulid_sort, sort,
  sort_in_place,
}
use rivid.Api.Ulid.Chars.{decode_chars-is_valid}
use rivid.Api.Ulid.Compare.{compare_ulids-values, str_lt-values}
use rivid.Api.Ulid.Validation.{
  any_mixed, first_invalid, complaint, validate-verdict, is_canonical-upper,
}

-- The 128-bit value of a ULID string; 0 for any other string.
abbrev pub value_of : Result ℕ → ℕ
value_of (ok v) = v
value_of (err e) = 0

abbrev pub ulid_value : Bytes → ℕ
ulid_value s = value_of (decode_chars s)

-- A string that decodes, in either case.
abbrev pub IsUlid : Bytes → Type 0
IsUlid s = decode_chars s ≡ ok (ulid_value s)

first_invalid-ulids : (ids : List Bytes) → All IsUlid ids → first_invalid ids ≡ none
first_invalid-ulids [] h = refl
first_invalid-ulids (id ∷ ids) h =
    rw (decode_chars-is_valid id (ulid_value id) h.0) (first_invalid-ulids ids h.1)

validate-ulids :
    (ids : List Bytes) → All IsUlid ids → validate_and_detect_case ids ≡ returns (any_mixed ids)
validate-ulids ids h = rw (validate-verdict ids, first_invalid-ulids ids h)

-- A ULID in canonical form.
abbrev pub IsUpper : Bytes → Type 0
IsUpper s = IsUlid s × (is_canonical s ≡ true)

All-IsUpper : (ids : List Bytes) → All IsUlid ids → any_mixed ids ≡ false → All IsUpper ids
All-IsUpper [] h k = tt
All-IsUpper (id ∷ ids) h k = (
  (h.0, is_canonical-upper id (decode_chars-is_valid id _ h.0) (ground arith)),
  All-IsUpper ids h.1 (ground arith),
)

order-upper :
    (host : Host) (x y : Bytes)
    → IsUpper x
    → IsUpper y
    → code_unit_order x y ≡ returns (order_of (ulid_value x) (ulid_value y))
order-upper host x y hx hy =
    rw (
      str_lt-values host x y _ _ hx.0 hy.0 hx.1 hy.1,
      str_lt-values host y x _ _ hy.0 hx.0 hy.1 hx.1,
    )

ulid_sort-IsSortOf :
    (host : Host) (ids : List Bytes) (opts : SortOptions)
    → skips_validation opts ≡ false
    → All IsUlid ids
    → (ys : List Bytes) × (ulid_sort host ids opts ≡ returns ys) × IsSortOf ulid_value ids ys
unfolding ulid_sort
ulid_sort-IsSortOf host ids opts k h =
    rw (k, validate-ulids ids h)
      (elim (Bool-cases (any_mixed ids)) [
        | inl m ↦ rw m (
            sort_by-IsSortOf ulid_value (compare_ulids host) IsUlid
              (λ x y hx hy. compare_ulids-values host x y _ _ hx hy) ids h)
        | inr m ↦ rw m (
            sort_by-IsSortOf ulid_value code_unit_order IsUpper (order-upper host) ids
              (All-IsUpper ids h m))
      ])

ulid_sort-unvalidated :
    (host : Host) (ids : List Bytes) (opts : SortOptions)
    → skips_validation opts ≡ true
    → ulid_sort host ids opts ≡ sort_by code_unit_order ids
unfolding ulid_sort
ulid_sort-unvalidated host ids opts k = rw k

ulid_sort-invalid :
    (host : Host) (ids : List Bytes) (opts : SortOptions) (id : Bytes)
    → skips_validation opts ≡ false
    → first_invalid ids ≡ some id
    → ulid_sort host ids opts ≡ throws (complaint id)
unfolding ulid_sort
ulid_sort-invalid host ids opts id k h = rw (k, validate-verdict ids, h)

-- What `sortInPlace` makes of the sort's outcome.
abbrev in_place : List Bytes → Outcome (List Bytes) → List Bytes × Outcome (Unit {0})
in_place ids (returns sorted) = (sorted, returns tt)
in_place ids (throws e) = (ids, throws e)

sort_in_place-eq :
    (host : Host) (ids : List Bytes) (opts : SortOptions) (r : Outcome (List Bytes))
    → ulid_sort host ids opts ≡ r
    → (sort host ids opts ≡ r) × (sort_in_place host ids opts ≡ in_place ids r)
unfolding sort sort_in_place
sort_in_place-eq host ids opts (returns sorted) h = (h, ap (in_place ids) h)
sort_in_place-eq host ids opts (throws e) h = (h, ap (in_place ids) h)

-- With validation on, `sort` and `sortInPlace` of ULIDs in any case both succeed with the same list:
-- the identifiers ascending by their 128-bit values, those of equal value in the order they had.
pub sort-IsSortOf :
    (host : Host) (ids : List Bytes) (opts : SortOptions)
    → skips_validation opts ≡ false
    → All IsUlid ids
    → (ys : List Bytes) × (sort host ids opts ≡ returns ys)
      × (sort_in_place host ids opts ≡ (ys, returns tt))
      × IsSortOf ulid_value ids ys
sort-IsSortOf host ids opts k h =
    let (ys, sorted, is_sort) = ulid_sort-IsSortOf host ids opts k h in
    let (copied, in_place) = sort_in_place-eq host ids opts (returns ys) sorted in
    (ys, copied, in_place, is_sort)

-- With validation skipped, `sort` and `sortInPlace` of canonical (upper-case) ULIDs still succeed
-- with the identifiers ascending by their 128-bit values.
pub sort-unvalidated :
    (host : Host) (ids : List Bytes) (opts : SortOptions)
    → skips_validation opts ≡ true
    → All IsUpper ids
    → (ys : List Bytes) × (sort host ids opts ≡ returns ys)
      × (sort_in_place host ids opts ≡ (ys, returns tt))
      × IsSortOf ulid_value ids ys
sort-unvalidated host ids opts k h =
    let (ys, sorted, is_sort) =
      sort_by-IsSortOf ulid_value code_unit_order IsUpper (order-upper host) ids h in
    let (copied, in_place) =
      sort_in_place-eq host ids opts (returns ys)
        (ulid_sort-unvalidated host ids opts k ∙ sorted) in
    (ys, copied, in_place, is_sort)

-- With validation on and some identifier that the engine's format check refuses, `sort` and
-- `sortInPlace` throw about the first such identifier, and the caller's array is as it was.
pub sort-invalid :
    (host : Host) (ids : List Bytes) (opts : SortOptions) (id : Bytes)
    → skips_validation opts ≡ false
    → first_invalid ids ≡ some id
    → (sort host ids opts ≡ throws (complaint id))
      × (sort_in_place host ids opts ≡ (ids, throws (complaint id)))
sort-invalid host ids opts id k h =
    sort_in_place-eq host ids opts (throws (complaint id)) (ulid_sort-invalid host ids opts id k h)
