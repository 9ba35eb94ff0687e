-- ===== src/Api/Ulid.antt =====
-- src/ulid.ts: validation, comparison and sorting of ULID strings on the JavaScript side.
pub mod Chars
pub mod Compare
pub mod Sorting
pub mod Validation
use rivid.Common.{
  ℕ, zero, ◌+◌, ◌^◌, ◌-◌, Bool, true, false, not, ◌&&◌, ◌||◌, Option, none, some, List, [], ◌∷◌,
  Bytes, codes, length, get_or, set, replicate, ltb, leb, ◌==◌, str_eq, str_lt, if◌then◌else◌,
}
use rivid.Js.{ℤ, pos, negsuc, Host, Outcome, returns, throws, ulid_length, ulid_alphabet, ◌>>=◌}
use rivid.Js.Sort.{sort_by, code_unit_order}
use rivid.Binding.{compare_ulids}

-- A `Uint8Array` of 256 flags: 1 at each code of `valid`.
flags : Bytes → List ℕ → List ℕ
flags [] t = t
flags (c ∷ valid) t = flags valid (set t c 1)

unfoldable pub valid_char : List ℕ
unfolding flags
valid_char =
    flags (codes "0123456789ABCDEFGHJKMNPQRSTVWXYZabcdefghjkmnpqrstvwxyz") (replicate 256 0)

unfoldable pub valid_upper : List ℕ
unfolding flags
valid_upper = flags (codes "0123456789ABCDEFGHJKMNPQRSTVWXYZ") (replicate 256 0)

-- `VALID_CHAR[c]` as a condition; a code past the table reads as `undefined`.
unfoldable pub is_valid_char : ℕ → Bool
is_valid_char c = ltb 0 (get_or valid_char c 0)

-- The class [0-9A-HJKMNP-TV-Z] of `CANONICAL_RE`.
unfoldable pub is_canonical_char : ℕ → Bool
is_canonical_char c =
    (leb b'0' c && leb c b'9')
    || (leb b'A' c && leb c b'H')
    || c == b'J'
    || c == b'K'
    || c == b'M'
    || c == b'N'
    || (leb b'P' c && leb c b'T')
    || (leb b'V' c && leb c b'Z')

unfoldable pub canonical_chars : Bytes → Bool
canonical_chars [] = true
canonical_chars (c ∷ cs) = is_canonical_char c && canonical_chars cs

-- `CANONICAL_RE.test`.
unfoldable pub is_canonical : Bytes → Bool
is_canonical id = (length id == 26) && canonical_chars id

-- The inner loop over one identifier, from `j` on.
unfoldable pub scan_chars : Bytes → Bool → Outcome Bool
scan_chars [] has_lower = returns has_lower
scan_chars (c ∷ cs) has_lower =
    if is_valid_char c then scan_chars cs (has_lower || leb 97 c) else throws ulid_alphabet

unfoldable pub scan_ids : List Bytes → Bool → Outcome Bool
scan_ids [] mixed_case = returns mixed_case
scan_ids (id ∷ ids) mixed_case =
    if length id == 26
    then (do has_lower ← scan_chars id false; scan_ids ids (mixed_case || has_lower))
    else throws (ulid_length (length id))

unfoldable pub validate_and_detect_case : List Bytes → Outcome Bool
validate_and_detect_case ids = scan_ids ids false

-- `opts?.validate`: absent, or the flag that was given.
abbrev pub SortOptions : Type 0
SortOptions = Option Bool

-- `opts?.validate === false`
unfoldable pub skips_validation : SortOptions → Bool
skips_validation none = false
skips_validation (some validate) = not validate

module _ (host : Host) where
  unfoldable pub compare : Bytes → Bytes → Outcome ℤ
  compare a b =
      if str_eq a b
      then returns (pos 0)
      else if is_canonical a && is_canonical b
      then returns (if str_lt a b then negsuc 0 else pos 1)
      else compare_ulids host a b

  unfoldable pub ulid_sort : List Bytes → SortOptions → Outcome (List Bytes)
  ulid_sort arr opts = do
    mixed_case ← if skips_validation opts then returns false else validate_and_detect_case arr
    if mixed_case then sort_by (compare_ulids host) arr else sort_by code_unit_order arr

  -- The copy is sorted; the result is the copy.
  unfoldable pub sort : List Bytes → SortOptions → Outcome (List Bytes)
  sort ids opts = ulid_sort ids opts

  -- What the call leaves in the caller's array, and whether it threw.
  unfoldable pub sort_in_place : List Bytes → SortOptions → List Bytes × Outcome (Unit {0})
  sort_in_place ids opts = elim (ulid_sort ids opts) [
    | returns sorted ↦ (sorted, returns tt)
    | throws e ↦ (ids, throws e)
  ]

abbrev pub min_ulid : Bytes
min_ulid = codes "00000000000000000000000000"

abbrev pub max_ulid : Bytes
max_ulid = codes "7ZZZZZZZZZZZZZZZZZZZZZZZZZ"

abbrev pub time_max : ℕ
time_max = 281474976710655
