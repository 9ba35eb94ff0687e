-- ===== src/Runs.antt =====
-- Concrete inputs at which the theorems' hypotheses hold.
mod Rows
mod Natives
mod Generator
mod Ksuids
mod Threads
mod Buffers
mod Builds
mod Programs
mod Encodings
mod Inspect
mod Policy
mod Folders
mod Schemas
mod Commands
mod Times
mod Audit
use rivid.Common.{
  ◌≡◌, refl, false, none, some, List, [], ◌∷◌, ◌^◌, ◌-◌, Bytes, codes, length, map, All, replicate,
  arith,
}
use rivid.Engine.Error.{ok, invalid_length}
use rivid.Engine.Bytes.{IsByte, to_be_bytes}
use rivid.Engine.Crockford.{
  decode_chars, decode_loop, digit, decode_table, encode_value, is_alphabet_char,
}
use rivid.Engine.Crockford.RoundTrip.{
  decode_chars-encode_value, encode_value-decode_chars, to_upper,
}
use rivid.Engine.Ulid
use rivid.Js.{Host, pos, returns, throws, native, ulid_alphabet}
use rivid.Js.Sort.{IsSortOf}
use rivid.Binding.{compare_ulids}
use rivid.Api.Ulid.{
  is_canonical, canonical_chars, is_canonical_char, compare, sort, sort_in_place, skips_validation,
  validate_and_detect_case,
}
use rivid.Api.Ulid.Compare.{compare-values, compare_self}
use rivid.Api.Ulid.Validation.{verdict, first_invalid, any_mixed}
use rivid.Api.Ulid.Sorting.{
  ulid_value, IsUlid, IsUpper, sort-IsSortOf, sort-unvalidated, sort-invalid,
}

-- A host that hands every string over as it is.
abbrev ascii_host : Host
ascii_host = record { utf8 = λ s. s; utf8_ascii = λ s h. refl; ascii_utf8 = λ s h. refl }

abbrev early : Bytes
early = codes "01ARZ3NDEKTSV4RRFFQ69G5FAV"

-- `early` in lower case.
abbrev early_lower : Bytes
early_lower = codes "01arz3ndektsv4rrffq69g5fav"

abbrev late : Bytes
late = codes "7ZZZZZZZZZZZZZZZZZZZZZZZZZ"

abbrev unsorted : List Bytes
unsorted = late ∷ early_lower ∷ early ∷ []

abbrev canonical_pair : List Bytes
canonical_pair = late ∷ early ∷ []

abbrev broken : List Bytes
broken = late ∷ codes "01ARZ3NDEKTSV4RRFFQ69G5FAU" ∷ early ∷ []

early_lower-value : decode_chars early_lower ≡ ok 1777027686520646174104517696511196507
unfolding decode_chars decode_loop digit decode_table
early_lower-value = refl

late-value : decode_chars late ≡ ok (2 ^ 128 - 1)
unfolding decode_chars decode_loop digit decode_table
late-value = refl

unsorted-IsUlid : All IsUlid unsorted
unfolding decode_chars decode_loop digit decode_table
unsorted-IsUlid = (refl, (refl, (refl, tt)))

canonical_pair-IsUpper : All IsUpper canonical_pair
unfolding decode_chars decode_loop digit decode_table is_canonical canonical_chars is_canonical_char
canonical_pair-IsUpper = ((refl, refl), ((refl, refl), tt))

compare-values_example : compare ascii_host late early_lower ≡ returns (pos 1)
compare-values_example = compare-values ascii_host late early_lower _ _ late-value early_lower-value

sort-IsSortOf_example :
    (ys : List Bytes) × (sort ascii_host unsorted none ≡ returns ys)
    × (sort_in_place ascii_host unsorted none ≡ (ys, returns tt))
    × IsSortOf ulid_value unsorted ys
sort-IsSortOf_example =
    sort-IsSortOf ascii_host unsorted none (unfold skips_validation in refl) unsorted-IsUlid

sort-unvalidated_example :
    (ys : List Bytes) × (sort ascii_host canonical_pair (some false) ≡ returns ys)
    × (sort_in_place ascii_host canonical_pair (some false) ≡ (ys, returns tt))
    × IsSortOf ulid_value canonical_pair ys
sort-unvalidated_example =
    sort-unvalidated ascii_host canonical_pair (some false) (unfold skips_validation in refl)
      canonical_pair-IsUpper

broken-first_invalid : first_invalid broken ≡ some (codes "01ARZ3NDEKTSV4RRFFQ69G5FAU")
unfolding Ulid.is_valid Ulid.all_chars is_alphabet_char decode_table
broken-first_invalid = refl

sort-invalid_example :
    (sort ascii_host broken none ≡ throws ulid_alphabet)
    × (sort_in_place ascii_host broken none ≡ (broken, throws ulid_alphabet))
sort-invalid_example =
    sort-invalid ascii_host broken none _ (unfold skips_validation in refl) broken-first_invalid

abbrev full : Bytes
full = replicate 16 255

abbrev sixteen : Bytes
sixteen = 1 ∷ 2 ∷ 3 ∷ 4 ∷ 5 ∷ 6 ∷ 7 ∷ 8 ∷ 249 ∷ 250 ∷ 251 ∷ 252 ∷ 253 ∷ 254 ∷ 255 ∷ 0 ∷ []

late-decode : Ulid.decode late ≡ ok full
unfolding Ulid.decode decode_chars decode_loop digit decode_table to_be_bytes
late-decode = refl
