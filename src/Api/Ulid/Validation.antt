-- ===== src/Api/Ulid/Validation.antt =====
-- `validateAndDetectCase` of src/ulid.ts against the engine's format check.
use rivid.Common.{
  ◌≡◌, refl, ap, inl, inr, Bool, true, false, Option, none, some, ◌||◌, List, [], ◌∷◌, Bytes,
  length, leb, ◌==◌, if◌then◌else◌, Bool-cases, arith,
}
use rivid.Engine.Ulid
use rivid.Engine.Ulid.{all_chars}
use rivid.Js.{Thrown, Outcome, returns, throws, ulid_length, ulid_alphabet}
use rivid.Api.Ulid.{is_canonical, canonical_chars, scan_chars, scan_ids, validate_and_detect_case}
use rivid.Api.Ulid.Chars.{is_valid_char-eq, upper-canonical}

-- Some character stands at 'a' or behind it.
abbrev pub any_lower : Bytes → Bool
any_lower [] = false
any_lower (c ∷ cs) = leb 97 c || any_lower cs

abbrev pub any_mixed : List Bytes → Bool
any_mixed [] = false
any_mixed (id ∷ ids) = any_lower id || any_mixed ids

abbrev pub IsValidId : Bytes → Type 0
IsValidId id = Ulid.is_valid id ≡ true

-- What the validation throws at an identifier that is not well formed.
abbrev pub complaint : Bytes → Thrown
complaint id = if length id == 26 then ulid_alphabet else ulid_length (length id)

scan_chars-eq :
    (cs : Bytes) (lower : Bool)
    → scan_chars cs lower
      ≡ (if all_chars cs then returns (lower || any_lower cs) else throws ulid_alphabet)
unfolding scan_chars all_chars
scan_chars-eq [] lower = ground arith
scan_chars-eq (c ∷ cs) lower =
    ground (arith, is_valid_char-eq c, scan_chars-eq cs (lower || leb 97 c))

scan_ids-cons :
    (id : Bytes) (ids : List Bytes) (mixed : Bool)
    → scan_ids (id ∷ ids) mixed
      ≡ (if Ulid.is_valid id then scan_ids ids (mixed || any_lower id) else throws (complaint id))
unfolding scan_ids Ulid.is_valid
scan_ids-cons id ids mixed = elim (Bool-cases (length id == 26)) [
  | inr e ↦ rw e
  | inl e ↦
      rw (e, scan_chars-eq id false)
        (elim (Bool-cases (all_chars id)) [ inl a ↦ rw a | inr a ↦ rw a ])
]

-- The first identifier that the engine calls invalid.
abbrev pub first_invalid : List Bytes → Option Bytes
first_invalid [] = none
first_invalid (id ∷ ids) = if Ulid.is_valid id then first_invalid ids else some id

abbrev pub verdict : Option Bytes → Bool → Outcome Bool
verdict none mixed = returns mixed
verdict (some id) mixed = throws (complaint id)

scan_ids-verdict :
    (ids : List Bytes) (mixed : Bool)
    → scan_ids ids mixed ≡ verdict (first_invalid ids) (mixed || any_mixed ids)
scan_ids-verdict [] mixed = unfold scan_ids in ground arith
scan_ids-verdict (id ∷ ids) mixed = elim (Bool-cases (Ulid.is_valid id)) [
  | inl e ↦
      rw (scan_ids-cons id ids mixed, e, scan_ids-verdict ids (mixed || any_lower id))
        (ap (verdict (first_invalid ids)) (ground arith))
  | inr e ↦ rw (scan_ids-cons id ids mixed, e)
]

-- The JavaScript validation passes exactly the lists whose members the engine all calls valid, with
-- the flag set exactly if some member has a lower-case letter. Otherwise it throws about the first
-- member that is not valid: about its length if that is not 26, else about its alphabet.
pub validate-verdict :
    (ids : List Bytes) → validate_and_detect_case ids ≡ verdict (first_invalid ids) (any_mixed ids)
unfolding validate_and_detect_case
validate-verdict ids = scan_ids-verdict ids false

canonical_chars-upper :
    (cs : Bytes) → all_chars cs ≡ true → any_lower cs ≡ false → canonical_chars cs ≡ true
unfolding all_chars canonical_chars
canonical_chars-upper [] h k = refl
canonical_chars-upper (c ∷ cs) h k = ground (
  arith,
  upper-canonical c (ground arith) (ground arith),
  canonical_chars-upper cs (ground arith) (ground arith),
)

-- A valid identifier with no lower-case letter is canonical.
pub is_canonical-upper : (id : Bytes) → IsValidId id → any_lower id ≡ false → is_canonical id ≡ true
unfolding is_canonical Ulid.is_valid
is_canonical-upper id h k = ground (arith, canonical_chars-upper id)
