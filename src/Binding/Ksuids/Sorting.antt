-- ===== src/Binding/Ksuids/Sorting.antt =====
-- `compare_ksuid` and `sort_ksuid` against the order of the 160-bit values.
use Prim.Native.Nat.{Ordering}
use rivid.Common.{
  ℕ, ◌≡◌, refl, ap, ap₂, sym, ◌∙◌, Bool, true, false, List, [], ◌∷◌, ◌++◌, Bytes, All, map, ltb,
  str_lt, if◌then◌else◌,
}
use rivid.Engine.Error.{Error, Result, ok, err}
use rivid.Engine.Bytes.{from_be_bytes, str_lt-from_be_bytes}
use rivid.Engine.Ksuid.{decode_bytes}
use rivid.Engine.Ksuid.RoundTrip.{encode_value-decode_bytes, str_lt-encode_value}
use rivid.Js.{pos, negsuc, Host, returns, throws, native}
use rivid.Js.Sort.{order_of, code_unit_order, IsSortOf}
use rivid.Js.Sort.Laws.{sort_by-IsSortOf, map-IsSortOf}
use rivid.Binding.{sign}
use rivid.Binding.Ksuids.{cmp, by_key, text, parse_all, sort_ksuid, compare_ksuid}
use rivid.Binding.Ksuids.Validity.{utf8-ksuid}

-- The 20 bytes of a KSUID string; none for any other string.
abbrev pub bytes_of : Result Bytes → Bytes
bytes_of (ok bytes) = bytes
bytes_of (err e) = []

abbrev pub ksuid_bytes : Bytes → Bytes
ksuid_bytes s = bytes_of (decode_bytes s)

-- The 160-bit value of a KSUID string.
abbrev pub ksuid_value : Bytes → ℕ
ksuid_value s = from_be_bytes (ksuid_bytes s) 0

-- A string that decodes.
abbrev pub IsKsuidText : Bytes → Type 0
IsKsuidText s = decode_bytes s ≡ ok (ksuid_bytes s)

str_lt-values :
    (a b : Bytes)
    → IsKsuidText a
    → IsKsuidText b
    → str_lt (ksuid_bytes a) (ksuid_bytes b) ≡ ltb (ksuid_value a) (ksuid_value b)
str_lt-values a b h k =
    let (ka, _) = encode_value-decode_bytes a (ksuid_bytes a) h in
    let (kb, _) = encode_value-decode_bytes b (ksuid_bytes b) k in
    str_lt-from_be_bytes (ksuid_bytes a) (ksuid_bytes b) (ka.0 ∙ sym kb.0) ka.1 kb.1

sign_cases :
    (a b : Bool)
    → sign (if a then Ordering.lt else if b then Ordering.gt else Ordering.eq)
      ≡ (if a then negsuc 0 else if b then pos 1 else pos 0)
sign_cases true b = refl
sign_cases false true = refl
sign_cases false false = refl

cmp-values :
    (a b : Bytes)
    → IsKsuidText a
    → IsKsuidText b
    → sign (cmp (ksuid_bytes a) (ksuid_bytes b)) ≡ order_of (ksuid_value a) (ksuid_value b)
cmp-values a b h k = rw (str_lt-values a b h k, str_lt-values b a k h) (sign_cases _ _)

str_lt-texts :
    (a b : Bytes)
    → IsKsuidText a
    → IsKsuidText b
    → str_lt a b ≡ str_lt (ksuid_bytes a) (ksuid_bytes b)
str_lt-texts a b h k =
    let (ka, ea) = encode_value-decode_bytes a (ksuid_bytes a) h in
    let (kb, eb) = encode_value-decode_bytes b (ksuid_bytes b) k in
    sym (ap₂ str_lt ea eb) ∙ str_lt-encode_value (ksuid_bytes a) (ksuid_bytes b) ka kb

-- `compare_ksuid` of two KSUID strings is the order of their 160-bit values, and the order in which
-- JavaScript compares the strings.
compare_ksuid-order :
    (host : Host) (a b : Bytes)
    → IsKsuidText a
    → IsKsuidText b
    → (compare_ksuid host a b ≡ returns (order_of (ksuid_value a) (ksuid_value b)))
      × (compare_ksuid host a b ≡ code_unit_order a b)
unfolding compare_ksuid
compare_ksuid-order host a b h k =
    rw (utf8-ksuid host a _ h, utf8-ksuid host b _ k, h, k)
      (
        ap returns (cmp-values a b h k),
        ap returns (sign_cases _ _ ∙ rw (str_lt-texts a b h k, str_lt-texts b a k h) refl),
      )

-- A pair of the loop: the bytes that its string decodes to.
IsParsed : Bytes × Bytes → Type 0
IsParsed (v, s) = IsKsuidText s × (v ≡ ksuid_bytes s)

parse_all-IsParsed :
    (host : Host) (ids : List Bytes)
    → All IsKsuidText ids
    → (ps : List (Bytes × Bytes)) × (parse_all host ids ≡ returns ps)
      × All IsParsed ps
      × (map text ps ≡ ids)
unfolding parse_all IsParsed
parse_all-IsParsed host [] h = ([], refl, tt, refl)
parse_all-IsParsed host (s ∷ ids) h =
    let (ps, e, parsed, same) = parse_all-IsParsed host ids h.1 in
    (
      (ksuid_bytes s, s) ∷ ps,
      rw (utf8-ksuid host s _ h.0, h.0, e) refl,
      ((h.0, refl), parsed),
      ap (λ t. s ∷ t) same,
    )

by_key-order :
    (p q : Bytes × Bytes)
    → IsParsed p
    → IsParsed q
    → by_key p q ≡ returns (order_of (ksuid_value (text p)) (ksuid_value (text q)))
unfolding IsParsed
by_key-order (v, s) (w, t) h k = rw (h.1, k.1) (ap returns (cmp-values s t h.0 k.0))

-- `sort_ksuid` of KSUID strings succeeds with them ascending by their 160-bit values, and those of
-- one value in the order they had.
pub sort_ksuid-IsSortOf :
    (host : Host) (ids : List Bytes)
    → All IsKsuidText ids
    → (ys : List Bytes) × (sort_ksuid host ids ≡ returns ys) × IsSortOf ksuid_value ids ys
unfolding sort_ksuid
sort_ksuid-IsSortOf host ids h =
    let (ps, e, parsed, same) = parse_all-IsParsed host ids h in
    let (qs, sorted, is_sort) =
      sort_by-IsSortOf (λ p. ksuid_value (text p)) by_key IsParsed by_key-order ps parsed in
    let result = map-IsSortOf text ksuid_value ps qs is_sort in
    (map text qs, rw (e, sorted) refl, rw same at result)

parse_all-invalid :
    (host : Host) (before : List Bytes) (bad : Bytes) (behind : List Bytes) (e : Error)
    → All IsKsuidText before
    → decode_bytes (host.utf8 bad) ≡ err e
    → parse_all host (before ++ (bad ∷ behind)) ≡ throws (native e)
unfolding parse_all
parse_all-invalid host [] bad behind e h k = rw k
parse_all-invalid host (s ∷ before) bad behind e h k =
    rw (utf8-ksuid host s _ h.0, h.0, parse_all-invalid host before bad behind e h.1 k)

-- `sort_ksuid` throws the engine's error on the first string that does not decode.
pub sort_ksuid-invalid :
    (host : Host) (before : List Bytes) (bad : Bytes) (behind : List Bytes) (e : Error)
    → All IsKsuidText before
    → decode_bytes (host.utf8 bad) ≡ err e
    → sort_ksuid host (before ++ (bad ∷ behind)) ≡ throws (native e)
unfolding sort_ksuid
sort_ksuid-invalid host before bad behind e h k =
    rw (parse_all-invalid host before bad behind e h k)
