-- ===== src/Api/Ulid/Compare.antt =====
-- `compare` of src/ulid.ts against the order of the 128-bit values.
use Prim.Native.Nat.{compare as compare_ℕ}
use rivid.Common.{
  ℕ, ◌≡◌, ap, sym, ◌∙◌, inl, inr, true, false, ◌&&◌, Bytes, All, ltb, str_eq, str_lt, str_eq→eq,
  str_eq_refl, if◌then◌else◌, Bool-cases, trichotomy, arith,
}
use rivid.Engine.Error.{Error, ok, err}
use rivid.Engine.Ulid
use rivid.Engine.Alphabet.Order.{IsLetter, str_lt-read, read_injective}
use rivid.Engine.Crockford.{decode_chars}
use rivid.Engine.Crockford.Digits.{crockford, crockford-IsSorted}
use rivid.Engine.Crockford.Numerals.{decode_chars_sound}
use rivid.Engine.Crockford.Ascii.{utf8-decodable}
use rivid.Binding.{compare_ulids, sign}
use rivid.Js.{pos, negsuc, Host, returns, throws, native}
use rivid.Js.Sort.{order_of}
use rivid.Api.Ulid.{is_canonical, compare}
use rivid.Api.Ulid.Chars.{canonical_chars-IsLetter}

canonical-letters : (a : Bytes) → is_canonical a ≡ true → All (IsLetter crockford) a
unfolding is_canonical
canonical-letters a h = canonical_chars-IsLetter a (ground arith)

sign-order_of : (v w : ℕ) → sign (compare_ℕ v w) ≡ order_of v w
sign-order_of v w = ground arith

module _ (host : Host) (a b : Bytes) (v w : ℕ) (da : decode_chars a ≡ ok v)
    (db : decode_chars b ≡ ok w) where
  -- The native comparison is the order of the values.
  pub compare_ulids-values : compare_ulids host a b ≡ returns (order_of v w)
  unfolding compare_ulids Ulid.compare_ids
  compare_ulids-values =
      rw (utf8-decodable host a v da, utf8-decodable host b w db, da, db)
        (ap returns (sign-order_of v w))

  pub str_lt-values : is_canonical a ≡ true → is_canonical b ≡ true → str_lt a b ≡ ltb v w
  str_lt-values ca cb =
      let (na, ra, _) = decode_chars_sound a v da in
      let (nb, rb, _) = decode_chars_sound b w db in
      str_lt-read crockford crockford-IsSorted a b 0 v w (na ∙ sym nb) (canonical-letters a ca)
        (canonical-letters b cb) ra rb

  equal_values : is_canonical a ≡ true → is_canonical b ≡ true → v ≡ w → a ≡ b
  equal_values ca cb e =
      let (na, ra, _) = decode_chars_sound a v da in
      let (nb, rb, _) = decode_chars_sound b w db in
      read_injective crockford crockford-IsSorted a b 0 v (na ∙ sym nb) (canonical-letters a ca)
        (canonical-letters b cb) ra (rb ∙ ap ok (sym e))

  fast_path :
      str_eq a b ≡ false
      → is_canonical a ≡ true
      → is_canonical b ≡ true
      → (if str_lt a b then negsuc 0 else pos 1) ≡ order_of v w
  fast_path ne ca cb = rw (str_lt-values ca cb) (elim (trichotomy v w) [
    | inl h ↦ ground arith
    | inr (inl h) ↦ absurd (ground (arith, ap (str_eq a) (equal_values ca cb h), str_eq_refl a))
    | inr (inr h) ↦ ground arith
  ])

  -- `compare` of two ULIDs in any case is the order of their 128-bit values, on the fast path and
  -- on the native one.
  pub compare-values : compare host a b ≡ returns (order_of v w)
  unfolding compare
  compare-values = elim (Bool-cases (str_eq a b)) [
    | inl e ↦ ground (arith, ap decode_chars (str_eq→eq a b e))
    | inr ne ↦ elim (Bool-cases (is_canonical a && is_canonical b)) [
      | inl c ↦ rw (ne, c) (ap returns (fast_path ne (ground arith) (ground arith)))
      | inr c ↦ rw (ne, c) compare_ulids-values
    ]
  ]

-- Where the engine cannot decode a string as it arrives there, `compare` of the string with itself
-- is 0, while the native comparison throws the engine's error.
pub compare_self :
    (host : Host) (a : Bytes) (e : Error)
    → decode_chars (host.utf8 a) ≡ err e
    → (compare host a a ≡ returns (pos 0)) × (compare_ulids host a a ≡ throws (native e))
unfolding compare compare_ulids Ulid.compare_ids
compare_self host a e h = (rw (str_eq_refl a), rw h)
