-- ===== src/Engine/Convert/RoundTrip.antt =====
-- The UUID text of any 16 bytes is parsed to those bytes, and ULIDs survive the detour by UUIDs.
use Prim.Native.Nat.{bit_and, bit_or}
use rivid.Common.{
  ℕ, zero, suc, ◌+◌, ◌-◌, ◌*◌, ◌/◌, ◌%◌, ◌^◌, ◌≤◌, ◌<◌, ◌≡◌, refl, ap, sym, ◌∙◌, Bool, true, false,
  ◌&&◌, ◌||◌, Option, none, some, List, [], ◌∷◌, Bytes, length, map, get_or, All, ltb, ◌==◌,
  if◌then◌else◌, Bool-cases, inl, inr, ==_iff, all_below, all_below_sound, arith,
}
use rivid.Engine.Error.{ok}
use rivid.Engine.Bytes.{
  IsByte, to_be_bytes, to_be_bytes-IsByte, length-to_be_bytes, from_be_bytes-to_be_bytes,
}
use rivid.Engine.Crockford.{decode_chars}
use rivid.Engine.Crockford.Numerals.{decode_chars_sound}
use rivid.Engine.Crockford.RoundTrip.{encode_value-decode_chars, to_upper}
use rivid.Engine.Uuidv7.{hex, format_from, format_hyphenated_lower}
use rivid.Engine.Convert.{
  hex_val, is_dash, hex_iter, fill_slots, parse_hyphenated_uuid, upper, ulid_to_uuid, uuid_to_ulid,
}

-- The two digits of a byte, as the loop pushes them.
abbrev high : ℕ → ℕ
high b = upper (hex (b / 2 ^ 4))

abbrev low : ℕ → ℕ
low b = upper (hex (bit_and b 0x0f))

is_value : Option ℕ → ℕ → Bool
is_value none n = false
is_value (some d) n = d == n

byte_digits : ℕ → Bool
byte_digits b =
    is_value (hex_val (high b)) (b / 16)
    && is_value (hex_val (low b)) (b % 16)
    && (bit_or (b / 16 * 2 ^ 4 % 2 ^ 8) (b % 16) == b)

byte_digits_table : all_below 256 byte_digits ≡ true
unfolding all_below byte_digits is_value hex_val hex
byte_digits_table = refl

is_value-some : (o : Option ℕ) (n : ℕ) → is_value o n ≡ true → o ≡ some n
unfolding is_value
is_value-some none n h = ground arith
is_value-some (some d) n h = ap some ((==_iff d n).0 h)

and3 : (a b c : Bool) → (a && b && c) ≡ true → (a ≡ true) × (b ≡ true) × (c ≡ true)
and3 true true true h = (refl, refl, refl)
and3 true true false h = ground arith
and3 true false c h = ground arith
and3 false b c h = ground arith

digits_lem :
    (b : ℕ)
    → IsByte b
    → (hex_val (high b) ≡ some (b / 16))
      × (hex_val (low b) ≡ some (b % 16))
      × (bit_or (b / 16 * 2 ^ 4 % 2 ^ 8) (b % 16) ≡ b)
unfolding byte_digits
digits_lem b h =
    let (hi, lo, joined) =
      and3 (is_value (hex_val (high b)) (b / 16)) (is_value (hex_val (low b)) (b % 16)) _
        (all_below_sound 256 byte_digits b byte_digits_table h) in
    (
      is_value-some (hex_val (high b)) (b / 16) hi,
      is_value-some (hex_val (low b)) (b % 16) lo,
      (==_iff _ b).0 joined,
    )

-- The place in the text of the byte with index `i`, its hyphen included.
place : ℕ → ℕ
place i =
    2 * i
    + (if ltb 4 i then 1 else 0)
    + (if ltb 6 i then 1 else 0)
    + (if ltb 8 i then 1 else 0)
    + (if ltb 10 i then 1 else 0)

abbrev is_group : ℕ → Bool
is_group i = i == 4 || i == 6 || i == 8 || i == 10

digits_of : Bytes → List (Option ℕ)
digits_of [] = []
digits_of (b ∷ bytes) = hex_val (high b) ∷ hex_val (low b) ∷ digits_of bytes

place-group :
    (i : ℕ)
    → is_group i ≡ true
    → (is_dash (place i) ≡ true)
      × (is_dash (place i + 1) ≡ false)
      × (is_dash (place i + 1 + 1) ≡ false)
      × (place i + 1 + 1 + 1 ≡ place (i + 1))
unfolding place
place-group i h = (ground arith, ground arith, ground arith, ground arith)

place-plain :
    (i : ℕ)
    → is_group i ≡ false
    → (is_dash (place i) ≡ false)
      × (is_dash (place i + 1) ≡ false)
      × (place i + 1 + 1 ≡ place (i + 1))
unfolding place
place-plain i h = (ground arith, ground arith, ground arith)

hex_iter-format :
    (bytes : Bytes) (i : ℕ) → hex_iter (map upper (format_from bytes i)) (place i) ≡ digits_of bytes
unfolding hex_iter format_from digits_of
hex_iter-format [] i = refl
hex_iter-format (b ∷ bytes) i = elim (Bool-cases (is_group i)) [
  | inl g ↦
      let (dash, hi, lo, next) = place-group i g in
      rw (g, dash, hi, lo, next)
        (ap (λ ds. hex_val (high b) ∷ hex_val (low b) ∷ ds) (hex_iter-format bytes (i + 1)))
  | inr p ↦
      let (hi, lo, next) = place-plain i p in
      rw (p, hi, lo, next)
        (ap (λ ds. hex_val (high b) ∷ hex_val (low b) ∷ ds) (hex_iter-format bytes (i + 1)))
]

length-upper : (s : Bytes) → length (map upper s) ≡ length s
length-upper [] = refl
length-upper (c ∷ s) = ap suc (length-upper s)

length-format :
    (bytes : Bytes) (i : ℕ) → length (format_from bytes i) + place i ≡ place (i + length bytes)
unfolding format_from
length-format [] i = let same : i + 0 ≡ i = omega arith in omega (arith, ap place same)
length-format (b ∷ bytes) i =
    let later : place (i + suc (length bytes)) ≡ place (i + 1 + length bytes) =
      ap place (omega arith) in
    elim (Bool-cases (is_group i)) [
      | inl g ↦ rw g (omega (arith, later, (place-group i g).3, length-format bytes (i + 1)))
      | inr p ↦ rw p (omega (arith, later, (place-plain i p).2, length-format bytes (i + 1)))
    ]

place_mono : (i k : ℕ) → place i ≤ place (i + k)
unfolding place
place_mono i k = ground arith

-- The character at the place of the byte with index `i + k` is a hyphen, if a group begins there.
dash_at-format :
    (bytes : Bytes) (i k j : ℕ)
    → j + place i ≡ place (i + k)
    → is_group (i + k) ≡ true
    → k < length bytes
    → get_or (map upper (format_from bytes i)) j 0 ≡ b'-'
unfolding format_from
dash_at-format [] i k j e g h = absurd (omega arith)
dash_at-format (b ∷ bytes) i zero j e g h =
    let same : i + 0 ≡ i = omega arith in
    let first : j ≡ 0 = omega (arith, e, ap place same) in
    let group : is_group i ≡ true = ap is_group (sym same) ∙ g in rw (group, first) refl
dash_at-format (b ∷ bytes) i (suc k) j e g h =
    let later : i + suc k ≡ i + 1 + k = omega arith in
    elim (Bool-cases (is_group i)) [
      | inl f ↦
          let j' = j - 3 in
          let skip : j ≡ suc (suc (suc j')) =
            omega (arith, ap place later, (place-group i f).3, place_mono (i + 1) k) in
          rw (f, skip)
            (dash_at-format bytes (i + 1) k j'
              (omega (arith, ap place later, (place-group i f).3, place_mono (i + 1) k))
              (ap is_group (sym later) ∙ g) (omega arith))
      | inr p ↦
          let j' = j - 2 in
          let skip : j ≡ suc (suc j') =
            omega (arith, ap place later, (place-plain i p).2, place_mono (i + 1) k) in
          rw (p, skip)
            (dash_at-format bytes (i + 1) k j'
              (omega (arith, ap place later, (place-plain i p).2, place_mono (i + 1) k))
              (ap is_group (sym later) ∙ g) (omega arith))
    ]

fill_slots-digits_of :
    (slots : ℕ) (bytes : Bytes)
    → length bytes ≡ slots
    → All IsByte bytes
    → fill_slots slots (digits_of bytes) ≡ ok bytes
unfolding fill_slots digits_of
fill_slots-digits_of zero [] n h = refl
fill_slots-digits_of zero (b ∷ bytes) n h = absurd (omega arith)
fill_slots-digits_of (suc slots) [] n h = absurd (omega arith)
fill_slots-digits_of (suc slots) (b ∷ bytes) n h =
    let (hi, lo, joined) = digits_lem b h.0 in
    rw (hi, lo, fill_slots-digits_of slots bytes (omega arith) h.1)
      (ap (λ x. ok (x ∷ bytes)) joined)

place_end : (n : ℕ) → n ≡ 16 → (place 0 ≡ 0) × (place (0 + n) ≡ 36)
unfolding place
place_end n e = ground (arith, e)

length-format_sixteen : (bytes : Bytes) → length bytes ≡ 16 → length (format_from bytes 0) ≡ 36
length-format_sixteen bytes n = omega (arith, length-format bytes 0, place_end (length bytes) n)

-- The text of any 16 bytes, in upper case, is parsed to those bytes.
pub parse-format :
    (bytes : Bytes)
    → length bytes ≡ 16
    → All IsByte bytes
    → parse_hyphenated_uuid (map upper (format_hyphenated_lower bytes)) ≡ ok bytes
unfolding parse_hyphenated_uuid format_hyphenated_lower place
parse-format bytes n h =
    let dash = dash_at-format bytes 0 in
    let size = length-upper (format_from bytes 0) ∙ length-format_sixteen bytes n in
    rw
      (
        size,
        dash 4 8 refl refl (omega arith),
        dash 6 13 refl refl (omega arith),
        dash 8 18 refl refl (omega arith),
        dash 10 23 refl refl (omega arith),
        hex_iter-format bytes 0,
      )
      (fill_slots-digits_of 16 bytes n h)

-- A ULID string that decodes is written as a UUID, and that UUID as the same string in upper case.
pub uuid_to_ulid-ulid_to_uuid :
    (s : Bytes) (v : ℕ)
    → decode_chars s ≡ ok v
    → (u : Bytes) × (ulid_to_uuid s ≡ ok u) × (uuid_to_ulid u ≡ ok (map to_upper s))
unfolding ulid_to_uuid uuid_to_ulid
uuid_to_ulid-ulid_to_uuid s v h =
    let bytes = to_be_bytes 16 v [] in
    let fits : v < 256 ^ 16 = (decode_chars_sound s v h).2 in
    (
      map upper (format_hyphenated_lower bytes),
      rw h refl,
      rw
          (
            parse-format bytes (length-to_be_bytes 16 v) (to_be_bytes-IsByte 16 v [] tt),
            from_be_bytes-to_be_bytes 16 v fits,
          )
          (ap ok (encode_value-decode_chars s v h)),
    )
