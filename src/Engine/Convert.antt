-- ===== src/Engine/Convert.antt =====
-- crates/core/src/convert.rs: UUID text, and ULIDs as UUIDs.
pub mod RoundTrip
use Prim.Native.Nat.{bit_or}
use rivid.Common.{
  ℕ, zero, suc, ◌+◌, ◌-◌, ◌*◌, ◌%◌, ◌^◌, Bool, true, false, not, ◌&&◌, ◌||◌, Option, none, some,
  List, [], ◌∷◌, Bytes, length, map, get_or, leb, ◌==◌, if◌then◌else◌,
}
use rivid.Engine.Error.{Result, ok, err, ◌>>=◌, invalid_uuid}
use rivid.Engine.Bytes.{to_be_bytes, from_be_bytes}
use rivid.Engine.Crockford.{encode_value, decode_chars}
use rivid.Engine.Uuidv7.{format_hyphenated_lower}

unfoldable pub hex_val : ℕ → Option ℕ
hex_val c =
    if leb b'0' c && leb c b'9'
    then some (c - b'0')
    else if leb b'a' c && leb c b'f'
    then some (c - b'a' + 10)
    else if leb b'A' c && leb c b'F'
    then some (c - b'A' + 10)
    else none

-- The places of the hyphens.
abbrev pub is_dash : ℕ → Bool
is_dash i = i == 8 || i == 13 || i == 18 || i == 23

-- The digits of the text from place `i` on, without those at the hyphens' places.
unfoldable pub hex_iter : Bytes → ℕ → List (Option ℕ)
hex_iter [] i = []
hex_iter (c ∷ b) i = let rest = hex_iter b (i + 1) in if is_dash i then rest else hex_val c ∷ rest

abbrev pub ok_or : Option ℕ → Result ℕ
ok_or none = err invalid_uuid
ok_or (some d) = ok d

-- A byte of the next two digits for each slot.
unfoldable pub fill_slots : ℕ → List (Option ℕ) → Result Bytes
fill_slots zero digits = ok []
fill_slots (suc slots) [] = err invalid_uuid
fill_slots (suc slots) (hi ∷ []) = err invalid_uuid
fill_slots (suc slots) (hi ∷ lo ∷ digits) = do
  h ← ok_or hi
  l ← ok_or lo
  out ← fill_slots slots digits
  ok (bit_or (h * 2 ^ 4 % 2 ^ 8) l ∷ out)

abbrev pub dash_at : Bytes → ℕ → Bool
dash_at b i = get_or b i 0 == b'-'

unfoldable pub parse_hyphenated_uuid : Bytes → Result Bytes
parse_hyphenated_uuid b =
    if not (length b == 36)
      || not (dash_at b 8)
      || not (dash_at b 13)
      || not (dash_at b 18)
      || not (dash_at b 23)
    then err invalid_uuid
    else fill_slots 16 (hex_iter b 0)

-- `to_uppercase` of an ASCII character.
abbrev pub upper : ℕ → ℕ
upper c = if leb b'a' c && leb c b'z' then c - 32 else c

unfoldable pub ulid_to_uuid : Bytes → Result Bytes
ulid_to_uuid ulid = do
  v ← decode_chars ulid
  ok (map upper (format_hyphenated_lower (to_be_bytes 16 v [])))

unfoldable pub uuid_to_ulid : Bytes → Result Bytes
uuid_to_ulid uuid = do bytes ← parse_hyphenated_uuid uuid; ok (encode_value (from_be_bytes bytes 0))
