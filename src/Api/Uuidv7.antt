-- ===== src/Api/Uuidv7.antt =====
-- src/uuidv7.ts: the timestamp of a UUIDv7.
pub mod RoundTrip
use rivid.Common.{
  ℕ, zero, suc, ◌+◌, ◌-◌, ◌*◌, Bool, true, false, ◌&&◌, ◌||◌, List, [], ◌∷◌, Bytes, length, ltb,
  leb, ◌==◌, if◌then◌else◌,
}
use rivid.Js.{Outcome, returns, throws, invalid_uuid_string}
use rivid.Binding.{uuidv7_time}

unfoldable pub decode_time : Bytes → Outcome ℕ
decode_time bytes = uuidv7_time bytes

-- `uuid.replace(/-/g, '')`
unfoldable pub strip_hyphens : Bytes → Bytes
strip_hyphens [] = []
strip_hyphens (c ∷ uuid) = if c == b'-' then strip_hyphens uuid else c ∷ strip_hyphens uuid

-- The class [0-9a-fA-F].
unfoldable pub is_hex : ℕ → Bool
is_hex c = (leb b'0' c && leb c b'9') || (leb b'a' c && leb c b'f') || (leb b'A' c && leb c b'F')

unfoldable pub all_hex : Bytes → Bool
all_hex [] = true
all_hex (c ∷ cs) = is_hex c && all_hex cs

-- The digit of a character of that class.
unfoldable pub hex_value : ℕ → ℕ
hex_value c = if leb b'a' c then c - 87 else if leb b'A' c then c - 55 else c - 48

-- The loop: `parseInt` of each pair of characters.
unfoldable pub parse_pairs : Bytes → Bytes
parse_pairs [] = []
parse_pairs (hi ∷ []) = []
parse_pairs (hi ∷ lo ∷ hex) = (hex_value hi * 16 + hex_value lo) ∷ parse_pairs hex

unfoldable pub decode_time_from_string : Bytes → Outcome ℕ
decode_time_from_string uuid =
    let hex = strip_hyphens uuid in
    if (length hex == 32) && all_hex hex
    then uuidv7_time (parse_pairs hex)
    else throws invalid_uuid_string
