-- ===== src/Runs/Times.antt =====
-- A UUIDv7 of a known millisecond.
use rivid.Common.{◌≡◌, refl, Bytes, codes, replicate, arith}
use rivid.Js.{returns}
use rivid.Engine.Bytes.{to_be_bytes}
use rivid.Engine.Uuidv7.{uuidv7_block, format_hyphenated_lower, format_from, hex}
use rivid.Api.Uuidv7.{decode_time_from_string}
use rivid.Api.Uuidv7.RoundTrip.{decode_time-uuidv7}

abbrev random_bytes : Bytes
random_bytes = replicate 16 171

uuidv7_text :
    format_hyphenated_lower (uuidv7_block 1469922850259 random_bytes)
    ≡ codes "01563e3a-b5d3-7bab-abab-abababababab"
unfolding format_hyphenated_lower format_from hex uuidv7_block to_be_bytes
uuidv7_text = refl

decode_time-uuidv7_example :
    decode_time_from_string (format_hyphenated_lower (uuidv7_block 1469922850259 random_bytes))
    ≡ returns 1469922850259
decode_time-uuidv7_example =
    decode_time-uuidv7 1469922850259 random_bytes refl (omega arith) (omega arith)
