-- ===== src/Runs/Ksuids.antt =====
use rivid.Common.{◌≡◌, ◌↔◌, refl, some, List, [], ◌∷◌, ◌++◌, Bytes, codes, All, replicate, arith}
use rivid.Engine.Error.{ok, err, ◌>>=◌, invalid_length, ksuid_value_too_large}
use rivid.Engine.Bytes.{to_be_bytes, from_be_bytes}
use rivid.Engine.Alphabet.{write}
use rivid.Engine.Alphabet.Table.{letter_of, digit_of}
use rivid.Engine.Ksuid.{encode_value, decode_bytes, decode_char, decode_table, letter}
use rivid.Engine.Ksuid.Digits.{base62}
use rivid.Engine.Ksuid.Numerals.{encode_value-write, read_160, decode_bytes-read_160}
use rivid.Engine.Ksuid.RoundTrip.{IsKsuid, decode_bytes_iff}
use rivid.Engine.Ksuid.Validity.{is_ksuid_text}
use rivid.Js.{Host, integer, pos, returns, throws, native}
use rivid.Js.Sort.{IsSortOf}
use rivid.Binding.Ksuids.{ksuid, is_valid_ksuid, decode_ksuid, decode_ksuid_time, ksuid_time}
use rivid.Binding.Ksuids.Sorting.{IsKsuidText, ksuid_value}
use rivid.Binding.Ksuids.Validity.{is_valid_ksuid-is_ksuid_text}
use rivid.Api.Ksuid.{max_ksuid, sort_ksuid}
use rivid.Api.Ksuid.Sorting.{sort_ksuid-outcome}
use rivid.Api.Ksuid.Times.{decode_ksuid_time-ksuid}

-- A host that hands every string over as it is.
abbrev ascii_host : Host
ascii_host = record { utf8 = λ s. s; utf8_ascii = λ s h. refl; ascii_utf8 = λ s h. refl }

abbrev sample : Bytes
sample = codes "0ujtsYcgvSTl8PAuAdqWYSMnLOv"

abbrev sample_bytes : Bytes
sample_bytes =
    0x06 ∷ 0x69 ∷ 0xf7 ∷ 0xef ∷ 0xb5 ∷ 0xa1 ∷ 0xcd ∷ 0x34 ∷ 0xb5 ∷ 0xf9 ∷ 0x9d ∷ 0x11 ∷ 0x54 ∷ 0xfb
    ∷ 0x68 ∷ 0x53 ∷ 0x34 ∷ 0x5c ∷ 0x97 ∷ 0x35 ∷ []

sample_bytes-IsKsuid : IsKsuid sample_bytes
sample_bytes-IsKsuid = (refl, omega arith)

max_bytes-IsKsuid : IsKsuid (replicate 20 255)
max_bytes-IsKsuid = (refl, omega arith)

encode_value-sample : encode_value sample_bytes ≡ sample
unfolding encode_value from_be_bytes letter letter_of
encode_value-sample = refl

encode_value-max : encode_value (replicate 20 255) ≡ max_ksuid
unfolding encode_value from_be_bytes letter letter_of
encode_value-max = refl

sample-decode_bytes : decode_bytes sample ≡ ok sample_bytes
unfolding decode_bytes decode_char decode_table digit_of to_be_bytes
sample-decode_bytes = refl

max-decode_bytes : decode_bytes max_ksuid ≡ ok (replicate 20 255)
unfolding decode_bytes decode_char decode_table digit_of to_be_bytes
max-decode_bytes = refl

beyond-decode_bytes : decode_bytes (codes "aWgEPTl1tmebfsQzFP4bxwgy80W") ≡ err ksuid_value_too_large
unfolding decode_bytes decode_char decode_table digit_of
beyond-decode_bytes = refl

encode_value-write_example :
    encode_value sample_bytes ≡ write base62 27 (from_be_bytes sample_bytes 0) []
encode_value-write_example =
    encode_value-write sample_bytes sample_bytes-IsKsuid.0 sample_bytes-IsKsuid.1

decode_bytes-read_160_example :
    decode_bytes sample ≡ (read_160 sample 0 >>= λ v. ok (to_be_bytes 20 v []))
decode_bytes-read_160_example = decode_bytes-read_160 sample refl

decode_bytes_iff_example :
    (decode_bytes sample ≡ ok sample_bytes)
    ↔ (IsKsuid sample_bytes × (encode_value sample_bytes ≡ sample))
decode_bytes_iff_example = decode_bytes_iff sample sample_bytes

is_valid_ksuid-is_ksuid_text_example : is_valid_ksuid ascii_host sample ≡ is_ksuid_text sample
is_valid_ksuid-is_ksuid_text_example = is_valid_ksuid-is_ksuid_text ascii_host sample

abbrev ksuids : List Bytes
ksuids = max_ksuid ∷ sample ∷ []

ksuids-IsKsuidText : All IsKsuidText ksuids
unfolding decode_bytes decode_char decode_table digit_of to_be_bytes
ksuids-IsKsuidText = (refl, (refl, tt))

sort_ksuid-outcome_example :
    ((ys : List Bytes) × (sort_ksuid ascii_host ksuids ≡ returns ys)
      × IsSortOf ksuid_value ksuids ys)
    × (sort_ksuid ascii_host (ksuids ++ (codes "x" ∷ sample ∷ []))
        ≡ throws (native (invalid_length 27 1)))
sort_ksuid-outcome_example =
    sort_ksuid-outcome ascii_host ksuids (codes "x") (sample ∷ []) _ ksuids-IsKsuidText
      (unfold decode_bytes in refl)

decode_ksuid_time-ksuid_example :
    (id : Bytes) × (bytes : Bytes) × (ksuid 0 (replicate 16 7) (some (integer (pos 1500000000123)))
      ≡ returns id)
    × (decode_ksuid ascii_host id ≡ returns bytes)
    × (decode_ksuid_time ascii_host id ≡ returns 1500000000000)
    × (ksuid_time bytes ≡ returns 1500000000000)
decode_ksuid_time-ksuid_example =
    decode_ksuid_time-ksuid ascii_host 0 (replicate 16 7) 1500000000123 (refl, omega arith)
      (omega arith) (omega arith)
