-- ===== src/Runs/Inspect.antt =====
-- The last ULID, its timestamp and its UUID.
use rivid.Common.{◌≡◌, refl, ◌^◌, ◌-◌, ◌/◌, [], ◌∷◌, Bytes, codes, map}
use rivid.Engine.Error.{ok}
use rivid.Engine.Crockford.{decode_chars, decode_loop, digit, decode_table}
use rivid.Engine.Crockford.RoundTrip.{to_upper}
use rivid.Engine.Ulid.{decode_time}
use rivid.Engine.Ulid.Timestamp.{decode_time-decode_chars}
use rivid.Engine.Convert.{ulid_to_uuid, uuid_to_ulid}
use rivid.Engine.Convert.RoundTrip.{uuid_to_ulid-ulid_to_uuid}
use rivid.Js.{Host}
use rivid.Cli.Inspect.{report, decode_command}
use rivid.Cli.Inspect.Commands.{report_of, decode_command-report}
use rivid.Cli.Dispatch.{validates, shows, dispatch, with_rest, command, usage_text, help_text}

abbrev plain_host : Host
plain_host = record { utf8 = λ s. s; utf8_ascii = λ s h. refl; ascii_utf8 = λ s h. refl }

abbrev last : Bytes
last = codes "7ZZZZZZZZZZZZZZZZZZZZZZZZz"

last-value : decode_chars last ≡ ok (2 ^ 128 - 1)
unfolding decode_chars decode_loop digit decode_table
last-value = refl

decode_time-decode_chars_example : decode_time last ≡ ok ((2 ^ 128 - 1) / 2 ^ 80)
decode_time-decode_chars_example = decode_time-decode_chars last (2 ^ 128 - 1) last-value

uuid_to_ulid-ulid_to_uuid_example :
    (u : Bytes) × (ulid_to_uuid last ≡ ok u) × (uuid_to_ulid u ≡ ok (map to_upper last))
uuid_to_ulid-ulid_to_uuid_example = uuid_to_ulid-ulid_to_uuid last (2 ^ 128 - 1) last-value

decode_command-report_example :
    decode_command plain_host (λ ts. []) (last ∷ [])
    ≡ report (report_of plain_host (λ ts. []) last (2 ^ 128 - 1))
decode_command-report_example =
    decode_command-report plain_host (λ ts. []) last (2 ^ 128 - 1) last-value

dispatch-validate : dispatch (codes "validate" ∷ last ∷ []) ≡ validates (last ∷ [])
unfolding dispatch with_rest command
dispatch-validate = refl

dispatch-bytes16_help : dispatch (codes "bytes16" ∷ codes "--help" ∷ []) ≡ shows usage_text
unfolding dispatch with_rest help_text usage_text
dispatch-bytes16_help = refl
