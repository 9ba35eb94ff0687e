-- ===== src/Cli/Inspect.antt =====
-- cli/rivid.mjs: the commands that inspect identifiers. `Date.prototype.toISOString` is a parameter.
pub mod Commands
use Prim.Native.Nat.{bit_and}
use rivid.Common.{ℕ, ◌/◌, ◌^◌, Bool, true, false, not, List, [], ◌∷◌, Bytes, length, if◌then◌else◌}
use rivid.Js.{Host, Thrown, Outcome, returns, throws, ◌>>=◌}
use rivid.Js.Pattern.{is_nil}
use rivid.Engine.Uuidv7.{hex}
use rivid.Binding.{is_valid, decode_time, decode, ulid_to_uuid}

-- `Buffer.from(bytes).toString('hex')`
unfoldable pub hex_text : Bytes → Bytes
hex_text [] = []
hex_text (b ∷ bytes) = hex (b / 2 ^ 4) ∷ hex (bit_and b 0x0f) ∷ hex_text bytes

-- What `decode` prints as JSON.
pub record Report : Type 0 where
  pub ulid : Bytes
  pub timestamp_ms : ℕ
  pub iso_time : Bytes
  pub bytes : Bytes
  pub uuid : Bytes

-- How a command ends: what it prints, or the reason for which it exits with 1.
pub data Inspected : Type 0 where
  report : Report → Inspected
  -- `ok (n valid)`
  all_valid : ℕ → Inspected
  invalid : List Bytes → Inspected
  wants_argument : Inspected
  extra_arguments : ℕ → Inspected
  cannot_decode : Thrown → Inspected

abbrev pub exit_code : Inspected → ℕ
exit_code (report r) = 0
exit_code (all_valid n) = 0
exit_code (invalid bad) = 1
exit_code wants_argument = 1
exit_code (extra_arguments n) = 1
exit_code (cannot_decode e) = 1

abbrev pub printed : Outcome Report → Inspected
printed (returns r) = report r
printed (throws e) = cannot_decode e

abbrev pub verdict : ℕ → List Bytes → Inspected
verdict count [] = all_valid count
verdict count (id ∷ bad) = invalid (id ∷ bad)

module _ (host : Host) where
  -- `rest.filter((id) => !core.isValid(id))`
  unfoldable pub bad_ids : List Bytes → List Bytes
  bad_ids [] = []
  bad_ids (id ∷ rest) = if not (is_valid host id) then id ∷ bad_ids rest else bad_ids rest

  -- `case 'validate'`
  unfoldable pub validate_command : List Bytes → Inspected
  validate_command [] = wants_argument
  validate_command (id ∷ rest) = verdict (length (id ∷ rest)) (bad_ids (id ∷ rest))

  module _ (to_iso_string : ℕ → Bytes) where
    unfoldable pub inspect : Bytes → Outcome Report
    inspect id = do
      ts ← decode_time host id
      bytes ← decode host id
      uuid ← ulid_to_uuid host id
      let found : Report = record {
        ulid = id;
        timestamp_ms = ts;
        iso_time = to_iso_string ts;
        bytes = hex_text bytes;
        uuid = uuid;
      }
      returns found

    abbrev decode_one : Bytes → List Bytes → Inspected
    decode_one id [] = printed (inspect id)
    decode_one id (extra ∷ others) = extra_arguments (length (extra ∷ others))

    -- `case 'decode'`
    unfoldable pub decode_command : List Bytes → Inspected
    decode_command [] = wants_argument
    decode_command (id ∷ rest) = if is_nil id then wants_argument else decode_one id rest
