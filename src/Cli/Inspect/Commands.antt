-- ===== src/Cli/Inspect/Commands.antt =====
-- The commands `decode` and `validate` against the engine and the JavaScript API.
use rivid.Common.{
  ℕ, ◌/◌, ◌^◌, ◌≡◌, refl, ap, sym, ◌∙◌, inl, inr, Bool, List, [], ◌∷◌, Bytes, length, map,
  Bool-cases, arith,
}
use rivid.Js.{Host, Outcome, returns, throws, bind-eq-returns, native}
use rivid.Engine.Error.{Result, ok, err, Result-cases}
use rivid.Engine.Bytes.{to_be_bytes}
use rivid.Engine.Ulid
use rivid.Engine.Ulid.Timestamp.{decode_time-decode_chars}
use rivid.Engine.Crockford.{decode_chars}
use rivid.Engine.Crockford.Ascii.{utf8-decodable, utf8-decodes}
use rivid.Engine.Crockford.Numerals.{decode_chars_sound}
use rivid.Engine.Uuidv7.{format_hyphenated_lower}
use rivid.Engine.Convert
use rivid.Engine.Convert.{upper}
use rivid.Binding.{is_valid, decode_time, decode, ulid_to_uuid}
use rivid.Engine.Crockford.Ascii.{is_valid-utf8}
use rivid.Api.Ulid.{validate_and_detect_case}
use rivid.Api.Ulid.Validation
use rivid.Api.Ulid.Validation.{first_invalid, any_mixed, validate-verdict}
use rivid.Cli.Inspect.{
  hex_text, Report, report, exit_code, printed, bad_ids, verdict, validate_command, inspect,
  decode_command,
}

abbrev pub result_code {ℓ} : {A : Type ℓ} → Result A → ℕ
result_code (ok a) = 0
result_code (err e) = 1

module _ (host : Host) (to_iso_string : ℕ → Bytes) where
  -- What is printed for an identifier with the value `v`.
  abbrev pub report_of : Bytes → ℕ → Report
  report_of id v =
      let bytes = to_be_bytes 16 v [] in
      record {
        ulid = id;
        timestamp_ms = v / 2 ^ 80;
        iso_time = to_iso_string (v / 2 ^ 80);
        bytes = hex_text bytes;
        uuid = map upper (format_hyphenated_lower bytes);
      }

  inspect-report :
      (id : Bytes) (v : ℕ)
      → decode_chars id ≡ ok v
      → inspect host to_iso_string id ≡ returns (report_of id v)
  unfolding inspect decode_time decode ulid_to_uuid Ulid.decode Convert.ulid_to_uuid
  inspect-report id v h = rw (utf8-decodable host id v h, decode_time-decode_chars id v h, h) refl

  -- `rivid decode` of a string with the 128-bit value `v` prints the string, the first 48 bits of `v`
  -- as the timestamp, and the 16 bytes of `v` in hex and as an upper-case UUID.
  pub decode_command-report :
      (id : Bytes) (v : ℕ)
      → decode_chars id ≡ ok v
      → decode_command host to_iso_string (id ∷ []) ≡ report (report_of id v)
  unfolding decode_command
  decode_command-report [] v h = absurd (omega (arith, (decode_chars_sound [] v h).0))
  decode_command-report (c ∷ id) v h = ap printed (inspect-report (c ∷ id) v h)

  printed-throws :
      (o : Outcome Report) → ((r : Report) → o ≡ returns r → ⊥) → exit_code (printed o) ≡ 1
  printed-throws (returns r) never = elim (never r refl) [ ]
  printed-throws (throws e) never = refl

  -- What is reported can be decoded.
  reported-decodes :
      (id : Bytes) (r : Report)
      → inspect host to_iso_string id ≡ returns r
      → (v : ℕ) × (decode_chars id ≡ ok v)
  unfolding inspect decode Ulid.decode
  reported-decodes id r h = elim (Result-cases (decode_chars (host.utf8 id))) [
    | inl (v, e) ↦ (v, utf8-decodes host id v e)
    | inr (x, e) ↦
        let (ts, _, h') = bind-eq-returns (decode_time host id) _ h in
        let (bytes, decoded, _) = bind-eq-returns (decode host id) _ h' in
        let thrown : decode host id ≡ throws (native x) = rw e refl in
        absurd (ground (arith, decoded, thrown))
  ]

  -- `rivid decode` of one argument exits with 0 exactly where the argument decodes to a 128-bit value;
  -- otherwise, also for an empty argument, it exits with 1.
  pub decode_command-exit :
      (id : Bytes)
      → exit_code (decode_command host to_iso_string (id ∷ [])) ≡ result_code (decode_chars id)
  unfolding decode_command decode_chars
  decode_command-exit [] = refl
  decode_command-exit (c ∷ id) = elim (Result-cases (decode_chars (c ∷ id))) [
    | inl (v, e) ↦ ap exit_code (decode_command-report (c ∷ id) v e) ∙ sym (ap result_code e)
    | inr (x, e) ↦
        printed-throws (inspect host to_iso_string (c ∷ id))
          (λ r h. let (v, d) = reported-decodes (c ∷ id) r h in ground (arith, d, e))
        ∙ sym (ap result_code e)
  ]

abbrev pub outcome_code {ℓ} : {A : Type ℓ} → Outcome A → ℕ
outcome_code (returns a) = 0
outcome_code (throws e) = 1

bad_ids-verdict :
    (host : Host) (n : ℕ) (ids : List Bytes) (mixed : Bool)
    → exit_code (verdict n (bad_ids host ids))
      ≡ outcome_code (Validation.verdict (first_invalid ids) mixed)
unfolding bad_ids is_valid
bad_ids-verdict host n [] mixed = refl
bad_ids-verdict host n (id ∷ ids) mixed = elim (Bool-cases (Ulid.is_valid id)) [
  | inl good ↦ rw (is_valid-utf8 host id, good) (bad_ids-verdict host n ids mixed)
  | inr bad ↦ rw (is_valid-utf8 host id, bad) refl
]

-- `rivid validate` of one or more strings exits with 0 exactly where the validation of the
-- JavaScript API, which `sort` begins with, accepts the strings; otherwise it exits with 1.
validate_command-exit :
    (host : Host) (id : Bytes) (rest : List Bytes)
    → exit_code (validate_command host (id ∷ rest))
      ≡ outcome_code (validate_and_detect_case (id ∷ rest))
unfolding validate_command
validate_command-exit host id rest =
    bad_ids-verdict host (length (id ∷ rest)) (id ∷ rest) (any_mixed (id ∷ rest))
    ∙ ap outcome_code (sym (validate-verdict (id ∷ rest)))
