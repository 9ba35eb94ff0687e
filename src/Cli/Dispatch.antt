-- ===== src/Cli/Dispatch.antt =====
-- cli/rivid.mjs: the help texts, and which command the arguments call for.
use rivid.Common.{
  Bool, ◌||◌, Option, none, some, List, [], ◌∷◌, Bytes, codes, str_eq, if◌then◌else◌,
}
use rivid.Js.Text.{join}
use rivid.Cli.Generate.{includes}

abbrev lines : List Bytes → Bytes
lines ls = join (10 ∷ []) ls

unfoldable pub usage_text : Bytes
usage_text = lines (
    codes "rivid — ULID & UUIDv7 toolkit"
    ∷ codes ""
    ∷ codes "Usage:"
    ∷ codes "  rivid ulid [--count <n>] [--monotonic] [--json]"
    ∷ codes "  rivid uuidv7 [--count <n>] [--json]"
    ∷ codes "  rivid bytes16"
    ∷ codes "  rivid decode <ulid>            Print timestamp + binary form as hex/UUID"
    ∷ codes "  rivid validate <ulid>...       Exit 0 if all valid, 1 otherwise"
    ∷ codes "  rivid check [path] [--json] [--strict]"
    ∷ codes "                                 Audit schemas/models for identifier"
    ∷ codes "                                 inconsistencies (uses .rivid.yml policy)"
    ∷ codes "  rivid benchmark [--quick]      Run the benchmark suite"
    ∷ codes "  rivid version"
    ∷ codes ""
    ∷ codes "Options:"
    ∷ codes "  --count <n>     Number of IDs to generate (default 1; max 100000000)"
    ∷ codes "  --monotonic     Use monotonic generation for sequential output"
    ∷ codes "  --json          Output JSON array instead of one ID per line"
    ∷ codes ""
    ∷ [])

abbrev ulid_help : Bytes
ulid_help = lines (
    codes "rivid ulid — generate ULIDs"
    ∷ codes ""
    ∷ codes "Usage: rivid ulid [--count <n>] [--monotonic] [--json]"
    ∷ codes ""
    ∷ codes "Options:"
    ∷ codes "  --count <n>     Number of IDs (default 1; max 100000000)"
    ∷ codes "  --monotonic     Strictly increasing output (same-ms increments)"
    ∷ codes "  --json          Output a JSON array instead of one ID per line"
    ∷ [])

abbrev uuidv7_help : Bytes
uuidv7_help = lines (
    codes "rivid uuidv7 — generate UUIDv7s"
    ∷ codes ""
    ∷ codes "Usage: rivid uuidv7 [--count <n>] [--json]"
    ∷ codes ""
    ∷ codes "Options:"
    ∷ codes "  --count <n>     Number of IDs (default 1; max 100000000)"
    ∷ codes "  --json          Output a JSON array instead of one ID per line"
    ∷ [])

abbrev decode_help : Bytes
decode_help = lines (
    codes "rivid decode — inspect a ULID"
    ∷ codes ""
    ∷ codes "Usage: rivid decode <ulid>"
    ∷ codes ""
    ∷ codes "Prints the embedded timestamp (ms + ISO), the raw 16 bytes as hex and the"
    ∷ codes "hyphenated UUID form."
    ∷ [])

abbrev validate_help : Bytes
validate_help = lines (
    codes "rivid validate — check ULID strings"
    ∷ codes ""
    ∷ codes "Usage: rivid validate <ulid>..."
    ∷ codes ""
    ∷ codes "Exits 0 when every argument is a valid ULID, 1 otherwise (invalid ones are"
    ∷ codes "listed on stderr)."
    ∷ [])

abbrev benchmark_help : Bytes
benchmark_help = lines (
    codes "rivid benchmark — run the benchmark suite"
    ∷ codes ""
    ∷ codes "Usage: rivid benchmark [--quick]"
    ∷ codes ""
    ∷ codes "Requires a checked-out repository (the harness lives in benchmarks/)."
    ∷ [])

abbrev check_help : Bytes
check_help = lines (
    codes "rivid check — identifier governance audit"
    ∷ codes ""
    ∷ codes "Usage: rivid check [path] [--json] [--strict]"
    ∷ codes ""
    ∷ codes "Scans SQL DDL, Prisma schemas and Drizzle table definitions for identifier"
    ∷ codes "inconsistencies: UUIDs stored as text, FK/PK representation mismatches,"
    ∷ codes "primary-key drift and unbounded TEXT ids."
    ∷ codes ""
    ∷ codes "  --json         machine-readable report on stdout"
    ∷ codes "  --strict       treat warnings as failures (exit 1)"
    ∷ codes ""
    ∷ codes "A .rivid.yml / .rivid.json policy file at the scan root declares intentional"
    ∷ codes "conventions (see README). Exit codes: 0 clean, 1 findings, 2 usage error."
    ∷ [])

-- `lines[cmd]`, as far as `lines` has the name itself.
unfoldable pub help_text : Bytes → Option Bytes
help_text cmd =
    if str_eq cmd (codes "ulid")
    then some ulid_help
    else if str_eq cmd (codes "uuidv7")
    then some uuidv7_help
    else if str_eq cmd (codes "decode")
    then some decode_help
    else if str_eq cmd (codes "validate")
    then some validate_help
    else if str_eq cmd (codes "benchmark")
    then some benchmark_help
    else if str_eq cmd (codes "check")
    then some check_help
    else none

-- What the arguments call for; `shows` is a help text, `prints_member` what the name of a member that
-- every object inherits gives.
pub data Command : Type 0 where
  shows : Bytes → Command
  prints_member : Bytes → Command
  generates_ulid generates_uuidv7 decodes validates checks : List Bytes → Command
  generates_bytes16 prints_version prints_usage : Command
  benchmarks : Bool → Command
  unknown_command : Bytes → Command

-- The members of `Object.prototype`, which `lines[cmd]` finds too.
abbrev inherited : List Bytes
inherited =
    codes "constructor"
    ∷ codes "hasOwnProperty"
    ∷ codes "isPrototypeOf"
    ∷ codes "propertyIsEnumerable"
    ∷ codes "toLocaleString"
    ∷ codes "toString"
    ∷ codes "valueOf"
    ∷ codes "__proto__"
    ∷ codes "__defineGetter__"
    ∷ codes "__defineSetter__"
    ∷ codes "__lookupGetter__"
    ∷ codes "__lookupSetter__"
    ∷ []

abbrev shown : Bytes → Option Bytes → Command
shown cmd (some help) = shows help
shown cmd none = if includes inherited cmd then prints_member cmd else shows usage_text

-- `switch (cmd)`
unfoldable pub command : Bytes → List Bytes → Command
command cmd rest =
    if str_eq cmd (codes "ulid")
    then generates_ulid rest
    else if str_eq cmd (codes "uuidv7")
    then generates_uuidv7 rest
    else if str_eq cmd (codes "bytes16")
    then generates_bytes16
    else if str_eq cmd (codes "decode")
    then decodes rest
    else if str_eq cmd (codes "validate")
    then validates rest
    else if str_eq cmd (codes "check")
    then checks rest
    else if str_eq cmd (codes "benchmark")
    then benchmarks (includes rest (codes "--quick"))
    else if str_eq cmd (codes "version")
    then prints_version
    else if str_eq cmd (codes "help") || str_eq cmd (codes "--help") || str_eq cmd (codes "-h")
    then prints_usage
    else unknown_command cmd

-- A request for help behind the command comes first.
unfoldable pub with_rest : Bytes → List Bytes → Command
unfolding help_text usage_text
with_rest cmd rest =
    if includes rest (codes "--help") || includes rest (codes "-h")
    then shown cmd (help_text cmd)
    else command cmd rest

-- `const [cmd = 'ulid', ...rest] = process.argv.slice(2)`
unfoldable pub dispatch : List Bytes → Command
dispatch [] = with_rest (codes "ulid") []
dispatch (cmd ∷ rest) = with_rest cmd rest
