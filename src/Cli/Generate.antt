-- ===== src/Cli/Generate.antt =====
-- cli/rivid.mjs: the commands that generate identifiers. `Number` of the language is a parameter.
pub mod Counts
use rivid.Common.{
  ℕ, zero, suc, Bool, true, false, not, ◌&&◌, ◌||◌, Option, none, some, List, [], ◌∷◌, Bytes, codes,
  ltb, leb, str_eq, if◌then◌else◌,
}
use rivid.Js.{
  ℤ, pos, negsuc, Number, integer, fractional, not_a_number, infinity, negative_infinity, Thrown,
  Outcome, returns, throws, ◌>>=◌,
}
use rivid.Binding.Source.{Source}

abbrev pub max_count : ℕ
max_count = 100000000

abbrev pub includes : List Bytes → Bytes → Bool
includes [] name = false
includes (a ∷ argv) name = str_eq a name || includes argv name

-- `argv[i]`; `none` for `undefined`.
abbrev head : List Bytes → Option Bytes
head [] = none
head (a ∷ argv) = some a

-- `argv[i + 1]` for the index `i` of the name; outer `none` if the name is not there.
abbrev pub value_after : List Bytes → Bytes → Option (Option Bytes)
value_after [] name = none
value_after (a ∷ argv) name = if str_eq a name then some (head argv) else value_after argv name

-- The number of an option's argument; `none` where the program exits with 1.
abbrev in_range : Number → Option ℕ
in_range (integer (pos n)) = if ltb max_count n then none else some n
in_range (integer (negsuc n)) = none
in_range (fractional n) = none
in_range not_a_number = none
in_range infinity = none
in_range negative_infinity = none

abbrev number_or : (Option Bytes → Number) → ℕ → Option (Option Bytes) → Option ℕ
number_or to_number fallback none = some fallback
number_or to_number fallback (some v) = in_range (to_number v)

unfoldable pub arg_num : (Option Bytes → Number) → List Bytes → Bytes → ℕ → Option ℕ
arg_num to_number argv name fallback = number_or to_number fallback (value_after argv name)

-- What goes to the standard output: one identifier a line, or one JSON array.
pub data Printed : Type 0 where
  lines : List Bytes → Printed
  json : List Bytes → Printed

abbrev pub emit : Bool → List Bytes → Printed
emit as_json values = if as_json then json values else lines values

module _ (source : Source) (to_number : Option Bytes → Number) where
  open source use {State}

  -- How a command ends: its output and the generators' state, an exit code, or an uncaught error.
  pub data Ending : Type 0 where
    done : Printed → State → Ending
    exits : ℕ → Ending
    fails : Thrown → Ending

  abbrev pub print_one : Outcome (Bytes × State) → Ending
  print_one (returns (id, s)) = done (emit false (id ∷ [])) s
  print_one (throws e) = fails e

  abbrev pub print_all : Bool → Outcome (List Bytes × State) → Ending
  print_all as_json (returns (ids, s)) = done (emit as_json ids) s
  print_all as_json (throws e) = fails e

  -- `Array.from({ length: count }, () => core.monotonicUlid())`
  unfoldable pub monotonic_many : ℕ → State → Outcome (List Bytes × State)
  monotonic_many zero s = returns ([], s)
  monotonic_many (suc count) s = do
    first ← source.monotonic_ulid s
    others ← monotonic_many count first.1
    returns (first.0 ∷ others.0, others.1)

  abbrev pub ulid_with : List Bytes → State → Option ℕ → Ending
  ulid_with rest s none = exits 1
  ulid_with rest s (some count) =
      let as_json = includes rest (codes "--json") in
      if includes rest (codes "--monotonic")
      then print_all as_json (monotonic_many count s)
      else if leb count 1 && not (includes rest (codes "--count"))
      then print_one (source.ulid s)
      else print_all as_json (source.generate_many count s)

  -- `case 'ulid'`
  unfoldable pub ulid_command : List Bytes → State → Ending
  ulid_command rest s = ulid_with rest s (arg_num to_number rest (codes "--count") 1)

  abbrev pub uuidv7_with : List Bytes → State → Option ℕ → Ending
  uuidv7_with rest s none = exits 1
  uuidv7_with rest s (some count) =
      let as_json = includes rest (codes "--json") in
      if leb count 1 && not (includes rest (codes "--count"))
      then print_one (source.uuidv7 s)
      else print_all as_json (source.generate_uuidv7_many count s)

  -- `case 'uuidv7'`
  unfoldable pub uuidv7_command : List Bytes → State → Ending
  uuidv7_command rest s = uuidv7_with rest s (arg_num to_number rest (codes "--count") 1)
