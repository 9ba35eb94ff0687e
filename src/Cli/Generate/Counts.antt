-- ===== src/Cli/Generate/Counts.antt =====
-- How many identifiers a command prints.
use rivid.Common.{
  ℕ, ◌≤◌, ◌≡◌, refl, ap, sym, inl, inr, Bool, false, not, ◌&&◌, Option, none, some, List, [], ◌∷◌,
  Bytes, codes, length, leb, Bool-cases, arith,
}
use rivid.Js.{pos, negsuc, Number, integer, fractional, not_a_number, infinity, negative_infinity}
use rivid.Binding.Source.{Source, last_time}
use rivid.Cli.Generate.{
  max_count, includes, value_after, in_range, number_or, arg_num, lines, emit, done, ulid_command,
  uuidv7_command,
}

in_range-le : (v : Number) (n : ℕ) → in_range v ≡ some n → n ≤ max_count
in_range-le (integer (pos m)) n h = ground arith
in_range-le (integer (negsuc m)) n h = ground arith
in_range-le (fractional m) n h = ground arith
in_range-le not_a_number n h = ground arith
in_range-le infinity n h = ground arith
in_range-le negative_infinity n h = ground arith

number_or-le :
    (to_number : Option Bytes → Number) (o : Option (Option Bytes)) (n : ℕ)
    → number_or to_number 1 o ≡ some n
    → n ≤ max_count
number_or-le to_number none n h = ground arith
number_or-le to_number (some v) n h = in_range-le (to_number v) n h

value_after-absent :
    (argv : List Bytes) (name : Bytes) → includes argv name ≡ false → value_after argv name ≡ none
value_after-absent [] name h = refl
value_after-absent (a ∷ argv) name h = ground (arith, value_after-absent argv name)

module _ (source : Source) (to_number : Option Bytes → Number) (rest : List Bytes)
    (s : source.State) (count : ℕ)
    (asked : arg_num to_number rest (codes "--count") 1 ≡ some count) where
  count-le : count ≤ max_count
  unfolding arg_num
  count-le = number_or-le to_number _ count asked

  count-default : includes rest (codes "--count") ≡ false → count ≡ 1
  unfolding arg_num
  count-default h =
      ground
        (arith, asked, ap (number_or to_number 1) (value_after-absent rest (codes "--count") h))

  -- `rivid ulid` without `--monotonic` never fails at a time that a ULID can hold: where the argument
  -- of `--count` is accepted, it prints exactly that many identifiers, and one if there is no
  -- `--count`.
  pub ulid_command-prints :
      source.clock s ≤ last_time
      → includes rest (codes "--monotonic") ≡ false
      → (as_json : Bool) × (ids : List Bytes) × (t : source.State) × (ulid_command source to_number
            rest s
          ≡ done (emit as_json ids) t)
        × (length ids ≡ count)
  unfolding ulid_command
  ulid_command-prints in_time plain =
      elim (Bool-cases (leb count 1 && not (includes rest (codes "--count")))) [
        | inl one ↦
            let (id, t, made) = source.ulid-returns s in_time in
            (false, id ∷ [], t, rw (asked, plain, one, made), sym (count-default (ground arith)))
        | inr many ↦
            let (ids, t, made, n) = source.generate_many-returns count s count-le in
            (includes rest (codes "--json"), ids, t, rw (asked, plain, many, made), n)
      ]

  -- `rivid uuidv7` never fails: where the argument of `--count` is accepted, it prints exactly that
  -- many identifiers, and one if there is no `--count`.
  pub uuidv7_command-prints :
      (as_json : Bool) × (ids : List Bytes) × (t : source.State) × (uuidv7_command source to_number
          rest s
        ≡ done (emit as_json ids) t)
      × (length ids ≡ count)
  unfolding uuidv7_command
  uuidv7_command-prints = elim (Bool-cases (leb count 1 && not (includes rest (codes "--count")))) [
    | inl one ↦
        let (id, t, made) = source.uuidv7-returns s in
        (false, id ∷ [], t, rw (asked, one, made), sym (count-default (ground arith)))
    | inr many ↦
        let (ids, t, made, n) = source.generate_uuidv7_many-returns count s count-le in
        (includes rest (codes "--json"), ids, t, rw (asked, many, made), n)
  ]

-- `rivid ulid` without `--count` and `--monotonic` prints its one identifier as a line, also where
-- `--json` is given, at a time that a ULID can hold.
pub ulid_command-plain :
    (source : Source) (to_number : Option Bytes → Number) (rest : List Bytes) (s : source.State)
    → source.clock s ≤ last_time
    → includes rest (codes "--count") ≡ false
    → includes rest (codes "--monotonic") ≡ false
    → (id : Bytes) × (t : source.State) × (ulid_command source to_number rest s
        ≡ done (lines (id ∷ [])) t)
unfolding ulid_command arg_num
ulid_command-plain source to_number rest s in_time uncounted plain =
    let (id, t, made) = source.ulid-returns s in_time in
    (id, t, rw (value_after-absent rest (codes "--count") uncounted, plain, uncounted, made))
