-- ===== src/Runs/Commands.antt =====
-- The generating commands with a generator that counts.
use rivid.Common.{◌-◌, ◌≡◌, refl, Option, some, List, [], ◌∷◌, Bytes, codes}
use rivid.Js.{Number, integer, pos, not_a_number}
use rivid.Cli.Generate.{arg_num, json, done, ulid_command}
use rivid.Runs.Rows.{counter}

-- `Number` on `undefined` and on numerals of one digit.
abbrev digit_number : Option Bytes → Number
digit_number (some (c ∷ [])) = integer (pos (c - 48))
digit_number _ = not_a_number

abbrev count_three : List Bytes
count_three = codes "--count" ∷ codes "3" ∷ codes "--json" ∷ []

ulid_command-run :
    ulid_command counter digit_number count_three 7
    ≡ done (json ((7 ∷ []) ∷ (8 ∷ []) ∷ (9 ∷ []) ∷ [])) 10
unfolding ulid_command arg_num
ulid_command-run = refl
