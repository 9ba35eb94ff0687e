-- ===== src/Js/Pattern.antt =====
-- The forms of regular expressions that the command-line tool writes.
use rivid.Common.{ℕ, Bool, true, false, not, ◌||◌, List, [], ◌∷◌, Bytes, codes, ◌==◌}
use rivid.Js.Text.{is_space, is_word, ascii_lower}
use rivid.Js.Regex.{Regex, empty, one, seq, alt, star, assert}

abbrev pub all_of : List Regex → Regex
all_of [] = empty
all_of (r ∷ rs) = seq r (all_of rs)

-- `(?:a|b|...)`
abbrev pub any_of : List Regex → Regex
any_of [] = one (λ c. false)
any_of (r ∷ []) = r
any_of (r ∷ q ∷ rs) = alt r (any_of (q ∷ rs))

-- `r+`, `r?`
abbrev pub some_of : Regex → Regex
some_of r = seq r (star true r)

abbrev pub maybe : Regex → Regex
maybe r = alt r empty

-- A text, and a text in any case, given in lower case.
abbrev pub literal : Bytes → Regex
literal [] = empty
literal (c ∷ text) = seq (one (λ x. x == c)) (literal text)

abbrev pub any_case : Bytes → Regex
any_case [] = empty
any_case (c ∷ text) = seq (one (λ x. ascii_lower x == c)) (any_case text)

abbrev among : Bytes → ℕ → Bool
among [] c = false
among (x ∷ xs) c = c == x || among xs c

-- `[...]` and `[^...]` of single characters.
abbrev pub one_of : Bytes → Regex
one_of cs = one (λ c. among cs c)

abbrev pub none_of : Bytes → Regex
none_of cs = one (λ c. not (among cs c))

abbrev pub space : Regex
space = one is_space

abbrev pub spaces : Regex
spaces = star true space

abbrev pub word_char : Regex
word_char = one is_word

-- `\d`
abbrev pub digit_char : Regex
digit_char = one (λ c. among (codes "0123456789") c)

abbrev is_line_end : ℕ → Bool
is_line_end c = c == 10 || c == 13 || c == 8232 || c == 8233

-- `.`
abbrev pub dot : Regex
dot = one (λ c. not (is_line_end c))

abbrev pub is_nil : Bytes → Bool
is_nil [] = true
is_nil (c ∷ s) = false

abbrev next_is : (ℕ → Bool) → Bytes → Bool
next_is p [] = false
next_is p (c ∷ s) = p c

-- `^` and `$`, and `^` under the flag m.
abbrev pub start : Regex
start = assert (λ before after. is_nil before)

abbrev pub end : Regex
end = assert (λ before after. is_nil after)

abbrev pub line_start : Regex
line_start = assert (λ before after. is_nil before || next_is is_line_end before)

abbrev differ : Bool → Bool → Bool
differ true b = not b
differ false b = b

-- `\b`
abbrev pub word_edge : Regex
word_edge = assert (λ before after. differ (next_is is_word before) (next_is is_word after))
