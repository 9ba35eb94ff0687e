-- ===== src/Js/Regex/Endings.antt =====
-- Expressions for a text at the end of the input, in any case.
use rivid.Common.{
  ℕ, ◌≡◌, refl, ap, ◌∙◌, inl, inr, Bool, true, false, ◌&&◌, ◌||◌, Option, none, some, List, [], ◌∷◌,
  Bytes, map, str_eq, ◌==◌, Bool-cases, Option-cases,
}
use rivid.Js.Text.{ascii_lower}
use rivid.Js.Regex.{Regex, Cursor, seq, alt, Next, run, consume, match_at, exec_from, exec, test}
use rivid.Js.Pattern.{any_case, end, start, all_of, is_nil}

abbrev pub is_some : Option Cursor → Bool
is_some none = false
is_some (some c) = true

-- The rest of the input is the text, in any case.
abbrev pub is_text : Bytes → Bytes → Bool
is_text text s = str_eq (map ascii_lower s) text

module _ (p : ℕ → Bool) (c : Cursor) (x : ℕ) (rest : Bytes) (k : Next) where
  consume-hit :
      p x ≡ true → consume p c (x ∷ rest) k ≡ k (record c { before = x ∷ c.before; after = rest })
  unfolding consume
  consume-hit e = rw (consume, e) refl

  consume-miss : p x ≡ false → consume p c (x ∷ rest) k ≡ none
  unfolding consume
  consume-miss e = rw (consume, e) refl

run-any_case :
    (text before after : Bytes) (captures : List (ℕ × Bytes)) (k : Next)
    → ((d : Cursor) → is_some (k d) ≡ is_nil d.after)
    → is_some
        (run (any_case text) (record { before = before; after = after; captures = captures }) k)
      ≡ is_text text after
unfolding run consume
run-any_case [] before [] captures k h = h _
run-any_case [] before (x ∷ rest) captures k h = h _
run-any_case (t ∷ text) before [] captures k h = refl
run-any_case (t ∷ text) before (x ∷ rest) captures k h =
    let same_as : ℕ → Bool = λ y. ascii_lower y == t in
    let c : Cursor = record { before = before; after = x ∷ rest; captures = captures } in
    let next : Next = λ d. run (any_case text) d k in
    elim (Bool-cases (ascii_lower x == t)) [
      | inl same ↦
          ap is_some (consume-hit same_as c x rest next same)
          ∙ run-any_case text (x ∷ before) rest captures k h
          ∙ rw same refl
      | inr other ↦ ap is_some (consume-miss same_as c x rest next other) ∙ rw other refl
    ]

is_some-alt :
    (a b : Regex) (c : Cursor) (k : Next)
    → is_some (run (alt a b) c k) ≡ (is_some (run a c k) || is_some (run b c k))
unfolding run
is_some-alt a b c k = elim (Option-cases (run a c k)) [ inl e ↦ rw e refl | inr (d, e) ↦ rw e refl ]

end_of :
    (before after : Bytes) (captures : List (ℕ × Bytes))
    → is_some
        (run end (record { before = before; after = after; captures = captures }) (λ c. some c))
      ≡ is_nil after
unfolding run
end_of before [] captures = refl
end_of before (x ∷ rest) captures = refl

end-is_nil : (d : Cursor) → is_some (run end d (λ c. some c)) ≡ is_nil d.after
end-is_nil d = end_of d.before d.after d.captures

pub run-ending :
    (text before after : Bytes)
    → is_some (match_at (seq (any_case text) end) before after) ≡ is_text text after
unfolding match_at run
run-ending text before after =
    run-any_case text before after [] (λ d. run end d (λ c. some c)) end-is_nil

pub run-whole :
    (text before after : Bytes)
    → is_some (match_at (all_of (start ∷ any_case text ∷ end ∷ [])) before after)
      ≡ (is_nil before && is_text text after)
unfolding match_at run
run-whole text [] after = run-any_case text [] after [] (λ d. run end d (λ c. some c)) end-is_nil
run-whole text (b ∷ before) after = refl

pub match_at-alt :
    (a b : Regex) (before after : Bytes)
    → is_some (match_at (alt a b) before after)
      ≡ (is_some (match_at a before after) || is_some (match_at b before after))
unfolding match_at
match_at-alt a b before after =
    is_some-alt a b (record { before = before; after = after; captures = [] }) (λ c. some c)

pub exec_from-cons :
    (r : Regex) (before : Bytes) (x : ℕ) (after : Bytes)
    → is_some (exec_from r before (x ∷ after))
      ≡ (is_some (match_at r before (x ∷ after)) || is_some (exec_from r (x ∷ before) after))
unfolding exec_from
exec_from-cons r before x after = elim (Option-cases (match_at r before (x ∷ after))) [
  | inl e ↦ rw (exec_from, e) refl
  | inr (d, e) ↦ rw (exec_from, e) refl
]

pub test-exec : (r : Regex) (s : Bytes) → test r s ≡ is_some (exec_from r [] s)
unfolding test exec
test-exec r s = elim (Option-cases (exec_from r [] s)) [
  | inl e ↦ rw (test, e) refl
  | inr (d, e) ↦ rw (test, e) refl
]
