-- ===== src/Cli/Extract/KeyNames.antt =====
-- Which names the expression `/^id$|_id$|_key$/i` of cli/check.mjs matches.
use rivid.Common.{ℕ, ◌≡◌, refl, ap₂, ◌∙◌, Bool, true, false, ◌&&◌, ◌||◌, [], ◌∷◌, Bytes, codes}
use rivid.Js.Regex.{seq, match_at, exec_from, test}
use rivid.Js.Regex.Endings.{
  is_some, is_text, run-ending, run-whole, match_at-alt, exec_from-cons, test-exec,
}
use rivid.Js.Pattern.{any_case, all_of, any_of, start, end, is_nil}
use rivid.Cli.Extract.{key_name}

-- Some tail of the text, the text itself and the empty one included.
abbrev pub any_tail : (Bytes → Bool) → Bytes → Bool
any_tail holds [] = holds []
any_tail holds (c ∷ s) = holds (c ∷ s) || any_tail holds s

-- `_id` or `_key`, in any case.
abbrev pub is_key_end : Bytes → Bool
is_key_end s = is_text (codes "_id") s || is_text (codes "_key") s

match_at-key_name :
    (before after : Bytes)
    → is_some (match_at key_name before after)
      ≡ ((is_nil before && is_text (codes "id") after) || is_key_end after)
match_at-key_name before after =
    let id_end = seq (any_case (codes "_id")) end in
    let key_end = seq (any_case (codes "_key")) end in
    match_at-alt (all_of (start ∷ any_case (codes "id") ∷ end ∷ []))
      (any_of (id_end ∷ key_end ∷ [])) before after
    ∙ ap₂ (λ a b. a || b) (run-whole (codes "id") before after)
        (match_at-alt id_end key_end before after
          ∙ ap₂ (λ a b. a || b) (run-ending (codes "_id") before after)
              (run-ending (codes "_key") before after))

-- Behind the first character only the endings are left.
exec_from-key_name :
    (b : ℕ) (before after : Bytes)
    → is_some (exec_from key_name (b ∷ before) after) ≡ any_tail is_key_end after
unfolding exec_from
exec_from-key_name b before [] = match_at-key_name (b ∷ before) []
exec_from-key_name b before (x ∷ after) =
    exec_from-cons key_name (b ∷ before) x after
    ∙ ap₂ (λ p q. p || q) (match_at-key_name (b ∷ before) (x ∷ after))
        (exec_from-key_name x (b ∷ before) after)

or_assoc : (a b c : Bool) → ((a || b) || c) ≡ (a || (b || c))
or_assoc true b c = refl
or_assoc false b c = refl

-- The expression `/^id$|_id$|_key$/i` matches a name exactly if the name is `id` or some tail of it is
-- `_id` or `_key`, upper and lower case of ASCII letters being the same.
pub test-key_name :
    (name : Bytes) → test key_name name ≡ (is_text (codes "id") name || any_tail is_key_end name)
unfolding exec_from
test-key_name [] = test-exec key_name [] ∙ match_at-key_name [] []
test-key_name (x ∷ after) =
    test-exec key_name (x ∷ after)
    ∙ exec_from-cons key_name [] x after
    ∙ ap₂ (λ p q. p || q) (match_at-key_name [] (x ∷ after)) (exec_from-key_name x [] after)
    ∙ or_assoc (is_text (codes "id") (x ∷ after)) (is_key_end (x ∷ after))
        (any_tail is_key_end after)
