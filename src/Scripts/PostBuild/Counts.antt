-- ===== src/Scripts/PostBuild/Counts.antt =====
-- Which files of dist the walk counts as rewritten and as remaining.
use rivid.Common.{
  ℕ, zero, suc, ◌+◌, ◌-◌, ◌≤◌, ◌<◌, ◌≡◌, refl, ap, ◌∙◌, inl, inr, Bool, true, false, not, ◌&&◌,
  ◌||◌, [], ◌∷◌, Bytes, codes, length, length-append, str_eq, str_eq→eq, str_eq_refl, if◌then◌else◌,
  Bool-cases, arith,
}
use rivid.Js.Regex.{test}
use rivid.Js.Text.{starts_with, contains}
use rivid.Scripts.PostBuild.{
  Entries, nil, file, folder, replace_from, replace_all, single_quoted, double_quoted, rewrite,
  module_re, specifier_re, walk,
}

module _ (q : ℕ) (ps r : Bytes) (longer : length (q ∷ ps) < length r) where
  length-replace_from :
      (skip : ℕ) (s : Bytes) → length s ≤ length (replace_from (q ∷ ps) r skip s) + skip
  unfolding replace_from
  length-replace_from skip [] = omega arith
  length-replace_from (suc skip) (c ∷ s) = omega (arith, length-replace_from skip s)
  length-replace_from zero (c ∷ s) = elim (Bool-cases (starts_with (q ∷ ps) (c ∷ s))) [
    | inl found ↦ rw found (
        omega (
          arith,
          longer,
          length-replace_from (length (q ∷ ps) - 1) s,
          length-append r (replace_from (q ∷ ps) r (length (q ∷ ps) - 1) s),
        ))
    | inr other ↦ rw other (omega (arith, length-replace_from 0 s))
  ]

  -- A text with an occurrence grows, and one without stays as it is.
  replace_from-contains :
      (s : Bytes) → contains (q ∷ ps) s ≡ true → length s < length (replace_from (q ∷ ps) r 0 s)
  unfolding replace_from
  replace_from-contains [] h = absurd (ground (arith, h))
  replace_from-contains (c ∷ s) h = elim (Bool-cases (starts_with (q ∷ ps) (c ∷ s))) [
    | inl found ↦ rw found (
        omega (
          arith,
          longer,
          length-replace_from (length (q ∷ ps) - 1) s,
          length-append r (replace_from (q ∷ ps) r (length (q ∷ ps) - 1) s),
        ))
    | inr other ↦ rw other (omega (arith, replace_from-contains s (rw other at h)))
  ]

  replace_from-without : (s : Bytes) → contains (q ∷ ps) s ≡ false → replace_from (q ∷ ps) r 0 s ≡ s
  unfolding replace_from
  replace_from-without [] h = refl
  replace_from-without (c ∷ s) h = elim (Bool-cases (starts_with (q ∷ ps) (c ∷ s))) [
    | inl found ↦ absurd (ground (arith, h, found))
    | inr other ↦ rw other (ap (λ t. c ∷ t) (replace_from-without s (rw other at h)))
  ]

-- The text has the specifier in quotes of one kind.
abbrev pub has_specifier : Bytes → Bool
has_specifier s = contains single_quoted s || contains double_quoted s

longer-differs : (t s : Bytes) → length s < length t → str_eq t s ≡ false
longer-differs t s h = elim (Bool-cases (str_eq t s)) [
  | inl e ↦ absurd (omega (arith, h, ap (λ (u : Bytes). length u) (str_eq→eq t s e)))
  | inr e ↦ e
]

abbrev single_new : Bytes
single_new = codes "'../../index.js'"

abbrev double_new : Bytes
double_new = codes "\"../../index.js\""

-- The tails of the specifiers behind their first quotes.
abbrev single_tail : Bytes
single_tail = codes "../index.js'"

abbrev double_tail : Bytes
double_tail = codes "../index.js\""

double_only :
    (src : Bytes)
    → str_eq (replace_from double_quoted double_new 0 src) src ≡ not (contains double_quoted src)
double_only src = elim (Bool-cases (contains double_quoted src)) [
  | inl two ↦
      rw two (
        longer-differs _ src
          (replace_from-contains 34 double_tail double_new (omega arith) src two))
  | inr neither ↦
      rw (neither, replace_from-without 34 double_tail double_new (omega arith) src neither)
        (str_eq_refl src)
]

-- The two replacements leave a text as it is exactly where it has no specifier.
rewrite-has_specifier : (src : Bytes) → str_eq (rewrite src) src ≡ not (has_specifier src)
unfolding rewrite replace_all
rewrite-has_specifier src =
    let once = replace_from single_quoted single_new 0 src in
    let twice = replace_from double_quoted double_new 0 once in
    let grown : length once ≤ length twice + 0 =
      length-replace_from 34 double_tail double_new (omega arith) 0 once in
    elim (Bool-cases (contains single_quoted src)) [
      | inl one ↦
          let more : length src < length once =
            replace_from-contains 39 single_tail single_new (omega arith) src one in
          rw one (longer-differs twice src (omega (arith, grown, more)))
      | inr neither ↦
          let same : once ≡ src =
            replace_from-without 39 single_tail single_new (omega arith) src neither in
          rw (neither, same) (double_only src)
    ]

-- The files of a directory, at any depth, whose name and text pass a test.
abbrev pub count : (Bytes → Bytes → Bool) → Entries → ℕ
count p nil = 0
count p (file name text rest) = (if p name text then 1 else 0) + count p rest
count p (folder name inner rest) = count p inner + count p rest

-- A module with the specifier in quotes of one kind; and a module without it that has the specifier
-- with two different quotes.
abbrev pub is_fixed : Bytes → Bytes → Bool
is_fixed name text = test module_re name && has_specifier text

abbrev pub is_remaining : Bytes → Bytes → Bool
is_remaining name text = test module_re name && (not (has_specifier text) && test specifier_re text)

-- The walk counts as fixed the modules below the directory that have the specifier of the binding in
-- single or in double quotes, and as remaining only modules that have it in neither, but between two
-- different quotes.
pub walk-counts :
    (t : Entries)
    → ((walk t).fixed ≡ count is_fixed t) × ((walk t).remaining ≡ count is_remaining t)
unfolding walk
walk-counts nil = (refl, refl)
walk-counts (folder name inner rest) =
    let below = walk-counts inner in
    let others = walk-counts rest in
    (omega (arith, below.0, others.0), omega (arith, below.1, others.1))
walk-counts (file name text rest) =
    let (fixed, remaining) = walk-counts rest in
    let decided = rewrite-has_specifier text in
    elim (Bool-cases (test module_re name)) [
      | inr other ↦ rw other (omega (arith, fixed), omega (arith, remaining))
      | inl named ↦ elim (Bool-cases (has_specifier text)) [
        | inl has ↦ rw (named, decided, has) (omega (arith, fixed), omega (arith, remaining))
        | inr lacks ↦
            let same = str_eq→eq (rewrite text) text (decided ∙ ap not lacks) in
            elim (Bool-cases (test specifier_re text)) [
              | inl t ↦
                  rw (named, decided, lacks, same, t)
                    (omega (arith, fixed), omega (arith, remaining))
              | inr f ↦
                  rw (named, decided, lacks, same, f)
                    (omega (arith, fixed), omega (arith, remaining))
            ]
      ]
    ]
