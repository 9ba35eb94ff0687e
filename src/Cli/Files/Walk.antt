-- ===== src/Cli/Files/Walk.antt =====
-- Which files a walk lists.
use rivid.Common.{
  ℕ, zero, suc, ◌≡◌, refl, ap, ◌∙◌, subst, ◌⊎◌, inl, inr, ◌↔◌, Bool, true, false, Option, none,
  some, List, [], ◌∷◌, ◌++◌, Bytes, Bool-cases, Option-cases, arith,
}
use rivid.Cli.Files.{
  FileSystem, skip_dirs, scan_ext, has_name, ◌>>=◌, walk_kind, walk_entry, walk_entries, walk,
}

abbrev pub IsIn : Bytes → List Bytes → Type 0
IsIn x [] = ⊥
IsIn x (y ∷ ys) = (x ≡ y) ⊎ IsIn x ys

IsIn-append : (f p : Bytes) (xs : List Bytes) → IsIn f (xs ++ (p ∷ [])) ↔ (IsIn f xs ⊎ (f ≡ p))
IsIn-append f p [] = (
  (λ h. elim h [ inl e ↦ inr e | inr x ↦ elim x [ ] ]),
  (λ h. elim h [ inl x ↦ elim x [ ] | inr e ↦ inl e ]),
)
IsIn-append f p (x ∷ xs) =
    let rest = IsIn-append f p xs in
    (
      (λ h. elim h [
        | inl e ↦ inl (inl e)
        | inr t ↦ elim (rest.0 t) [ inl u ↦ inl (inr u) | inr e ↦ inr e ]
      ]),
      (λ h. elim h [
        | inl i ↦ elim i [ inl e ↦ inl e | inr u ↦ inr (rest.1 (inl u)) ]
        | inr e ↦ inr (rest.1 (inr e))
      ]),
    )

module _ (fs : FileSystem) where
  -- A file with a scanned extension, reached from a directory through directories that can be listed
  -- and are not skipped.
  pub data IsBelow (f : Bytes) : Bytes → Type 0 where
    here :
        {dir : Bytes} (names : List Bytes) (name : Bytes)
        → fs.read_dir dir ≡ some names
        → IsIn name names
        → has_name skip_dirs name ≡ false
        → fs.is_directory (fs.join dir name) ≡ some false
        → has_name scan_ext (fs.ext_name name) ≡ true
        → f ≡ fs.join dir name
        → IsBelow f dir
    deeper :
        {dir : Bytes} (names : List Bytes) (name : Bytes)
        → fs.read_dir dir ≡ some names
        → IsIn name names
        → has_name skip_dirs name ≡ false
        → fs.is_directory (fs.join dir name) ≡ some true
        → IsBelow f (fs.join dir name)
        → IsBelow f dir

  -- Directories that are not skipped nest less than `n` deep.
  abbrev pub HasDepth : ℕ → Bytes → Type 0
  HasDepth zero dir = ⊥
  HasDepth (suc n) dir =
      (names : List Bytes) (name : Bytes)
      → fs.read_dir dir ≡ some names
      → IsIn name names
      → has_name skip_dirs name ≡ false
      → fs.is_directory (fs.join dir name) ≡ some true
      → HasDepth n (fs.join dir name)

  -- What a path adds, by what it is.
  abbrev IsKind : Bytes → Bytes → Bytes → Option Bool → Type 0
  IsKind f name p none = ⊥
  IsKind f name p (some true) = IsBelow f p
  IsKind f name p (some false) = (has_name scan_ext (fs.ext_name name) ≡ true) × (f ≡ p)

  -- What an entry of a directory adds.
  abbrev IsAt : Bytes → Bytes → Bytes → Type 0
  IsAt f dir name =
      (has_name skip_dirs name ≡ false)
      × IsKind f name (fs.join dir name) (fs.is_directory (fs.join dir name))

  abbrev IsAmong : Bytes → List Bytes → Bytes → Type 0
  IsAmong dir names f = (name : Bytes) × IsIn name names × IsAt f dir name

  -- `result` is `files` with what satisfies `P` added.
  abbrev IsExtended : (Bytes → Type 0) → List Bytes → Option (List Bytes) → Type 0
  IsExtended P files result =
      (out : List Bytes) × (result ≡ some out) × ((f : Bytes) → IsIn f out ↔ (IsIn f files ⊎ P f))

  unchanged :
      (P : Bytes → Type 0) (files : List Bytes)
      → ((f : Bytes) → P f → ⊥)
      → IsExtended P files (some files)
  unchanged P files never =
      (files, refl, λ f. ((λ h. inl h), (λ h. elim h [ inl i ↦ i | inr p ↦ elim (never f p) [ ] ])))

  IsExtended-map :
      (P Q : Bytes → Type 0) (files : List Bytes) (result : Option (List Bytes))
      → ((f : Bytes) → P f ↔ Q f)
      → IsExtended P files result
      → IsExtended Q files result
  IsExtended-map P Q files result same (out, e, found) = (
    out,
    e,
    λ f. (
      (λ h. elim ((found f).0 h) [ inl i ↦ inl i | inr p ↦ inr ((same f).0 p) ]),
      (λ h. elim h [ inl i ↦ (found f).1 (inl i) | inr q ↦ (found f).1 (inr ((same f).1 q)) ]),
    ),
  )

  module _ (visit : Bytes → List Bytes → Option (List Bytes)) (dir : Bytes) where
    abbrev IsWalk : Bytes → Type 0
    IsWalk name =
        has_name skip_dirs name ≡ false
        → fs.is_directory (fs.join dir name) ≡ some true
        → (files : List Bytes)
        → IsExtended (λ f. IsBelow f (fs.join dir name)) files (visit (fs.join dir name) files)

    -- An entry that is not skipped, by what it is.
    walk_kind_lem :
        (name p : Bytes) (files : List Bytes) (o : Option Bool)
        → (o ≡ some true → IsExtended (λ f. IsBelow f p) files (visit p files))
        → IsExtended (λ f. IsKind f name p o) files (walk_kind fs visit name p files o)
    walk_kind_lem name p files none h = unchanged (λ f. ⊥) files (λ f a. a)
    walk_kind_lem name p files (some true) h = h refl
    walk_kind_lem name p files (some false) h =
        elim (Bool-cases (has_name scan_ext (fs.ext_name name))) [
          | inl scanned ↦ rw scanned (
            files ++ (p ∷ []),
            refl,
            λ f. (
              (λ h. elim ((IsIn-append f p files).0 h) [ inl i ↦ inl i | inr e ↦ inr (refl, e) ]),
              (λ h. (IsIn-append f p files).1 (elim h [ inl i ↦ inl i | inr q ↦ inr q.1 ])),
            ),
          )
          | inr other ↦ rw other (unchanged _ files (λ f a. ground (arith, a.0)))
        ]

    walk_entry_lem :
        (name : Bytes) (files : List Bytes)
        → IsWalk name
        → IsExtended (λ f. IsAt f dir name) files (walk_entry fs visit dir name files)
    walk_entry_lem name files h = elim (Bool-cases (has_name skip_dirs name)) [
      | inl skip ↦ rw skip (unchanged _ files (λ f a. ground (arith, a.0)))
      | inr keep ↦ rw keep (
          IsExtended-map _ _ files _ (λ f. ((λ k. (refl, k)), (λ a. a.1)))
            (walk_kind_lem name (fs.join dir name) files _ (λ e. h keep e files)))
    ]

    walk_entries_lem :
        (names : List Bytes)
        → ((name : Bytes) → IsIn name names → IsWalk name)
        → (files : List Bytes)
        → IsExtended (IsAmong dir names) files (walk_entries fs visit dir names files)
    unfolding walk_entries
    walk_entries_lem [] h files = unchanged _ files (λ f a. a.1)
    walk_entries_lem (name ∷ names) h files =
        let (mid, e, found) = walk_entry_lem name files (h name (inl refl)) in
        let (out, e', found') = walk_entries_lem names (λ n i. h n (inr i)) mid in
        (
          out,
          ap (λ o. o >>= walk_entries fs visit dir names) e ∙ e',
          λ f. (
            (λ i. elim ((found' f).0 i) [
              | inl j ↦ elim ((found f).0 j) [ inl k ↦ inl k | inr a ↦ inr (name, inl refl, a) ]
              | inr (n, among, a) ↦ inr (n, inr among, a)
            ]),
            (λ i. (found' f).1 (elim i [
              | inl k ↦ inl ((found f).1 (inl k))
              | inr (n, inl e, a) ↦ inl ((found f).1 (inr (subst (IsAt f dir) e a)))
              | inr (n, inr among, a) ↦ inr (n, among, a)
            ])),
          ),
        )

  module _ {f : Bytes} where
    kind→below :
        (dir : Bytes) (names : List Bytes) (name : Bytes) (o : Option Bool)
        → fs.read_dir dir ≡ some names
        → IsIn name names
        → has_name skip_dirs name ≡ false
        → fs.is_directory (fs.join dir name) ≡ o
        → IsKind f name (fs.join dir name) o
        → IsBelow f dir
    kind→below dir names name none listed i keep e k = elim k [ ]
    kind→below dir names name (some true) listed i keep e k = deeper names name listed i keep e k
    kind→below dir names name (some false) listed i keep e k =
        here names name listed i keep e k.0 k.1

    below→among :
        {dir : Bytes}
        → IsBelow f dir
        → (names : List Bytes) → fs.read_dir dir ≡ some names
        → IsAmong dir names f
    below→among (here names' name listed' i keep e ext eq) names listed =
        (name, subst (IsIn name) (ground (arith, listed, listed')) i, (keep, rw e (ext, eq)))
    below→among (deeper names' name listed' i keep e b) names listed =
        (name, subst (IsIn name) (ground (arith, listed, listed')) i, (keep, rw e b))

    -- What the entries of a directory add is what is below it.
    among↔below :
        (dir : Bytes) (names : List Bytes)
        → fs.read_dir dir ≡ some names
        → IsAmong dir names f ↔ IsBelow f dir
    among↔below dir names listed = (
      (λ (name, i, (keep, k)). kind→below dir names name _ listed i keep refl k),
      (λ b. below→among b names listed),
    )

    not-below : {dir : Bytes} → fs.read_dir dir ≡ none → IsBelow f dir → ⊥
    not-below unlisted (here names name listed i keep e ext eq) = ground (arith, listed, unlisted)
    not-below unlisted (deeper names name listed i keep e b) = ground (arith, listed, unlisted)

  walk_extends :
      (depth : ℕ) (dir : Bytes)
      → HasDepth depth dir
      → (files : List Bytes) → IsExtended (λ f. IsBelow f dir) files (walk fs depth dir files)
  unfolding walk
  walk_extends zero dir h files = elim h [ ]
  walk_extends (suc depth) dir h files = elim (Option-cases (fs.read_dir dir)) [
    | inl unlisted ↦ rw unlisted (unchanged _ files (λ f b. not-below unlisted b))
    | inr (names, listed) ↦ rw listed (
        IsExtended-map _ _ files _ (λ f. among↔below dir names listed)
          (walk_entries_lem (walk fs depth) dir names
            (λ name i keep d fs'.
              walk_extends depth (fs.join dir name) (h names name listed i keep d) fs')
            files))
  ]

  -- Where the directories that are not skipped nest less than `depth` deep, the walk ends, and lists
  -- exactly the files below the directory: those whose name has a scanned extension and that are
  -- reached from it through directories that can be listed and whose names are not skipped.
  pub walk-lists :
      (depth : ℕ) (dir : Bytes)
      → HasDepth depth dir
      → (files : List Bytes) × (walk fs depth dir [] ≡ some files)
        × ((f : Bytes) → IsIn f files ↔ IsBelow f dir)
  walk-lists depth dir h =
      let (files, e, found) = walk_extends depth dir h [] in
      (
        files,
        e,
        λ f. (
          (λ i. elim ((found f).0 i) [ inl j ↦ elim j [ ] | inr b ↦ b ]),
          (λ b. (found f).1 (inr b)),
        ),
      )
