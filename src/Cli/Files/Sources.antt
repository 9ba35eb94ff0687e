-- ===== src/Cli/Files/Sources.antt =====
-- Where the columns that `extractAll` gives come from, and what it counts.
use rivid.Common.{
  ℕ, ◌+◌, ◌≡◌, refl, ap, ◌∙◌, inl, inr, false, ◌&&◌, Option, none, some, List, [], ◌∷◌, Bytes, All,
  codes, All-append_lists, str_eq, if◌then◌else◌, Bool-cases,
}
use rivid.Js.Regex.{test}
use rivid.Cli.Columns.{Column}
use rivid.Cli.Extract.Sources.{
  IsOf, if-IsOf, extract_sql-IsOf, extract_prisma-IsOf, extract_drizzle_ts-IsOf,
}
use rivid.Cli.Files.{
  FileSystem, drizzle_re, has_name, ◌>>=◌, walk, extract_file, is_excluded, extract_text,
  extract_files, extract_all,
}
use rivid.Cli.Files.Walk.{IsIn, IsBelow, HasDepth, walk-lists}

extract_file-IsOf : (ext text rel : Bytes) → All (IsOf rel) (extract_file ext text rel)
unfolding extract_file
extract_file-IsOf ext text rel =
    let is_drizzle =
      has_name (codes ".ts" ∷ codes ".mts" ∷ codes ".tsx" ∷ []) ext && test drizzle_re text in
    elim (Bool-cases (str_eq ext (codes ".sql"))) [
      | inl sql ↦ rw sql (extract_sql-IsOf rel text)
      | inr n ↦ rw n (elim (Bool-cases (str_eq ext (codes ".prisma"))) [
        | inl prisma ↦ rw prisma (extract_prisma-IsOf rel text)
        | inr m ↦ rw m (if-IsOf rel is_drizzle _ [] (extract_drizzle_ts-IsOf rel text) tt)
      ])
    ]

module _ (fs : FileSystem) (root : Bytes) where
  -- The column comes from the text of a scanned file, and names the file by its path from the root.
  abbrev pub IsFrom : Column → Type 0
  IsFrom c =
      (f : Bytes) × (text : Bytes) × IsBelow fs f root
      × (is_excluded fs f ≡ false)
      × (fs.read_file f ≡ some text)
      × (c.file ≡ fs.relative root f)

  IsOf-IsFrom :
      (f text : Bytes) (cols : List Column)
      → IsBelow fs f root
      → is_excluded fs f ≡ false
      → fs.read_file f ≡ some text
      → All (IsOf (fs.relative root f)) cols
      → All IsFrom cols
  IsOf-IsFrom f text [] b keep e h = tt
  IsOf-IsFrom f text (c ∷ cols) b keep e h =
      ((f, text, b, keep, e, h.0), IsOf-IsFrom f text cols b keep e h.1)

  extract_text-IsFrom :
      (f : Bytes) (o : Option Bytes)
      → fs.read_file f ≡ o
      → IsBelow fs f root
      → is_excluded fs f ≡ false
      → All IsFrom (extract_text fs root f o)
  extract_text-IsFrom f none e b keep = tt
  extract_text-IsFrom f (some text) e b keep =
      IsOf-IsFrom f text _ b keep e (extract_file-IsOf (fs.ext_name f) text (fs.relative root f))

  -- How many of the files are not excluded.
  abbrev pub included : List Bytes → ℕ
  included [] = 0
  included (f ∷ files) = if is_excluded fs f then included files else included files + 1

  extract_files-IsFrom :
      (files : List Bytes)
      → ((f : Bytes) → IsIn f files → IsBelow fs f root)
      → All IsFrom (extract_files fs root files).0
        × ((extract_files fs root files).1 ≡ included files)
  unfolding extract_files
  extract_files-IsFrom [] h = (tt, refl)
  extract_files-IsFrom (f ∷ files) h =
      let rest = extract_files-IsFrom files (λ g i. h g (inr i)) in
      elim (Bool-cases (is_excluded fs f)) [
        | inl skip ↦ rw skip rest
        | inr keep ↦ rw keep (
          All-append_lists IsFrom (extract_text fs root f (fs.read_file f)) _
              (extract_text-IsFrom f _ refl (h f (inl refl)) keep) rest.0,
          ap (λ n. n + 1) rest.1,
        )
      ]

  -- Where the directories that are not skipped nest less than `depth` deep, the extraction ends; each
  -- column comes from a file that the walk lists, that is not below a folder integrations or
  -- benchmarks and that can be read, and names that file by its path from the root; and the number of
  -- scanned files is the number of listed files that are not below such a folder.
  pub extract_all-IsFrom :
      (depth : ℕ)
      → HasDepth fs depth root
      → (files : List Bytes) × (cols : List Column) × (walk fs depth root [] ≡ some files)
        × (extract_all fs depth root ≡ some (cols, included files))
        × All IsFrom cols
  unfolding extract_all
  extract_all-IsFrom depth h =
      let (files, e, found) = walk-lists fs depth root h in
      let (from, counted) = extract_files-IsFrom files (λ f i. (found f).0 i) in
      (
        files,
        (extract_files fs root files).0,
        e,
        ap (λ o. o >>= λ files. some (extract_files fs root files)) e
            ∙ ap (λ n. some ((extract_files fs root files).0, n)) counted,
        from,
      )
