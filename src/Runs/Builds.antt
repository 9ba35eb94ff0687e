-- ===== src/Runs/Builds.antt =====
-- A build with a module that has the specifier, one without, and a file that is no module.
use rivid.Common.{◌≡◌, refl, none, Bytes, codes}
use rivid.Js.Regex.{test, exec}
use rivid.Scripts.PostBuild.{
  Entries, nil, file, folder, walk, replace, replace_all, rewrite, module_re, specifier_re,
  patch_declarations, post_build,
}
use rivid.Scripts.PostBuild.Counts.{count, is_fixed, is_remaining, walk-counts}

abbrev built : Entries
built =
    folder (codes "esm")
      (file (codes "ulid.js") (codes "from '../index.js'")
        (file (codes "a.txt") (codes "'../index.js'") nil))
      (file (codes "b.d.ts") (codes "'../index.js\"") nil)

abbrev ksuids : Bytes
ksuids = codes "export declare function generateKsuidMany(count: number): object"

walk-built : (walk built).fixed ≡ 1
unfolding walk module_re specifier_re rewrite replace_all test exec
walk-built = refl

patch_declarations-ksuids :
    patch_declarations ksuids
    ≡ codes "export declare function generateKsuidMany(count: number): string[]"
unfolding patch_declarations replace exec
patch_declarations-ksuids = refl

-- The last module has two different quotes, so the build fails.
post_build-built : post_build built ksuids ≡ none
unfolding post_build walk module_re specifier_re rewrite replace_all test exec
post_build-built = refl

walk-counts_example :
    ((walk built).fixed ≡ count is_fixed built)
    × ((walk built).remaining ≡ count is_remaining built)
walk-counts_example = walk-counts built
