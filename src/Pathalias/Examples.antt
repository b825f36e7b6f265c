-- ===== src/Pathalias/Examples.antt =====
-- internal/pathalias/pathalias.go: two aliases, in both orders; a line with imports; the root of two files.
use Prim.Native.Char.{Char, code}
use tsgonest.Common.{
  ◌<◌, ◌⊎◌, nat_eq, arith, true, Option, some, if◌then◌else◌, String, List, [], ◌∷◌, none, ◌≡◌,
  refl, ◌==◌, inl, inr, eq_iff,
}
use tsgonest.Common.Tests.{Bool-cases, Option-cases}
use tsgonest.Common.Maps.{Map, lookup, Distinct}
use tsgonest.Common.Texts.{◌<>◌}
use tsgonest.Pathalias.{best_match, match_and_resolve}
use tsgonest.Pathalias.Choice.{IsLongest, best_match-IsLongest}
use tsgonest.Pathalias.Order.{Reordered, reordered, match_and_resolve-Reordered}
use tsgonest.Common.Texts.{has_prefix}
use tsgonest.Pathalias.{drop_text, text_length}
use tsgonest.Pathalias.Edited.{Rewritten, resolve_import_line-Rewritten}
use tsgonest.Pathalias.Lines.{resolve_import_line}
use tsgonest.Pathalias.Output.{PathFunctions, PathResolver, resolve_specifier, to_relative}
use tsgonest.Pathalias.Again.{resolve_specifier_idem}
use tsgonest.Pathalias.RootDir.{
  infer_root_dir, Under, IsAbove, at_root, shorter, infer_root_dir_ends,
}

abbrev aliases : Map (List String)
aliases = ("@app/*", "src/*" ∷ []) ∷ ("@app/db/*", "./lib/db/*" ∷ []) ∷ []

abbrev swapped : Map (List String)
swapped = ("@app/db/*", "./lib/db/*" ∷ []) ∷ ("@app/*", "src/*" ∷ []) ∷ []

abbrev near : String → String
near path = "./" <> path

longest : match_and_resolve near aliases "@app/db/user" ≡ "./lib/db/user"
unfolding match_and_resolve
longest = refl

aliases-Distinct : Distinct aliases
unfolding lookup
aliases-Distinct = (refl, (refl, tt))

swapped-Distinct : Distinct swapped
unfolding lookup
swapped-Distinct = (refl, (refl, tt))

aliases-Reordered : Reordered aliases swapped
unfolding lookup
aliases-Reordered = reordered (λ k. elim (Bool-cases ("@app/*" == k)) [
  | inl y ↦ rw (← (eq_iff "@app/*" k).0 y) refl
  | inr n ↦ rw n refl
])

best_match-IsLongest_example :
    IsLongest "@app/db/user" aliases (best_match "@app/db/user" none aliases)
best_match-IsLongest_example = best_match-IsLongest "@app/db/user" aliases

match_and_resolve-Reordered_example :
    match_and_resolve near aliases "@app/db/user" ≡ match_and_resolve near swapped "@app/db/user"
match_and_resolve-Reordered_example =
    match_and_resolve-Reordered near "@app/db/user" aliases swapped aliases-Distinct
      swapped-Distinct aliases-Reordered

-- A line with two imports.
abbrev line : String
line = "export { a } from \"@app/db/user\"; const b = require('@app/b');"

line_resolved :
    resolve_import_line (match_and_resolve near aliases) line
    ≡ "export { a } from \"./lib/db/user\"; const b = require('./src/b');"
unfolding match_and_resolve resolve_import_line
line_resolved = refl

resolve_import_line-Rewritten_example :
    (one : String) × (two : String) × (three : String) × Rewritten
      (match_and_resolve near aliases)
      "require(\""
      "\""
      line
      one
    × Rewritten (match_and_resolve near aliases) "require('" "'" one two
    × Rewritten (match_and_resolve near aliases) "from \"" "\"" two three
    × Rewritten
        (match_and_resolve near aliases)
        "from '"
        "'"
        three
        (resolve_import_line (match_and_resolve near aliases) line)
resolve_import_line-Rewritten_example =
    resolve_import_line-Rewritten (match_and_resolve near aliases) line

-- Paths as they are, relative to the first.
abbrev slashes : PathFunctions
slashes = record {
  join = λ a b. a <> "/" <> b;
  rel = λ from to. if has_prefix from to then some (drop_text (text_length from) to) else none;
  dir = λ p. p;
  base = λ p. p;
  to_slash = λ p. p;
}

abbrev resolver : PathResolver
resolver = record { paths_base_dir = "/p"; out_dir = "/o"; root_dir = "/p/"; aliases = aliases }

specifier_resolved : resolve_specifier slashes resolver "/o/" "@app/db/user" ≡ "./lib/db/user"
unfolding match_and_resolve to_relative drop_text text_length has_prefix
specifier_resolved = refl

resolve_specifier_idem_example :
    resolve_specifier slashes resolver "/o/"
      (resolve_specifier slashes resolver "/o/" "@app/db/user")
    ≡ resolve_specifier slashes resolver "/o/" "@app/db/user"
resolve_specifier_idem_example = resolve_specifier_idem slashes resolver "/o/" "@app/db/user"

-- What stands in front of the last slash.
abbrev in_front : Char → Option String → Option String
in_front c none = if nat_eq (code c) 47 then some String.[] else none
in_front c (some t) = some (String.◌∷◌ c t)

unfoldable last_cut : String → Option String
last_cut String.[] = none
last_cut (String.◌∷◌ c s) = in_front c (last_cut s)

abbrev dir_of : Option String → String
dir_of none = "."
dir_of (some String.[]) = "/"
dir_of (some (String.◌∷◌ c t)) = String.◌∷◌ c t

unfoldable dir : String → String
unfolding last_cut
dir p = dir_of (last_cut p)

last_cut_shorter :
    (p t : String) → last_cut p ≡ some t → (has_prefix t p ≡ true) × (text_length t < text_length p)
unfolding last_cut has_prefix text_length
last_cut_shorter String.[] t e = absurd (ground (arith, e))
last_cut_shorter (String.◌∷◌ c p) t e = elim (Option-cases (last_cut p)) [
  | inl n ↦ let same : t ≡ String.[] = ground (arith, e, n) in rw same (refl, ground arith)
  | inr (u, n) ↦
      let same : t ≡ String.◌∷◌ c u = ground (arith, e, n) in
      let (h, l) = last_cut_shorter p u n in rw same (ground (arith, h), ground (arith, l))
]

dir-IsAbove_of : (p : String) (o : Option String) → last_cut p ≡ o → IsAbove (dir_of o) p
dir-IsAbove_of p none e = at_root refl
dir-IsAbove_of p (some String.[]) e = at_root refl
dir-IsAbove_of p (some (String.◌∷◌ c t)) e =
    let (h, l) = last_cut_shorter p (String.◌∷◌ c t) e in shorter h l

dir-IsAbove : (p : String) → IsAbove (dir (dir p)) (dir p)
unfolding dir
dir-IsAbove p = dir-IsAbove_of (dir p) (last_cut (dir p)) refl

abbrev files : List String
files = "/a/src/m/x.ts" ∷ "/a/src/y.ts" ∷ []

files_root : infer_root_dir dir files ≡ some "/a/src"
unfolding infer_root_dir dir
files_root = refl

infer_root_dir_ends_example :
    (c : String) × (infer_root_dir dir files ≡ some c) × ((c ≡ "") ⊎ Under dir c files)
infer_root_dir_ends_example = infer_root_dir_ends dir dir-IsAbove files
