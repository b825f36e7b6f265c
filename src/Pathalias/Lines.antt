-- ===== src/Pathalias/Lines.antt =====
-- internal/pathalias/pathalias.go: ResolveImports, which rewrites a file line by line; what is rewritten
-- in a line.
use tsgonest.Common.{String, Option, none, some, List, [], ◌∷◌, ◌==◌, if◌then◌else◌}
use tsgonest.Common.Lists.{is_empty}
use tsgonest.Common.Texts.{◌<>◌, has_prefix, join, split}
use tsgonest.Pathalias.{onto_front, drop_text, text_length}
use tsgonest.Pathalias.Output.{PathFunctions, PathResolver, resolve_specifier}

-- What stands in front of the first occurrence and behind it.
unfoldable pub cut : String → String → Option (String × String)
unfolding has_prefix drop_text text_length
cut p String.[] = if has_prefix p String.[] then some (String.[], String.[]) else none
cut p (String.◌∷◌ c s) =
    let rest = onto_front (cut p s) c in
    if has_prefix p (String.◌∷◌ c s)
    then some (String.[], drop_text (text_length p) (String.◌∷◌ c s))
    else rest

-- The patterns, each with the quote that it ends in.
abbrev pub patterns : List (String × String)
patterns = ("require(\"", "\"") ∷ ("require('", "'") ∷ ("from \"", "\"") ∷ ("from '", "'") ∷ []

module _ (resolve : String → String) where
  abbrev pub put_resolved : String → String → String → String → String → String
  put_resolved line before pattern specifier behind =
      let resolved = resolve specifier in
      if resolved == specifier then line else before <> pattern <> resolved <> behind

  -- The text up to the quote, with the text from the quote on.
  abbrev pub resolve_to_quote :
      String → String → String → String → Option (String × String) → String
  resolve_to_quote line before pattern quote none = line
  resolve_to_quote line before pattern quote (some (specifier, behind)) =
      put_resolved line before pattern specifier (quote <> behind)

  abbrev pub resolve_behind : String → String × String → Option (String × String) → String
  resolve_behind line (pattern, quote) none = line
  resolve_behind line (pattern, quote) (some (before, behind)) =
      resolve_to_quote line before pattern quote (cut quote behind)

  -- One pattern of the loop.
  abbrev pub resolve_pattern : String → String × String → String
  resolve_pattern line (pattern, quote) = resolve_behind line (pattern, quote) (cut pattern line)

  abbrev pub resolve_patterns : String → List (String × String) → String
  resolve_patterns line [] = line
  resolve_patterns line (p ∷ ps) = resolve_patterns (resolve_pattern line p) ps

  -- `resolveImportLine`.
  unfoldable pub resolve_import_line : String → String
  unfolding cut
  resolve_import_line line = resolve_patterns line patterns

abbrev pub each_line : (String → String) → List String → List String
each_line f [] = []
each_line f (l ∷ ls) = f l ∷ each_line f ls

module _ (paths : PathFunctions) (r : PathResolver) where
  -- `ResolveImports`.
  unfoldable pub resolve_imports : String → String → String
  unfolding resolve_import_line split join
  resolve_imports content file_path =
      if is_empty r.aliases
      then content
      else join "\n"
          (each_line (resolve_import_line (resolve_specifier paths r file_path)) (split 10 content))
