-- ===== src/Pathalias/Output.antt =====
-- internal/pathalias/pathalias.go: toRelative and sourceToOutput, on the functions of path/filepath,
-- which are parameters; the resolver's directories.
use text.Mathlib.TextLemmas.{cons-append}
use tsgonest.Common.{
  String, true, ◌||◌, Option, none, some, List, ◌==◌, ◌≡◌, inl, inr, refl, if◌then◌else◌,
}
use tsgonest.Common.Tests.{Bool-cases}
use tsgonest.Common.Maps.{Map}
use tsgonest.Common.Texts.{◌<>◌, has_prefix}
use tsgonest.Pathalias.{match_and_resolve}

-- Of path/filepath; `rel` fails where no relative path is known.
pub record PathFunctions : Type 0 where
  pub join : String → String → String
  pub rel : String → String → Option String
  pub dir : String → String
  pub base : String → String
  pub to_slash : String → String

pub record PathResolver : Type 0 where
  pub paths_base_dir : String
  pub out_dir : String
  pub root_dir : String
  pub aliases : Map (List String)

-- `if !strings.HasPrefix(rel, ".") { rel = "./" + rel }`.
abbrev pub dotted : String → String
dotted path = if has_prefix "." path then path else "./" <> path

pub dotted_lem : (t : String) → has_prefix "." (dotted t) ≡ true
unfolding has_prefix
dotted_lem t = elim (Bool-cases (has_prefix "." t)) [
  | inl y ↦ rw y y
  | inr n ↦ rw (n, cons-append "." "/" t) refl
]

module _ (paths : PathFunctions) (r : PathResolver) where
  -- Under the output directory alone, or as it is.
  abbrev pub elsewhere : String → String
  elsewhere src_path =
      if r.out_dir == "" then src_path else paths.join r.out_dir (paths.base src_path)

  abbrev pub under_out_dir : String → Option String → String
  under_out_dir src_path none = elsewhere src_path
  under_out_dir src_path (some rel) =
      if has_prefix ".." rel then elsewhere src_path else paths.join r.out_dir rel

  -- `sourceToOutput`.
  unfoldable pub source_to_output : String → String
  unfolding has_prefix
  source_to_output src_path =
      if r.root_dir == "" || r.out_dir == ""
      then elsewhere src_path
      else under_out_dir src_path (paths.rel r.root_dir src_path)

  abbrev pub relative : Option String → String
  relative none = ""
  relative (some rel) = dotted (paths.to_slash rel)

  -- `toRelative`.
  unfoldable pub to_relative : String → String → String
  unfolding source_to_output has_prefix
  to_relative from_file target_path =
      relative (paths.rel (paths.dir from_file) (source_to_output target_path))

  -- A target as it is resolved from a file.
  abbrev pub resolve_target : String → String → String
  resolve_target from_file target = to_relative from_file (paths.join r.paths_base_dir target)

  -- `matchAndResolve`.
  abbrev pub resolve_specifier : String → String → String
  resolve_specifier from_file = match_and_resolve (resolve_target from_file) r.aliases
