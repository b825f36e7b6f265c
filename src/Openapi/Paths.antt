-- ===== src/Openapi/Paths.antt =====
-- internal/openapi/generator.go: paths and their parameters. `path_params` is what the regular
-- expression \{([^}]+)\} finds: from a brace on, the text up to the next closing one, if not empty.
pub mod Templates
pub mod Declared
pub mod Rooted
use Prim.Native.Char.{code}
use Prim.Native.String.{String, [], ◌∷◌}
use mathlib.Core.List
use tsgonest.Common.{
  Bool, true, false, ◌&&◌, Option, none, some, List, ◌==◌, nat_eq, if◌then◌else◌, ◌++◌, map,
}
use tsgonest.Common.Lists.{any}
use tsgonest.Common.Texts.{◌<>◌, split, join}
use tsgonest.Openapi.Schema.{typed}
use tsgonest.Openapi.Document.{Parameter}

-- The body of the loop of convertPath: a part ":id" becomes "{id}".
unfoldable pub convert_part : String → String
convert_part [] = []
convert_part (c ∷ s) = if nat_eq (code c) b':' then "{" <> s <> "}" else c ∷ s

-- `convertPath`.
unfoldable pub convert_path : String → String
unfolding convert_part
convert_path path = join "/" (map convert_part (split b'/' path))

-- The match that is under way, or none.
unfoldable pub scan : Option String → String → List String
scan none [] = List.[]
scan (some name) [] = List.[]
scan none (c ∷ s) = scan (if nat_eq (code c) b'{' then some "" else none) s
scan (some name) (c ∷ s) =
    let found = List.◌∷◌ name (scan none s) in
    let longer = scan (some (name <> c ∷ [])) s in
    let skipped = scan none s in
    if nat_eq (code c) b'}' then (if name == "" then skipped else found) else longer

unfoldable pub path_params : String → List String
unfolding scan
path_params path = scan none path

-- The keys of the map `declared`.
abbrev pub is_declared : List Parameter → String → Bool
is_declared ps name = any (λ p. p.location == "path" && p.name == name) ps

abbrev pub path_param : String → Parameter
path_param name = record {
  name = name;
  location = "path";
  description = "";
  required = true;
  style = "";
  explode = none;
  schema = typed "string";
}

-- The loop over the matches; `declared` is not extended in it.
unfoldable pub synthesized : List Parameter → List String → List Parameter
synthesized declared List.[] = List.[]
synthesized declared (List.◌∷◌ name names) =
    let rest = synthesized declared names in
    if is_declared declared name then rest else List.◌∷◌ (path_param name) rest

-- `ensurePathParams`, on the parameters of the operation.
unfoldable pub ensure_path_params : List Parameter → String → List Parameter
unfolding synthesized path_params
ensure_path_params ps path = ps ++ synthesized ps (path_params path)
