-- ===== src/Openapi/Generate.antt =====
-- internal/openapi/generator.go, GenerateWithOptions: the controllers into a document.
pub mod Entries
pub mod Valid
pub mod Routes
pub mod Drafts
pub mod Events
pub mod Described
pub mod Replies
pub mod Items
pub mod Steps
pub mod Complete
use tsgonest.Common.{
  ℕ, zero, String, Bool, true, false, ◌&&◌, Option, none, some, List, [], ◌∷◌, ◌++◌, ◌==◌, map,
  if◌then◌else◌,
}
use text.Mathlib.Text.{is_lt}
use Prim.Native.String.{compare}
use tsgonest.Common.Lists.{is_empty}
use tsgonest.Common.Maps.{Map, insert, lookup}
use tsgonest.Common.Texts.{◌<>◌, trim}
use tsgonest.Metadata.{TypeRegistry, Value}
use tsgonest.Analyzer.{Route, ControllerInfo}
use tsgonest.Openapi.Schema.{no_keywords, leaf}
use tsgonest.Openapi.Document.{
  Document, Info, Tag, PathItem, Operation, Parameter, GenerateOptions, Components,
}
use tsgonest.Openapi.SchemaGen.Action.{Gen, M, pure, ◌>>=◌}
use tsgonest.Openapi.Paths.{convert_path, ensure_path_params}
use tsgonest.Openapi.Operation.Parameters.{add_parameter, parameter}
use tsgonest.Openapi.Operation.Build.{build_operation}

abbrev pub no_path_item : PathItem
no_path_item = record {
  get = none;
  post = none;
  put = none;
  delete = none;
  patch = none;
  head = none;
  options = none;
}

-- The switch on the method: another method leaves the item as it is.
unfoldable pub set_method : String → Operation → PathItem → PathItem
set_method method op item =
    if method == "GET"
    then record item { get = some op }
    else if method == "POST"
    then record item { post = some op }
    else if method == "PUT"
    then record item { put = some op }
    else if method == "DELETE"
    then record item { delete = some op }
    else if method == "PATCH"
    then record item { patch = some op }
    else if method == "HEAD"
    then record item { head = some op }
    else if method == "OPTIONS"
    then record item { options = some op }
    else item

abbrev pub or_default : String → String → String
or_default default given = if given == "" then default else given

-- URI versioning.
unfoldable pub versioned : Option GenerateOptions → String → String → String
versioned none version path = path
versioned (some o) version path =
    let v = or_default o.default_version version in
    if o.versioning_type == "URI"
    then (if v == "" then path else "/" <> or_default "v" o.version_prefix <> v <> path)
    else path

-- The global prefix.
unfoldable pub prefixed : Option GenerateOptions → String → String
prefixed none path = path
prefixed (some o) path =
    if o.global_prefix == "" then path else ("/" <> trim b'/' o.global_prefix) <> path

unfoldable pub openapi_path : Option GenerateOptions → String → Route → String
unfolding versioned prefixed
openapi_path opts version r = prefixed opts (versioned opts version (convert_path r.path))

version_parameter : String → Parameter
version_parameter v =
    parameter "X-API-Version" "header" "" true
      (leaf (record no_keywords { type = "string"; const = Value.text v }))

-- HEADER versioning.
unfoldable pub with_version_header : Option GenerateOptions → String → Operation → Operation
unfolding version_parameter
with_version_header none version op = op
with_version_header (some o) version op =
    let v = or_default o.default_version version in
    if o.versioning_type == "HEADER"
    then (if v == "" then op else add_parameter op (version_parameter v))
    else op

-- The variables of the loops: `doc.Paths` and the keys of `tagSet`.
pub record Progress : Type 0 where
  pub paths : Map PathItem
  pub tag_set : Map Bool

abbrev pub item_at : String → Map PathItem → PathItem
item_at path paths = elim (lookup path paths) [ none ↦ no_path_item | some item ↦ item ]

unfoldable pub collect_tags : List String → Map Bool → Map Bool
collect_tags [] tags = tags
collect_tags (t ∷ ts) tags = collect_tags ts (insert t true tags)

module _ (registry : TypeRegistry) (fuel : ℕ) (opts : Option GenerateOptions) where
  -- The operation as it stands under its path.
  unfoldable pub finish_operation : String → String → Operation → Operation
  finish_operation path version op =
      with_version_header opts version
        (record op { parameters = ensure_path_params op.parameters path })

  unfoldable pub add_version : String → Route → String → Progress → M Progress
  add_version controller_name r version p = do
    op ← build_operation registry fuel r controller_name
    let path = openapi_path opts version r
    pure (record {
      paths =
          insert path
            (set_method r.method (finish_operation path version op) (item_at path p.paths)) p.paths;
      tag_set = collect_tags r.tags p.tag_set;
    })

  unfoldable pub add_versions : String → Route → List String → Progress → M Progress
  add_versions controller_name r [] p = pure p
  add_versions controller_name r (v ∷ vs) p = do
    p' ← add_version controller_name r v p
    add_versions controller_name r vs p'

  abbrev pub route_versions : Route → List String
  route_versions r = if is_empty r.versions then r.version ∷ [] else r.versions

  unfoldable pub add_routes : String → List Route → Progress → M Progress
  add_routes controller_name [] p = pure p
  add_routes controller_name (r ∷ rs) p = do
    p' ← add_versions controller_name r (route_versions r) p
    add_routes controller_name rs p'

  unfoldable pub add_controllers : List ControllerInfo → Progress → M Progress
  add_controllers [] p = pure p
  add_controllers (c ∷ cs) p = do
    p' ← (if c.ignore_openapi then pure p else add_routes c.name c.routes p)
    add_controllers cs p'

-- `sort.Slice` by name. The names of a set differ, so that the order is determined.
unfoldable pub insert_tag : Tag → List Tag → List Tag
insert_tag t [] = t ∷ []
insert_tag t (u ∷ us) = if is_lt (compare t.name u.name) then t ∷ u ∷ us else u ∷ insert_tag t us

unfoldable pub sort_tags : List Tag → List Tag
unfolding insert_tag
sort_tags [] = []
sort_tags (t ∷ ts) = insert_tag t (sort_tags ts)

abbrev pub option_or : (GenerateOptions → String) → Option GenerateOptions → String
option_or field none = ""
option_or field (some o) = field o

abbrev pub initial_info : Option GenerateOptions → Info
initial_info opts = record {
  title = "API";
  description = "";
  version = "1.0.0";
  terms_of_service = "";
  contact = none;
  license = none;
  x_tsgonest_global_prefix = option_or (λ o. o.global_prefix) opts;
  x_tsgonest_version_prefix = option_or (λ o. o.version_prefix) opts;
}

unfoldable pub assemble : Option GenerateOptions → Progress → Gen → Document
unfolding sort_tags
assemble opts p g = record {
  openapi = "3.2.0";
  info = initial_info opts;
  servers = [];
  paths = some p.paths;
  components = if is_empty g then none else some (record { schemas = g; security_schemes = [] });
  tags = sort_tags (map (λ t. record { name = t.0; description = "" }) p.tag_set);
  security = [];
}

-- `GenerateWithOptions` of a generator whose schemas are `g`; these stay with it.
unfoldable pub generate_with_options :
    TypeRegistry → ℕ → Option GenerateOptions → List ControllerInfo → Gen → Option (Document × Gen)
generate_with_options registry fuel opts controllers g =
    elim (add_controllers registry fuel opts controllers (record { paths = []; tag_set = [] }) g) [
      | none ↦ none
      | some (p, g') ↦ some (assemble opts p g', g')
    ]
