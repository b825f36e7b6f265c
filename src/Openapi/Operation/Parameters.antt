-- ===== src/Openapi/Operation/Parameters.antt =====
-- internal/openapi/generator.go: the loop of buildOperation over the parameters of a route.
use tsgonest.Common.{
  ℕ, String, Bool, true, ◌&&◌, none, some, List, [], ◌∷◌, ◌++◌, ◌==◌, if◌then◌else◌,
}
use tsgonest.Common.Maps.{lookup}
use tsgonest.Metadata.{
  Kind, Metadata, metadata, Properties, no_property, property, facts, is_kind, TypeRegistry,
}
use tsgonest.Analyzer.{RouteParameter}
use tsgonest.Openapi.Schema.{Schema}
use tsgonest.Openapi.Document.{Operation, Parameter}
use tsgonest.Openapi.SchemaGen.Action.{M, pure, ◌>>=◌}
use tsgonest.Openapi.SchemaGen.Children.{metadata_to_schema}

abbrev pub properties : Metadata → Properties
properties (metadata f ps el els us is ts ix) = ps

abbrev pub add_parameter : Operation → Parameter → Operation
add_parameter op p = record op { parameters = op.parameters ++ p ∷ [] }

abbrev pub parameter : String → String → String → Bool → Schema → Parameter
parameter name location description required s = record {
  name = name;
  location = location;
  description = description;
  required = required;
  style = "";
  explode = none;
  schema = s;
}

-- `isArrayKind` and what follows from it for a query parameter.
abbrev pub exploded : Metadata → Parameter → Parameter
exploded m p =
    if is_kind (facts m).kind Kind.array
    then record p { style = "form"; explode = some true }
    else p

module _ (registry : TypeRegistry) (fuel : ℕ) where
  abbrev convert : Metadata → M Schema
  convert = metadata_to_schema registry fuel

  -- `decomposeQueryObject`.
  unfoldable pub decompose_query : Properties → Operation → M Operation
  decompose_query no_property op = pure op
  decompose_query (property p m ps) op = do
    s ← metadata_to_schema registry fuel m
    decompose_query ps (add_parameter op (exploded m (parameter p.name "query" "" p.required s)))

  -- `decomposeHeaderObject`.
  unfoldable pub decompose_header : Properties → Operation → M Operation
  decompose_header no_property op = pure op
  decompose_header (property p m ps) op = do
    s ← metadata_to_schema registry fuel m
    decompose_header ps (add_parameter op (parameter p.name "header" "" p.required s))

  -- One parameter of the operation for one of the route.
  unfoldable pub plain : String → String → Bool → RouteParameter → Operation → M Operation
  plain name location required p op = do
    s ← metadata_to_schema registry fuel p.type
    pure (add_parameter op (parameter name location p.description required s))

  -- The cases "query" and "headers", which take an object without a name apart.
  unfoldable pub object_or_plain :
      (Properties → Operation → M Operation)
      → String
      → String
      → RouteParameter
      → Operation
      → M Operation
  object_or_plain decompose location default p op =
      if is_kind (facts p.type).kind Kind.object && p.name == ""
      then decompose (properties p.type) op
      else if is_kind (facts p.type).kind Kind.ref && p.name == ""
      then elim (lookup (facts p.type).ref registry) [
        | some resolved ↦ decompose (properties resolved) op
        | none ↦ plain p.name location p.required p op
      ]
      else plain (if p.name == "" then default else p.name) location p.required p op

  body_content_type : RouteParameter → String
  body_content_type p =
      if p.content_type == ""
      then (if is_kind (facts p.type).kind Kind.atomic && (facts p.type).atomic == "string"
          then "text/plain"
          else "application/json")
      else p.content_type

  -- The case "body".
  unfoldable pub body : RouteParameter → Operation → M Operation
  unfolding body_content_type
  body p op = do
    s ← metadata_to_schema registry fuel p.type
    pure (record op {
      request_body = some (record {
        required = p.required;
        content = (body_content_type p, record { schema = some s; item_schema = none }) ∷ [];
      });
    })

  -- The switch on the category.
  unfoldable pub one_parameter : RouteParameter → Operation → M Operation
  one_parameter p op =
      if p.category == "body"
      then body p op
      else if p.category == "query"
      then object_or_plain decompose_query "query" "query" p op
      else if p.category == "param"
      then plain (if p.name == "" then "id" else p.name) "path" true p op
      else if p.category == "headers"
      then object_or_plain decompose_header "header" "headers" p op
      else pure op

  unfoldable pub all_parameters : List RouteParameter → Operation → M Operation
  all_parameters [] op = pure op
  all_parameters (p ∷ ps) op = do op' ← one_parameter p op; all_parameters ps op'
