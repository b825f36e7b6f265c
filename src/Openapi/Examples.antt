-- ===== src/Openapi/Examples.antt =====
-- A registry with one type that refers to itself, and a controller with a route that returns it: the
-- inputs on which the theorems on internal/openapi are run.
use tsgonest.Common.{String, ◌≡◌, refl, true, false, none, some, List, [], ◌∷◌, inr}
use mathlib.Core.Bool.{false≢true}
use tsgonest.Common.Lists.{All}
use tsgonest.Common.Maps.{Values, lookup}
use tsgonest.Common.Texts.{has_prefix, split}
use tsgonest.Metadata.{
  Value, Kind, Facts, PropertyFacts, Metadata, metadata, no_property, property, null, no_element,
  no_member, no_index, TypeRegistry,
}
use tsgonest.Analyzer.{RouteParameter, Route, ControllerInfo}
use tsgonest.Openapi.Schema.{Schema}
use tsgonest.Openapi.SchemaGen.Action.{Gen}
use tsgonest.Openapi.SchemaGen.Children.{metadata_to_schema}
use tsgonest.Openapi.SchemaGen.Resolved.{Resolved, Has, Closed, Grows}
use tsgonest.Openapi.SchemaGen.Names.{missing-le-length}
use tsgonest.Openapi.SchemaGen.Known.{Known}
use tsgonest.Openapi.SchemaGen.Total.{metadata_to_schema-Closed}
use tsgonest.Openapi.Operation.Parameters.{properties}
use tsgonest.Openapi.Paths.{path_params, convert_path, ensure_path_params, path_param}
use tsgonest.Openapi.Paths.Templates.{route_params, path_params-convert_path}
use tsgonest.Openapi.Paths.Declared.{requires, ensure_path_params-requires}
use tsgonest.Openapi.Generate.{generate_with_options}
use tsgonest.Openapi.Generate.Routes.{PropertiesNamed, ControllersKnown}
use tsgonest.Openapi.Generate.Complete.{DocumentOk, generate_with_options-DocumentOk}
use tsgonest.Openapi.Compliance.{validate_document}
use tsgonest.Openapi.Compliant.{generate_with_options-validate_document}
use tsgonest.Openapi.Document.{Document}

abbrev facts_of : Kind → String → String → String → Facts
facts_of kind name atomic ref = record {
  kind = kind;
  nullable = false;
  optional = false;
  name = name;
  atomic = atomic;
  template_pattern = "";
  literal_value = Value.nil;
  discriminant = none;
  enum_values = [];
  native_type = "";
  ref = ref;
  strictness = "";
  ignore = "";
  constraints = none;
}

abbrev leaf_of : Facts → Metadata
leaf_of f = metadata f no_property null no_element no_member no_member no_member no_index

abbrev user_ref : Metadata
user_ref = leaf_of (facts_of Kind.ref "" "" "User")

abbrev text_type : Metadata
text_type = leaf_of (facts_of Kind.atomic "" "string" "")

abbrev required_property : String → PropertyFacts
required_property name = record {
  name = name;
  required = true;
  readonly = false;
  exact_optional = false;
  constraints = none;
  description = "";
  write_only = false;
  example = none;
}

abbrev user : Metadata
user =
    metadata (facts_of Kind.object "User" "" "")
      (property (required_property "id") text_type
        (property (required_property "parent") user_ref no_property))
      null no_element no_member no_member no_member no_index

abbrev registry : TypeRegistry
registry = ("User", user) ∷ []

abbrev id_parameter : RouteParameter
id_parameter = record {
  category = "param";
  name = "id";
  local_name = "id";
  type_name = "";
  type = text_type;
  required = true;
  content_type = "";
  description = "";
}

abbrev route : Route
route = record {
  method = "GET";
  path = "/users/:id";
  operation_id = "users_find";
  method_name = "find";
  parameters = id_parameter ∷ [];
  return_type_name = "";
  return_type = user_ref;
  status_code = 200;
  summary = "";
  description = "";
  deprecated = false;
  tags = [];
  security = [];
  error_responses = [];
  version = "";
  is_sse = false;
  is_event_stream = false;
  sse_event_variants = [];
  uses_raw_response = false;
  response_content_type = "";
  response_description = "";
  is_public = false;
  extensions = [];
  additional_responses = [];
  response_headers = [];
  redirect = none;
  versions = [];
}

abbrev controllers : List ControllerInfo
controllers =
    record {
      name = "UsersController";
      path = "users";
      routes = route ∷ [];
      source_file = "users.controller.ts";
      ignore_openapi = false;
    }
    ∷ []

abbrev names : List String
names = "User" ∷ []

text_type-Known : Known registry names text_type
unfolding Known
text_type-Known = (tt, tt, tt, tt, tt, tt, tt, tt)

user_ref-Known : Known registry names user_ref
unfolding Known lookup
user_ref-Known = (inr (refl, refl), tt, tt, tt, tt, tt, tt, tt)

registry-Known : Values (Known registry names) registry
unfolding Known
registry-Known = ((tt, (text_type-Known, (user_ref-Known, tt)), tt, tt, tt, tt, tt, tt), tt)

registry-PropertiesNamed : Values (λ m. PropertiesNamed (properties m)) registry
registry-PropertiesNamed = ((refl, (refl, tt)), tt)

controllers-ControllersKnown : ControllersKnown registry names controllers
unfolding has_prefix
controllers-ControllersKnown = (
  (
    record {
      rooted = refl;
      parameters = (
        record {
          type = text_type-Known;
          unpacks = record {
            named = λ e. absurd (false≢true e);
            registered = λ e. absurd (false≢true e);
          };
        },
        tt,
      );
      return_type = user_ref-Known;
      variants = tt;
      additional = tt;
      errors = tt;
    },
    tt,
  ),
  tt,
)

metadata_to_schema-Closed_example :
    (s : Schema) × (g' : Gen) × (metadata_to_schema registry 1 user_ref [] ≡ some (s, g'))
    × Closed g'
    × Grows [] g'
    × Resolved (Has g') s
metadata_to_schema-Closed_example =
    metadata_to_schema-Closed registry names 1 user_ref [] registry-Known user_ref-Known tt
      (missing-le-length names [])

generate_with_options-validate_document_example :
    (doc : Document) × (g' : Gen) × (generate_with_options registry 1 none controllers []
      ≡ some (doc, g'))
    × (validate_document doc ≡ [])
generate_with_options-validate_document_example =
    generate_with_options-validate_document registry names 1 none controllers [] registry-Known
      registry-PropertiesNamed controllers-ControllersKnown tt (missing-le-length names [])

generate_with_options-DocumentOk_example :
    (doc : Document) × (g' : Gen) × (generate_with_options registry 1 none controllers []
      ≡ some (doc, g'))
    × DocumentOk none doc g'
generate_with_options-DocumentOk_example =
    generate_with_options-DocumentOk registry names 1 none controllers [] registry-Known
      registry-PropertiesNamed controllers-ControllersKnown tt (missing-le-length names [])

path_params-convert_path_example : path_params (convert_path "/u/:id") ≡ "id" ∷ []
unfolding route_params split
path_params-convert_path_example =
    path_params-convert_path "/u/:id" (refl, (refl, (refl, (refl, (refl, (refl, tt))))))
      (refl, (refl, (refl, (refl, (refl, (refl, tt))))))

ensure_path_params-requires_example :
    All
      (λ n. requires (ensure_path_params (path_param "id" ∷ []) "/users/{id}/{post}") n ≡ true)
      (path_params "/users/{id}/{post}")
ensure_path_params-requires_example =
    ensure_path_params-requires (path_param "id" ∷ []) "/users/{id}/{post}" (λ _. refl, tt)
