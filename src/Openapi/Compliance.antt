-- ===== src/Openapi/Compliance.antt =====
-- internal/openapi/compliance.go: the check of a document against the OpenAPI specification. The
-- place and the message of an error are the data that the code formats, not the formatted text.
use tsgonest.Common.{
  ℕ, zero, ◌+◌, String, Bool, true, not, ◌&&◌, ◌||◌, Option, none, some, List, [], ◌∷◌, ◌++◌, ◌==◌,
  if◌then◌else◌,
}
use tsgonest.Common.Lists.{is_empty}
use tsgonest.Common.Maps.{Map}
use tsgonest.Common.Texts.{has_prefix}
use tsgonest.Openapi.Schema.{Schema, keywords}
use tsgonest.Openapi.Document.{
  Document, PathItem, Operation, Parameter, Response, Server, Components,
}

pub data Part : Type 0 where
  responses : Part
  parameter_name parameter_in parameter_required : ℕ → Part
  response_description : String → Part

pub data Place : Type 0 where
  field : String → Place
  path_key : String → Place
  in_operation : (path method : String) → Part → Place
  component : String → Place
  server_url : ℕ → Place

pub data Message : Type 0 where
  text : String → Message
  unexpected_version : String → Message
  invalid_value : String → Message

pub record ValidationError : Type 0 where
  pub place : Place
  pub message : Message

-- `if test { errors = append(errors, …) }`, as the list of what is appended.
abbrev pub error_if : Bool → Place → Message → List ValidationError
error_if test place message = if test then record { place = place; message = message } ∷ [] else []

abbrev missing_field : Message
missing_field = Message.text "required field missing"

unfoldable pub is_known_location : String → Bool
is_known_location l = l == "query" || l == "path" || l == "header" || l == "cookie"

-- The body of the loop over the parameters.
unfoldable pub validate_parameter : (Part → Place) → ℕ → Parameter → List ValidationError
unfolding is_known_location
validate_parameter at i p =
    error_if (p.name == "") (at (Part.parameter_name i)) missing_field
    ++ ((if p.location == ""
          then error_if true (at (Part.parameter_in i)) missing_field
          else error_if (not (is_known_location p.location)) (at (Part.parameter_in i))
              (Message.invalid_value p.location))
        ++ error_if (p.location == "path" && not p.required) (at (Part.parameter_required i))
            (Message.text "path parameters must be required"))

unfoldable pub validate_parameters : (Part → Place) → ℕ → List Parameter → List ValidationError
validate_parameters at i [] = []
validate_parameters at i (p ∷ ps) = validate_parameter at i p ++ validate_parameters at (i + 1) ps

unfoldable pub validate_responses : (Part → Place) → Map Response → List ValidationError
validate_responses at [] = []
validate_responses at ((code, r) ∷ rs) =
    error_if (r.description == "") (at (Part.response_description code)) missing_field
    ++ validate_responses at rs

-- `validateOperation`.
unfoldable pub validate_operation : (Part → Place) → Operation → List ValidationError
validate_operation at op =
    error_if (is_empty op.responses) (at Part.responses)
      (Message.text "at least one response is required")
    ++ (validate_parameters at zero op.parameters ++ validate_responses at op.responses)

abbrev pub validate_slot : String → String → Option Operation → List ValidationError
validate_slot path method none = []
validate_slot path method (some op) = validate_operation (Place.in_operation path method) op

-- `validatePathItem`.
unfoldable pub validate_path_item : String → PathItem → List ValidationError
validate_path_item path item =
    validate_slot path "get" item.get
    ++ (validate_slot path "post" item.post
        ++ (validate_slot path "put" item.put
            ++ (validate_slot path "delete" item.delete
                ++ (validate_slot path "patch" item.patch
                    ++ (validate_slot path "head" item.head
                        ++ validate_slot path "options" item.options)))))

unfoldable pub validate_paths : Map PathItem → List ValidationError
validate_paths [] = []
validate_paths ((path, item) ∷ more) =
    error_if (not (has_prefix "/" path)) (Place.path_key path)
      (Message.text "path must begin with /")
    ++ (validate_path_item path item ++ validate_paths more)

-- `validateSchema`.
unfoldable pub validate_schema : String → Schema → List ValidationError
validate_schema name s =
    error_if (not ((keywords s).ref == "") && not ((keywords s).type == "")) (Place.component name)
      (Message.text "$ref should not be combined with type")

unfoldable pub validate_schemas : Map Schema → List ValidationError
validate_schemas [] = []
validate_schemas ((name, s) ∷ more) = validate_schema name s ++ validate_schemas more

unfoldable pub validate_servers : ℕ → List Server → List ValidationError
validate_servers i [] = []
validate_servers i (s ∷ ss) =
    error_if (s.url == "") (Place.server_url i) missing_field ++ validate_servers (i + 1) ss

validate_version : String → List ValidationError
validate_version v =
    if v == ""
    then error_if true (Place.field "openapi") missing_field
    else error_if (not (has_prefix "3.1" v) && not (has_prefix "3.2" v)) (Place.field "openapi")
        (Message.unexpected_version v)

abbrev validate_all_paths : Option (Map PathItem) → List ValidationError
validate_all_paths none = error_if true (Place.field "paths") missing_field
validate_all_paths (some paths) = validate_paths paths

abbrev pub validate_components : Option Components → List ValidationError
validate_components none = []
validate_components (some c) = validate_schemas c.schemas

-- `ValidateDocument`.
unfoldable pub validate_document : Document → List ValidationError
unfolding validate_version
validate_document doc =
    validate_version doc.openapi
    ++ (error_if (doc.info.title == "") (Place.field "info.title") missing_field
        ++ (error_if (doc.info.version == "") (Place.field "info.version") missing_field
            ++ (validate_all_paths doc.paths
                ++ (validate_components doc.components ++ validate_servers zero doc.servers))))
