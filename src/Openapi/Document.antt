-- ===== src/Openapi/Document.antt =====
-- internal/openapi/generator.go: the structs of an OpenAPI document.
use tsgonest.Common.{String, Bool, Option, List}
use tsgonest.Common.Maps.{Map}
use tsgonest.Openapi.Schema.{Schema}

pub record Contact : Type 0 where
  pub name : String
  pub url : String
  pub email : String

pub record License : Type 0 where
  pub name : String
  pub url : String

pub record Info : Type 0 where
  pub title : String
  pub description : String
  pub version : String
  pub terms_of_service : String
  pub contact : Option Contact
  pub license : Option License
  pub x_tsgonest_global_prefix : String
  pub x_tsgonest_version_prefix : String

pub record Server : Type 0 where
  pub url : String
  pub description : String

pub record Tag : Type 0 where
  pub name : String
  pub description : String

pub record Parameter : Type 0 where
  pub name : String
  pub location : String
  pub description : String
  pub required : Bool
  pub style : String
  pub explode : Option Bool
  pub schema : Schema

pub record MediaType : Type 0 where
  pub schema : Option Schema
  pub item_schema : Option Schema

pub record RequestBody : Type 0 where
  pub required : Bool
  pub content : Map MediaType

pub record HeaderObject : Type 0 where
  pub description : String
  pub schema : Schema

pub record Response : Type 0 where
  pub description : String
  pub headers : Map HeaderObject
  pub content : Map MediaType

-- `security` is `none` for a nil slice, which inherits the security of the document; an empty slice
-- is another thing.
pub record Operation : Type 0 where
  pub operation_id : String
  pub summary : String
  pub description : String
  pub tags : List String
  pub deprecated : Bool
  pub security : Option (List (Map (List String)))
  pub parameters : List Parameter
  pub request_body : Option RequestBody
  pub responses : Map Response
  pub x_tsgonest_controller : String
  pub x_tsgonest_method : String
  pub extensions : Map String

pub record PathItem : Type 0 where
  pub get : Option Operation
  pub post : Option Operation
  pub put : Option Operation
  pub delete : Option Operation
  pub patch : Option Operation
  pub head : Option Operation
  pub options : Option Operation

pub record SecurityScheme : Type 0 where
  pub type : String
  pub scheme : String
  pub bearer_format : String
  pub location : String
  pub name : String
  pub description : String

pub record Components : Type 0 where
  pub schemas : Map Schema
  pub security_schemes : Map SecurityScheme

-- `paths` is `none` for a nil map.
pub record Document : Type 0 where
  pub openapi : String
  pub info : Info
  pub servers : List Server
  pub paths : Option (Map PathItem)
  pub components : Option Components
  pub tags : List Tag
  pub security : List (Map (List String))

pub record GenerateOptions : Type 0 where
  pub global_prefix : String
  pub versioning_type : String
  pub version_prefix : String
  pub default_version : String

pub record DocumentConfig : Type 0 where
  pub title : String
  pub description : String
  pub version : String
  pub terms_of_service : String
  pub contact : Option Contact
  pub license : Option License
  pub servers : List Server
  pub security_schemes : Map SecurityScheme
  pub security : List (Map (List String))
  pub tags : List Tag
