-- ===== src/Openapi/Schema.antt =====
-- internal/openapi/schema.go: the struct Schema and the functions that build one with no state.
-- As in Metadata, the plain fields are a record; `schema` has the others in this order:
-- Properties, Items, PrefixItems, AnyOf, OneOf, AllOf, AdditionalProperties, ContentSchema.
pub mod Constrain
use Prim.Native.String
use tsgonest.Common.{String, Bool, Option, none, List, [], ◌∷◌, ◌==◌, if◌then◌else◌}
use tsgonest.Common.Maps.{Map}
use tsgonest.Metadata.{Float64, ℤ, Value}

pub record Discriminator : Type 0 where
  pub property_name : String
  pub mapping : Map String

pub record Keywords : Type 0 where
  pub type : String
  pub format : String
  pub required : List String
  pub enum : List Value
  pub const : Value
  pub ref : String
  pub nullable : Bool
  pub description : String
  pub discriminator : Option Discriminator
  pub minimum : Option Float64
  pub maximum : Option Float64
  pub exclusive_minimum : Option Float64
  pub exclusive_maximum : Option Float64
  pub multiple_of : Option Float64
  pub min_length : Option ℤ
  pub max_length : Option ℤ
  pub pattern : String
  pub min_items : Option ℤ
  pub max_items : Option ℤ
  pub unique_items : Option Bool
  pub default : Value
  pub content_media_type : String
  pub read_only : Option Bool
  pub write_only : Option Bool
  pub example : Option String

mutual
  pub data Schema : Type 0 where
    schema :
        Keywords
        → Fields
        → Pointer
        → Schemas
        → Schemas
        → Schemas
        → Schemas
        → SchemaOrBool
        → Pointer
        → Schema

  -- The map Properties.
  pub data Fields : Type 0 where
    no_field : Fields
    field : String → Schema → Fields → Fields

  pub data Pointer : Type 0 where
    null : Pointer
    to : Schema → Pointer

  pub data Schemas : Type 0 where
    no_schema : Schemas
    cons : Schema → Schemas → Schemas

  -- A nil pointer, or one of the two fields of the struct SchemaOrBool.
  pub data SchemaOrBool : Type 0 where
    absent : SchemaOrBool
    is_schema : Schema → SchemaOrBool
    is_bool : Bool → SchemaOrBool

abbrev pub keywords : Schema → Keywords
keywords (schema k ps it pi an on al ad cs) = k

abbrev pub with_keywords : Schema → Keywords → Schema
with_keywords (schema _ ps it pi an on al ad cs) k = schema k ps it pi an on al ad cs

-- The zero value of each plain field.
abbrev pub no_keywords : Keywords
no_keywords = record {
  type = "";
  format = "";
  required = [];
  enum = [];
  const = Value.nil;
  ref = "";
  nullable = Bool.false;
  description = "";
  discriminator = none;
  minimum = none;
  maximum = none;
  exclusive_minimum = none;
  exclusive_maximum = none;
  multiple_of = none;
  min_length = none;
  max_length = none;
  pattern = "";
  min_items = none;
  max_items = none;
  unique_items = none;
  default = Value.nil;
  content_media_type = "";
  read_only = none;
  write_only = none;
  example = none;
}

-- A schema with no schema inside.
abbrev pub leaf : Keywords → Schema
leaf k = schema k no_field null no_schema no_schema no_schema no_schema SchemaOrBool.absent null

abbrev pub typed : String → Schema
typed t = leaf (record no_keywords { type = t })

abbrev pub formatted : String → String → Schema
formatted t f = leaf (record no_keywords { type = t; format = f })

abbrev pub schemas_of : List Schema → Schemas
schemas_of [] = no_schema
schemas_of (s ∷ ss) = cons s (schemas_of ss)

abbrev pub fields_of : Map Schema → Fields
fields_of [] = no_field
fields_of ((name, s) ∷ fs) = field name s (fields_of fs)

abbrev pub any_of : List Schema → Schema
any_of ss =
    schema no_keywords no_field null no_schema (schemas_of ss) no_schema no_schema
      SchemaOrBool.absent null

abbrev pub one_of : Keywords → List Schema → Schema
one_of k ss =
    schema k no_field null no_schema no_schema (schemas_of ss) no_schema SchemaOrBool.absent null

abbrev pub all_of : List Schema → Schema
all_of ss =
    schema no_keywords no_field null no_schema no_schema no_schema (schemas_of ss)
      SchemaOrBool.absent null

abbrev pub object_of : Keywords → Map Schema → SchemaOrBool → Schema
object_of k fs extra =
    schema k (fields_of fs) null no_schema no_schema no_schema no_schema extra null

abbrev pub array_of : Keywords → Pointer → List Schema → Schema
array_of k items prefix =
    schema k no_field items (schemas_of prefix) no_schema no_schema no_schema SchemaOrBool.absent
      null

-- A text that holds JSON of its own.
abbrev pub content_text : Schema → Schema
content_text s =
    schema (record no_keywords { type = "string"; content_media_type = "application/json" })
      no_field null no_schema no_schema no_schema no_schema SchemaOrBool.absent (to s)

-- A reference to a component.
unfoldable pub ref_path : String → String
ref_path name = String.◌++◌ "#/components/schemas/" name

abbrev pub reference : String → Schema
reference name = leaf (record no_keywords { ref = ref_path name })

-- `wrapNullable`: both of its branches build the same value.
unfoldable pub wrap_nullable : Schema → Schema
wrap_nullable s =
    if (keywords s).ref == ""
    then any_of (s ∷ typed "null" ∷ [])
    else any_of (s ∷ typed "null" ∷ [])

-- `convertAtomic`.
unfoldable pub convert_atomic : String → Schema
convert_atomic a =
    if a == "string"
    then typed "string"
    else if a == "number"
    then typed "number"
    else if a == "boolean"
    then typed "boolean"
    else if a == "bigint"
    then formatted "integer" "int64"
    else if a == "null"
    then typed "null"
    else if a == "undefined"
    then leaf no_keywords
    else typed "string"

-- `convertLiteral`.
unfoldable pub convert_literal : Value → Schema
convert_literal v = leaf (record no_keywords { const = v })

abbrev pub enum_schema : List Value → Schema
enum_schema values = leaf (record no_keywords { enum = values })
