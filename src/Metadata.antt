-- ===== src/Metadata.antt =====
-- internal/metadata/metadata.go: the normalised description of a TypeScript type.
-- A struct that holds Metadata is split in two: its plain fields are a record, and the whole is a
-- data type of one mutual block. A nil pointer is `none` or the block's own empty case; a nil slice
-- is the empty list. A float64 is its bit pattern: the code only copies it.
use tsgonest.Common.{ℕ, String, Bool, Option, List, nat_eq}
use tsgonest.Common.Maps.{Map, insert, has}

abbrev pub Float64 : Type 0
Float64 = ℕ

-- A Go `int`; `negsuc n` is -(n + 1).
pub data ℤ : Type 0 where
  pos : ℕ → ℤ
  negsuc : ℕ → ℤ

-- The values that a field of type `any` is given: literal types and enum members.
pub data Value : Type 0 where
  nil : Value
  text : String → Value
  number : Float64 → Value
  boolean : Bool → Value

-- `unset` is the zero value of the string type `Kind`.
pub data Kind : Type 0 where
  unset any unknown never void atomic literal object array tuple : Kind
  union intersection enum native ref : Kind

pub record Constraints : Type 0 where
  pub minimum : Option Float64
  pub maximum : Option Float64
  pub exclusive_minimum : Option Float64
  pub exclusive_maximum : Option Float64
  pub multiple_of : Option Float64
  pub numeric_type : Option String
  pub min_length : Option ℤ
  pub max_length : Option ℤ
  pub pattern : Option String
  pub format : Option String
  pub starts_with : Option String
  pub ends_with : Option String
  pub includes : Option String
  pub uppercase : Option Bool
  pub lowercase : Option Bool
  pub content_media_type : Option String
  pub transforms : List String
  pub min_items : Option ℤ
  pub max_items : Option ℤ
  pub unique_items : Option Bool
  pub default : Option String
  pub coerce : Option Bool
  pub validate_fn : Option String
  pub validate_module : Option String
  pub error_message : Option String
  pub errors : Map String

pub record Discriminant : Type 0 where
  pub property : String
  pub mapping : Map ℤ

pub record EnumValue : Type 0 where
  pub name : String
  pub value : Value

-- The fields of the struct Metadata that hold no Metadata.
pub record Facts : Type 0 where
  pub kind : Kind
  pub nullable : Bool
  pub optional : Bool
  pub name : String
  pub atomic : String
  pub template_pattern : String
  pub literal_value : Value
  pub discriminant : Option Discriminant
  pub enum_values : List EnumValue
  pub native_type : String
  pub ref : String
  pub strictness : String
  pub ignore : String
  pub constraints : Option Constraints

-- The fields of the struct Property but its type.
pub record PropertyFacts : Type 0 where
  pub name : String
  pub required : Bool
  pub readonly : Bool
  pub exact_optional : Bool
  pub constraints : Option Constraints
  pub description : String
  pub write_only : Bool
  pub example : Option String

-- `metadata` has its fields in the order of the struct: the plain ones, Properties, ElementType,
-- Elements, UnionMembers, IntersectionMembers, TypeArguments, IndexSignature.
mutual
  pub data Metadata : Type 0 where
    metadata :
        Facts → Properties → Pointer → Elements → Members → Members → Members → Index → Metadata

  pub data Properties : Type 0 where
    no_property : Properties
    property : PropertyFacts → Metadata → Properties → Properties

  pub data Pointer : Type 0 where
    null : Pointer
    to : Metadata → Pointer

  pub data Elements : Type 0 where
    no_element : Elements
    element : (optional rest : Bool) (label : String) → Metadata → Elements → Elements

  pub data Members : Type 0 where
    no_member : Members
    member : Metadata → Members → Members

  pub data Index : Type 0 where
    no_index : Index
    index : (key_type value_type : Metadata) → Index

abbrev pub facts : Metadata → Facts
facts (metadata f ps el els us is ts ix) = f

-- `TypeRegistry`, whose only field is the map.
abbrev pub TypeRegistry : Type 0
TypeRegistry = Map Metadata

-- `TypeRegistry.Register`.
abbrev pub register_type : String → Metadata → TypeRegistry → TypeRegistry
register_type name m types = insert name m types

-- `TypeRegistry.Has`.
abbrev pub has_type : String → TypeRegistry → Bool
has_type name types = has name types

abbrev kind_index : Kind → ℕ
kind_index Kind.unset = 0
kind_index Kind.any = 1
kind_index Kind.unknown = 2
kind_index Kind.never = 3
kind_index Kind.void = 4
kind_index Kind.atomic = 5
kind_index Kind.literal = 6
kind_index Kind.object = 7
kind_index Kind.array = 8
kind_index Kind.tuple = 9
kind_index Kind.union = 10
kind_index Kind.intersection = 11
kind_index Kind.enum = 12
kind_index Kind.native = 13
kind_index Kind.ref = 14

-- `k == j` of two kinds.
unfoldable pub is_kind : Kind → Kind → Bool
is_kind j k = nat_eq (kind_index j) (kind_index k)
