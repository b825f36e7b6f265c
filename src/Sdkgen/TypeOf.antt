-- ===== src/Sdkgen/TypeOf.antt =====
-- internal/sdkgen/schema2ts.go: the type that a schema stands for, said without a text, and the
-- schemas whose texts TypeScript reads as that type.
use tsgonest.Common.{
  not, Option, some, String, Bool, true, false, List, [], ◌∷◌, ◌||◌, ◌≡◌, if◌then◌else◌, ◌==◌,
}
use tsgonest.Common.Lists.{any, All, is_empty}
use tsgonest.Common.Texts.{◌<>◌, has_prefix}
use tsgonest.Metadata.{Float64, Value}
use tsgonest.Sdkgen.Literals.{Mode, read, codes, is_identifier}
use tsgonest.Sdkgen.Types.{
  Format, Branch, no_nodes, no_fields, no_pointer, reference, enumeration, constant, any_of, one_of,
  all_of, blob, string, number, boolean, null, array, map, inline, open_object, unknown,
  pointer_to_ts,
}
use tsgonest.Sdkgen.Nodes.{Node, NodeFacts, NodeFields, NodePointer, Nodes}
use tsgonest.Sdkgen.Grammar.{
  TsType, TsTypes, TsFields, named, literal, union, intersection, list_of, record_of, object,
  no_type, type_and, no_member, member, Level, primary, wide,
}

-- What a text says of a node: the type that it stands for, and whether it binds like a union.
abbrev pub level : Bool → Level
level true = wide
level false = primary

abbrev pub from_list : List TsType → TsTypes
from_list [] = no_type
from_list (t ∷ ts) = type_and t (from_list ts)

-- What stands in the places of the types that are not null.
abbrev pub is_null : TsType → Bool
is_null (named s) = s == "null"
is_null (literal Value.nil) = true
is_null t = false

abbrev pub kept_of {ℓ} : {A : Type ℓ} → List TsType → List A → List A
kept_of [] xs = []
kept_of (t ∷ ts) [] = []
kept_of (t ∷ ts) (x ∷ xs) = let rest = kept_of ts xs in if is_null t then rest else x ∷ rest

abbrev pub one_or : (TsTypes → TsType) → List TsType → TsType
one_or f [] = f no_type
one_or f (t ∷ []) = t
one_or f (t ∷ u ∷ ts) = f (from_list (t ∷ u ∷ ts))

abbrev pub or_null : Bool → TsType → TsType
or_null true t = union (type_and t (type_and (named "null") no_type))
or_null false t = t

abbrev pub composed : (TsTypes → TsType) → List TsType → TsType
composed f ts = or_null (any is_null ts) (one_or f (kept_of ts ts))

abbrev pub single : List Bool → Bool
single (w ∷ []) = w
single ws = false

abbrev pub composed_wide : List TsType → List Bool → Bool
composed_wide ts ws = any is_null ts || single (kept_of ts ws)

abbrev pub literals : List Value → List TsType
literals [] = []
literals (w ∷ ws) = literal w ∷ literals ws

abbrev pub many {ℓ} : {A : Type ℓ} → List A → Bool
many (x ∷ y ∷ xs) = true
many xs = false

unfoldable pub branch_type :
    Branch → NodeFacts → TsFields → TsType → (ant ont alt : List TsType) → TsType → TsType
branch_type reference f fs item ant ont alt extra = named f.ref
branch_type enumeration f fs item ant ont alt extra = one_or union (literals f.enum)
branch_type constant f fs item ant ont alt extra = literal f.const
branch_type any_of f fs item ant ont alt extra = composed union ant
branch_type one_of f fs item ant ont alt extra = composed union ont
branch_type all_of f fs item ant ont alt extra = composed intersection alt
branch_type blob f fs item ant ont alt extra = named "Blob"
branch_type string f fs item ant ont alt extra = named "string"
branch_type number f fs item ant ont alt extra = named "number"
branch_type boolean f fs item ant ont alt extra = named "boolean"
branch_type null f fs item ant ont alt extra = named "null"
branch_type array f fs item ant ont alt extra = list_of item
branch_type map f fs item ant ont alt extra = record_of extra
branch_type inline f fs item ant ont alt extra = object fs
branch_type open_object f fs item ant ont alt extra = record_of (named "unknown")
branch_type unknown f fs item ant ont alt extra = named "unknown"

unfoldable pub branch_wide :
    Branch → NodeFacts → (ant ont alt : List TsType) → (anw onw alw : List Bool) → Bool
branch_wide enumeration f ant ont alt anw onw alw = many f.enum
branch_wide any_of f ant ont alt anw onw alw = composed_wide ant anw
branch_wide one_of f ant ont alt anw onw alw = composed_wide ont onw
branch_wide all_of f ant ont alt anw onw alw = composed_wide alt alw
branch_wide b f ant ont alt anw onw alw = false

-- No part of an intersection of several binds like a union.
abbrev pub AllTight : List Bool → Type 0
AllTight [] = Unit
AllTight (w ∷ []) = Unit
AllTight (w ∷ v ∷ ws) = All (λ x. x ≡ false) (w ∷ v ∷ ws)

abbrev pub is_set_value : Value → Bool
is_set_value Value.nil = false
is_set_value w = true

-- The first of the cases that holds.
abbrev pub first_of : List (Bool × Branch) → Branch → Branch
first_of [] other = other
first_of ((holds, b) ∷ more) other = if holds then b else first_of more other

-- What the schema's keyword `type` says, and what stands first of its other keywords.
unfoldable pub said_by_type : NodeFacts → NodeFields → NodePointer → Branch
said_by_type f props extra =
    let strings = first_of ((f.format == "binary", blob) ∷ []) string in
    let inner = first_of ((not (no_fields props), inline) ∷ []) open_object in
    let objects = first_of ((not (no_pointer extra), map) ∷ []) inner in
    first_of
      ((f.type == "string", strings)
        ∷ (f.type == "number", number)
        ∷ (f.type == "integer", number)
        ∷ (f.type == "boolean", boolean)
        ∷ (f.type == "null", null)
        ∷ (f.type == "array", array)
        ∷ (f.type == "object", objects)
        ∷ [])
      unknown

unfoldable pub said_by : NodeFacts → NodeFields → (an on al : Nodes) → NodePointer → Branch
unfolding said_by_type
said_by f props an on al extra =
    first_of
      ((not (f.ref == ""), reference)
        ∷ (not (is_empty f.enum), enumeration)
        ∷ (is_set_value f.const, constant)
        ∷ (not (no_nodes an), any_of)
        ∷ (not (no_nodes on), one_of)
        ∷ (not (no_nodes al), all_of)
        ∷ [])
      (said_by_type f props extra)

-- The type that a schema stands for.
unfoldable mutual
  unfolding said_by branch_type

  pub type_of : Node → TsType
  type_of (Node.node f props items an on al extra) =
      branch_type (said_by f props an on al extra) f (fields_of f.required props)
        (pointer_type items) (types_of an) (types_of on) (types_of al) (pointer_type extra)

  pub fields_of : List String → NodeFields → TsFields
  fields_of required NodeFields.no_field = no_member
  fields_of required (NodeFields.field name n more) =
      member name (any (λ r. r == name) required) (type_of n) (fields_of required more)

  pub pointer_type : NodePointer → TsType
  pointer_type NodePointer.null = named "unknown"
  pointer_type (NodePointer.to n) = type_of n

  pub types_of : Nodes → List TsType
  types_of Nodes.no_node = []
  types_of (Nodes.cons n ns) = type_of n ∷ types_of ns

unfoldable mutual
  unfolding said_by branch_wide

  -- Whether the text of a schema binds like a union.
  pub is_wide : Node → Bool
  is_wide (Node.node f props items an on al extra) =
      branch_wide (said_by f props an on al extra) f (types_of an) (types_of on) (types_of al)
        (are_wide an) (are_wide on) (are_wide al)

  pub are_wide : Nodes → List Bool
  are_wide Nodes.no_node = []
  are_wide (Nodes.cons n ns) = is_wide n ∷ are_wide ns

abbrev pub pointer_wide : NodePointer → Bool
pointer_wide NodePointer.null = false
pointer_wide (NodePointer.to n) = is_wide n

module _ (format : Format) (numeral : String → Option Float64) where
  -- The constant is read as itself: %q writes the text as JavaScript reads it, and the number is a
  -- numeral.
  abbrev pub IsConstant : Value → Type 0
  IsConstant (Value.text s) = read Mode.plain (format.escaped s <> "\"") ≡ some (codes s, "")
  IsConstant (Value.number x) =
      (numeral (format.shown x) ≡ some x) × ((format.shown x == "null") ≡ false)
  IsConstant w = Unit

  abbrev pub IsBranchClear :
      Branch
      → NodeFacts
      → (item : String) (item_wide : Bool) (ant ont alt : List TsType) (alw : List Bool) → Type 0
  IsBranchClear reference f item w ant ont alt alw = is_identifier f.ref ≡ true
  IsBranchClear enumeration f item w ant ont alt alw = All IsConstant f.enum
  IsBranchClear constant f item w ant ont alt alw = IsConstant f.const
  IsBranchClear any_of f item w ant ont alt alw = is_empty (kept_of ant ant) ≡ false
  IsBranchClear one_of f item w ant ont alt alw = is_empty (kept_of ont ont) ≡ false
  IsBranchClear all_of f item w ant ont alt alw =
      (is_empty (kept_of alt alt) ≡ false) × AllTight (kept_of alt alw)
  IsBranchClear array f item w ant ont alt alw = w ≡ true → has_prefix "(" item ≡ false
  IsBranchClear b f item w ant ont alt alw = Unit

  unfoldable mutual
    unfolding said_by

    pub IsClear : Node → Type 0
    IsClear (Node.node f props items an on al extra) =
        IsBranchClear (said_by f props an on al extra) f (pointer_to_ts format items)
          (pointer_wide items) (types_of an) (types_of on) (types_of al) (are_wide al)
        × AreFieldsClear props
        × IsPointerClear items
        × AreClear an
        × AreClear on
        × AreClear al
        × IsPointerClear extra

    pub AreFieldsClear : NodeFields → Type 0
    AreFieldsClear NodeFields.no_field = Unit
    AreFieldsClear (NodeFields.field name n more) = IsClear n × AreFieldsClear more

    pub IsPointerClear : NodePointer → Type 0
    IsPointerClear NodePointer.null = Unit
    IsPointerClear (NodePointer.to n) = IsClear n

    pub AreClear : Nodes → Type 0
    AreClear Nodes.no_node = Unit
    AreClear (Nodes.cons n ns) = IsClear n × AreClear ns
