-- ===== src/Sdkgen/Types.antt =====
-- internal/sdkgen/schema2ts.go: the TypeScript type of a schema. The properties of a node are listed
-- in the order of their names. What %q writes between its quotes, and %d and %g of a number, are
-- parameters.
use tsgonest.Common.{String, Bool, true, false, not, ◌&&◌, ◌||◌, List, [], ◌∷◌, ◌==◌, if◌then◌else◌}
use tsgonest.Common.Lists.{any, is_empty}
use tsgonest.Common.Texts.{◌<>◌, has_prefix, join}
use tsgonest.Metadata.{Float64, Value}
use tsgonest.Sdkgen.Keys.{ts_property_key}
use tsgonest.Sdkgen.Nodes.{Node, NodeFacts, NodeFields, NodePointer, Nodes}

pub record Format : Type 0 where
  pub escaped : String → String
  pub shown : Float64 → String

-- `strings.Contains`.
unfoldable pub has_part : String → String → Bool
unfolding has_prefix
has_part p String.[] = has_prefix p String.[]
has_part p (String.◌∷◌ c s) = has_prefix p (String.◌∷◌ c s) || has_part p s

-- Which branch of SchemaToTS a node takes.
pub data Branch : Type 0 where
  reference enumeration constant any_of one_of all_of : Branch
  blob string number boolean null array map inline open_object unknown : Branch

abbrev pub is_set : Value → Bool
is_set Value.nil = false
is_set w = true

abbrev pub no_nodes : Nodes → Bool
no_nodes Nodes.no_node = true
no_nodes (Nodes.cons n ns) = false

abbrev pub no_fields : NodeFields → Bool
no_fields NodeFields.no_field = true
no_fields (NodeFields.field name n more) = false

abbrev pub no_pointer : NodePointer → Bool
no_pointer NodePointer.null = true
no_pointer (NodePointer.to n) = false

unfoldable pub type_branch : NodeFacts → NodeFields → NodePointer → Branch
type_branch f props extra =
    if f.type == "string"
    then if f.format == "binary" then blob else string
    else if f.type == "number" || f.type == "integer"
    then number
    else if f.type == "boolean"
    then boolean
    else if f.type == "null"
    then null
    else if f.type == "array"
    then array
    else if f.type == "object"
    then if not (no_pointer extra)
      then map
      else if not (no_fields props)
      then inline
      else open_object
    else unknown

unfoldable pub branch : NodeFacts → NodeFields → (an on al : Nodes) → NodePointer → Branch
unfolding type_branch
branch f props an on al extra =
    if not (f.ref == "")
    then reference
    else if not (is_empty f.enum)
    then enumeration
    else if is_set f.const
    then constant
    else if not (no_nodes an)
    then any_of
    else if not (no_nodes on)
    then one_of
    else if not (no_nodes al)
    then all_of
    else type_branch f props extra

-- The parts whose text is not null.
abbrev pub is_null_text : String → Bool
is_null_text s = s == "null"

unfoldable pub kept : List String → List String
kept [] = []
kept (s ∷ ss) = let rest = kept ss in if is_null_text s then rest else s ∷ rest

abbrev pub grouped : String → List String → String
grouped sep [] = ""
grouped sep (s ∷ []) = s
grouped sep (s ∷ t ∷ more) = "(" <> join sep (s ∷ t ∷ more) <> ")"

-- `compositionToTS`, over the texts of the nodes.
unfoldable pub composition_to_ts : String → List String → String
unfolding kept
composition_to_ts sep texts =
    let result = grouped sep (kept texts) in
    if any is_null_text texts then result <> " | null" else result

unfoldable pub array_to_ts : String → String
unfolding has_part
array_to_ts item =
    if (has_part " | " item || has_part " & " item) && not (has_prefix "(" item)
    then "(" <> item <> ")[]"
    else item <> "[]"

abbrev pub optional_mark : Bool → String
optional_mark true = ""
optional_mark false = "?"

module _ (format : Format) where
  -- `constToTS`.
  unfoldable pub const_to_ts : Value → String
  const_to_ts (Value.text s) = "\"" <> format.escaped s <> "\""
  const_to_ts (Value.number x) = format.shown x
  const_to_ts (Value.boolean true) = "true"
  const_to_ts (Value.boolean false) = "false"
  const_to_ts Value.nil = "null"

  unfoldable pub consts_to_ts : List Value → List String
  unfolding const_to_ts
  consts_to_ts [] = []
  consts_to_ts (w ∷ ws) = const_to_ts w ∷ consts_to_ts ws

  -- `enumToTSUnion`.
  unfoldable pub enum_to_ts_union : List Value → String
  unfolding consts_to_ts
  enum_to_ts_union ws = join " | " (consts_to_ts ws)

  -- What a branch writes, over the texts of the parts.
  unfoldable pub branch_to_ts :
      Branch
      → NodeFacts
      → (fields : List String) (items : String) (an on al : List String) (extra : String) → String
  unfolding enum_to_ts_union composition_to_ts array_to_ts
  branch_to_ts reference f fs item an on al extra = f.ref
  branch_to_ts enumeration f fs item an on al extra = enum_to_ts_union f.enum
  branch_to_ts constant f fs item an on al extra = const_to_ts f.const
  branch_to_ts any_of f fs item an on al extra = composition_to_ts " | " an
  branch_to_ts one_of f fs item an on al extra = composition_to_ts " | " on
  branch_to_ts all_of f fs item an on al extra = composition_to_ts " & " al
  branch_to_ts blob f fs item an on al extra = "Blob"
  branch_to_ts string f fs item an on al extra = "string"
  branch_to_ts number f fs item an on al extra = "number"
  branch_to_ts boolean f fs item an on al extra = "boolean"
  branch_to_ts null f fs item an on al extra = "null"
  branch_to_ts array f fs item an on al extra = array_to_ts item
  branch_to_ts map f fs item an on al extra = "Record<string, " <> extra <> ">"
  branch_to_ts inline f fs item an on al extra = "{ " <> join "; " fs <> " }"
  branch_to_ts open_object f fs item an on al extra = "Record<string, unknown>"
  branch_to_ts unknown f fs item an on al extra = "unknown"

  -- A property's line, of an inline object type.
  unfoldable pub field_to_ts : List String → String → String → String
  field_to_ts required name type =
      ts_property_key name <> optional_mark (any (λ r. r == name) required) <> ": " <> type

  -- `SchemaToTS` and `objectToInlineTS`.
  unfoldable mutual
    unfolding branch branch_to_ts field_to_ts

    pub schema_to_ts : Node → String
    schema_to_ts (Node.node f props items an on al extra) =
        branch_to_ts (branch f props an on al extra) f (fields_to_ts f.required props)
          (pointer_to_ts items) (nodes_to_ts an) (nodes_to_ts on) (nodes_to_ts al)
          (pointer_to_ts extra)

    pub fields_to_ts : List String → NodeFields → List String
    fields_to_ts required NodeFields.no_field = []
    fields_to_ts required (NodeFields.field name n more) =
        field_to_ts required name (schema_to_ts n) ∷ fields_to_ts required more

    pub pointer_to_ts : NodePointer → String
    pointer_to_ts NodePointer.null = "unknown"
    pointer_to_ts (NodePointer.to n) = schema_to_ts n

    pub nodes_to_ts : Nodes → List String
    nodes_to_ts Nodes.no_node = []
    nodes_to_ts (Nodes.cons n ns) = schema_to_ts n ∷ nodes_to_ts ns
