-- ===== src/Sdkgen/Nodes.antt =====
-- internal/sdkgen/types.go, SchemaNode, and internal/sdkgen/shared.go: the renaming of schemas whose
-- names TypeScript has itself. A nil node is the block's own empty case.
use tsgonest.Common.{String, Bool, Option, none, some, List, [], ◌∷◌, ◌==◌, if◌then◌else◌}
use tsgonest.Common.Lists.{any}
use tsgonest.Common.Texts.{◌<>◌}
use tsgonest.Common.Maps.{Map, lookup, insert, delete}
use tsgonest.Metadata.{Value}

pub record Discriminator : Type 0 where
  pub property_name : String
  pub mapping : Map String

-- The fields of SchemaNode that hold no node.
pub record NodeFacts : Type 0 where
  pub type : String
  pub format : String
  pub description : String
  pub required : List String
  pub enum : List Value
  pub const : Value
  pub ref : String
  pub nullable : Bool
  pub discriminator : Option Discriminator
  pub name : String

-- Behind the plain fields: Properties, Items, AnyOf, OneOf, AllOf, AdditionalProperties.
mutual
  pub data Node : Type 0 where
    node : NodeFacts → NodeFields → NodePointer → Nodes → Nodes → Nodes → NodePointer → Node

  pub data NodeFields : Type 0 where
    no_field : NodeFields
    field : String → Node → NodeFields → NodeFields

  pub data NodePointer : Type 0 where
    null : NodePointer
    to : Node → NodePointer

  pub data Nodes : Type 0 where
    no_node : Nodes
    cons : Node → Nodes → Nodes

abbrev pub builtin_types : List String
builtin_types =
    "Array" ∷ "ArrayBuffer" ∷ "BigInt" ∷ "Boolean" ∷ "Date" ∷ "Error" ∷ "Exclude" ∷ "Extract"
    ∷ "Function" ∷ "Map" ∷ "NonNullable" ∷ "Number" ∷ "Object" ∷ "Omit" ∷ "Partial" ∷ "Pick"
    ∷ "Promise" ∷ "Readonly" ∷ "ReadonlyArray" ∷ "Record" ∷ "Required" ∷ "ReturnType" ∷ "Set"
    ∷ "String" ∷ "Symbol" ∷ "Uint8Array" ∷ "WeakMap" ∷ "WeakSet" ∷ []

-- `tsBuiltinTypes[name]`.
unfoldable pub is_builtin : String → Bool
is_builtin name = any (λ b. b == name) builtin_types

-- `safeTSName`.
unfoldable pub safe_ts_name : String → String
safe_ts_name name = if is_builtin name then name <> "_" else name

-- `renames[ref]`, or the name itself.
abbrev pub or_same : String → Option String → String
or_same name none = name
or_same name (some new) = new

abbrev pub renamed : Map String → String → String
renamed renames name = or_same name (lookup name renames)

-- `renameSchemaRefs`.
module _ (renames : Map String) where
  unfoldable mutual
    pub rename_schema_refs : Node → Node
    rename_schema_refs (node f props items an on al extra) =
        node (record f { ref = renamed renames f.ref }) (rename_fields props) (rename_pointer items)
          (rename_nodes an) (rename_nodes on) (rename_nodes al) (rename_pointer extra)

    pub rename_fields : NodeFields → NodeFields
    rename_fields no_field = no_field
    rename_fields (field name n more) = field name (rename_schema_refs n) (rename_fields more)

    pub rename_pointer : NodePointer → NodePointer
    rename_pointer null = null
    rename_pointer (to n) = to (rename_schema_refs n)

    pub rename_nodes : Nodes → Nodes
    rename_nodes no_node = no_node
    rename_nodes (cons n ns) = cons (rename_schema_refs n) (rename_nodes ns)

-- The loop that fills `renames`.
unfoldable pub collisions : Map Node → Map String
collisions [] = []
collisions ((name, n) ∷ more) =
    let rest = collisions more in
    if safe_ts_name name == name then rest else (name, safe_ts_name name) ∷ rest

-- `doc.Schemas[newName] = doc.Schemas[oldName]; delete(doc.Schemas, oldName)`; the old name is a key.
unfoldable pub move : String → String → Map Node → Map Node
move old new schemas = elim (lookup old schemas) [
  | none ↦ schemas
  | some n ↦ delete old (insert new n schemas)
]

unfoldable pub move_all : Map String → Map Node → Map Node
unfolding move
move_all [] schemas = schemas
move_all ((old, new) ∷ more) schemas = move_all more (move old new schemas)

unfoldable pub rename_values : Map String → Map Node → Map Node
unfolding rename_schema_refs
rename_values renames [] = []
rename_values renames ((name, n) ∷ more) =
    (name, rename_schema_refs renames n) ∷ rename_values renames more

-- `renameBuiltinCollisions`, on the schemas of the document.
unfoldable pub rename_builtin_collisions : Map Node → Map Node
unfolding collisions move_all rename_values
rename_builtin_collisions schemas =
    rename_values (collisions schemas) (move_all (collisions schemas) schemas)
