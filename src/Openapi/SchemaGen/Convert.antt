-- ===== src/Openapi/SchemaGen/Convert.antt =====
-- internal/openapi/schema.go: the convert… and build… methods, over the actions that convert the
-- children of the metadata at hand.
use tsgonest.Common.{String, Bool, ◌||◌, none, some, List, [], ◌∷◌, ◌==◌, if◌then◌else◌}
use tsgonest.Common.Lists.{is_empty}
use tsgonest.Common.Maps.{lookup}
use tsgonest.Metadata.{Kind, Facts, Metadata, TypeRegistry}
use tsgonest.Openapi.Schema.{
  Schema, SchemaOrBool, Pointer, no_keywords, leaf, typed, formatted, object_of, array_of,
  reference, wrap_nullable, convert_atomic, convert_literal,
}
use tsgonest.Openapi.Schema.Constrain.{apply_constraints}
use tsgonest.Openapi.SchemaGen.Action.{M, pure, ◌>>=◌, register}
use tsgonest.Openapi.SchemaGen.Objects.{
  Parts, build_object_schema, convert_object, convert_array, convert_tuple,
}
use tsgonest.Openapi.SchemaGen.Unions.{
  convert_union, build_union_schema_inline, build_intersection, convert_intersection, enum_of,
  convert_enum,
}

unfoldable pub map_schema : List (M Schema) → M Schema
map_schema (_ ∷ c ∷ _) = do
  s ← c
  pure (object_of (record no_keywords { type = "object" }) [] (SchemaOrBool.is_schema s))
map_schema _ = pure (typed "object")

unfoldable pub set_schema : List (M Schema) → M Schema
set_schema [] = pure (typed "array")
set_schema (c ∷ _) = do
  s ← c
  pure (array_of (record no_keywords { type = "array" }) (Pointer.to s) [])

pub is_typed_array : String → Bool
is_typed_array t =
    t == "Uint8Array"
    || t == "Int8Array"
    || t == "Uint16Array"
    || t == "Int16Array"
    || t == "Uint32Array"
    || t == "Int32Array"
    || t == "Float32Array"
    || t == "Float64Array"

pub is_binary : String → Bool
is_binary t = t == "ArrayBuffer" || t == "SharedArrayBuffer" || t == "File" || t == "Blob"

unfoldable pub error_schema : Schema
error_schema =
    object_of (record no_keywords { type = "object" })
      (("message", typed "string") ∷ ("name", typed "string") ∷ []) SchemaOrBool.absent

-- `convertNative`.
unfoldable pub convert_native : Facts → Parts → M Schema
unfolding map_schema set_schema is_typed_array is_binary error_schema
convert_native f parts =
    if f.native_type == "Date"
    then pure (formatted "string" "date-time")
    else if f.native_type == "RegExp"
    then pure (formatted "string" "regex")
    else if f.native_type == "URL"
    then pure (formatted "string" "uri")
    else if f.native_type == "Map"
    then map_schema parts.arguments
    else if f.native_type == "Set"
    then set_schema parts.arguments
    else if is_typed_array f.native_type
    then pure (array_of (record no_keywords { type = "array" }) (Pointer.to (typed "number")) [])
    else if is_binary f.native_type
    then pure (formatted "string" "binary")
    else if f.native_type == "Error"
    then pure error_schema
    else pure (typed "object")

-- The rest of MetadataToSchema: the constraints of the type itself, then null.
unfoldable pub complete : Facts → Schema → Schema
complete f s =
    let s' = apply_constraints f.constraints s in if f.nullable then wrap_nullable s' else s'

-- The component name of a reference: the alias, if there is one.
abbrev pub schema_name : Facts → String
schema_name f = if f.name == "" then f.ref else f.name

module _ (registry : TypeRegistry) (rec : Metadata → M Schema) where
  -- `convertRef`; `rec` is buildRefSchema.
  unfoldable pub convert_ref : Facts → M Schema
  convert_ref f = if f.ref == "" then pure (leaf no_keywords) else elim (lookup f.ref registry) [
    | none ↦ pure (reference (schema_name f))
    | some reg_type ↦ register (schema_name f) (rec reg_type)
  ]

  -- `convertType`.
  unfoldable pub convert_kind : Kind → Facts → Parts → M Schema
  convert_kind Kind.atomic f parts = pure (convert_atomic f.atomic)
  convert_kind Kind.literal f parts = pure (convert_literal f.literal_value)
  convert_kind Kind.object f parts = convert_object f parts
  convert_kind Kind.array f parts = convert_array parts
  convert_kind Kind.tuple f parts = convert_tuple parts
  convert_kind Kind.union f parts = convert_union f parts
  convert_kind Kind.intersection f parts = convert_intersection f parts
  convert_kind Kind.enum f parts = convert_enum f
  convert_kind Kind.native f parts = convert_native f parts
  convert_kind Kind.ref f parts = convert_ref f
  convert_kind Kind.never f parts =
      pure (leaf (record no_keywords { type = "object"; description = "never (no valid values)" }))
  convert_kind _ f parts = pure (leaf no_keywords)

  -- `buildRefSchema`.
  unfoldable pub build_ref_kind : Kind → Facts → Parts → M Schema
  build_ref_kind Kind.object f parts = build_object_schema f parts
  build_ref_kind Kind.union f parts = build_union_schema_inline f parts
  build_ref_kind Kind.intersection f parts =
      if is_empty parts.intersections then pure (leaf no_keywords) else build_intersection parts
  build_ref_kind Kind.array f parts = convert_array parts
  build_ref_kind Kind.enum f parts = pure (enum_of f)
  build_ref_kind k f parts = convert_kind k f parts
