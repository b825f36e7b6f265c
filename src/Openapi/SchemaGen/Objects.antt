-- ===== src/Openapi/SchemaGen/Objects.antt =====
-- internal/openapi/schema.go: objects, arrays and tuples of a SchemaGenerator.
use tsgonest.Common.{String, true, false, Option, none, some, List, [], ◌∷◌, ◌==◌, if◌then◌else◌}
use tsgonest.Common.Lists.{length}
use tsgonest.Common.Maps.{Map, insert}
use tsgonest.Metadata.{ℤ, Facts, PropertyFacts}
use tsgonest.Openapi.Schema.{
  Schema, SchemaOrBool, Pointer, keywords, with_keywords, no_keywords, typed, object_of, array_of,
}
use tsgonest.Openapi.Schema.Constrain.{apply_constraints}
use tsgonest.Openapi.SchemaGen.Action.{M, pure, ◌>>=◌, sequence, register}

-- One action for each child of a Metadata.
pub record Parts : Type 0 where
  pub properties : List (PropertyFacts × M Schema)
  pub element : Option (M Schema)
  pub elements : List (M Schema)
  pub union_facts : List Facts
  pub unions : List (M Schema)
  pub intersections : List (M Schema)
  pub arguments : List (M Schema)
  pub index_value : Option (M Schema)

-- What buildObjectSchema writes into the schema of a property.
unfoldable pub annotate : PropertyFacts → Schema → Schema
annotate p s =
    let s' = apply_constraints p.constraints s in
    let k = keywords s' in
    with_keywords s' (record k {
      description = if p.description == "" then k.description else p.description;
      example = elim p.example [ none ↦ k.example | some e ↦ some e ];
      read_only = if p.readonly then some true else k.read_only;
      write_only = if p.write_only then some true else k.write_only;
    })

unfoldable pub build_properties : List (PropertyFacts × M Schema) → Map Schema → M (Map Schema)
build_properties [] acc = pure acc
build_properties ((p, c) ∷ ps) acc = do
  s ← c
  build_properties ps (insert p.name (annotate p s) acc)

unfoldable pub required_props : List (PropertyFacts × M Schema) → List String
required_props [] = []
required_props ((p, c) ∷ ps) =
    let rest = required_props ps in if p.required then p.name ∷ rest else rest

-- AdditionalProperties, before @strict.
unfoldable pub index_schema : Option (M Schema) → M SchemaOrBool
index_schema none = pure SchemaOrBool.absent
index_schema (some c) = do s ← c; pure (SchemaOrBool.is_schema s)

unfoldable pub strict : String → SchemaOrBool → SchemaOrBool
strict strictness SchemaOrBool.absent =
    if strictness == "strict" then SchemaOrBool.is_bool false else SchemaOrBool.absent
strict strictness extra = extra

-- `buildObjectSchema`.
unfoldable pub build_object_schema : Facts → Parts → M Schema
unfolding required_props strict
build_object_schema f parts = do
  fields ← build_properties parts.properties []
  extra ← index_schema parts.index_value
  pure (
      object_of (record no_keywords { type = "object"; required = required_props parts.properties })
        fields (strict f.strictness extra))

-- `convertObject`.
unfoldable pub convert_object : Facts → Parts → M Schema
convert_object f parts =
    if f.name == ""
    then build_object_schema f parts
    else register f.name (build_object_schema f parts)

unfoldable pub array_schema : Option (M Schema) → M Schema
array_schema none = pure (typed "array")
array_schema (some c) = do
  s ← c
  pure (array_of (record no_keywords { type = "array" }) (Pointer.to s) [])

-- `convertArray`.
unfoldable pub convert_array : Parts → M Schema
unfolding array_schema
convert_array parts = array_schema parts.element

-- `convertTuple`.
unfoldable pub tuple_schema : List Schema → Schema
tuple_schema [] = typed "array"
tuple_schema (s ∷ ss) =
    let n = some (ℤ.pos (length (s ∷ ss))) in
    array_of (record no_keywords { type = "array"; min_items = n; max_items = n }) Pointer.null
      (s ∷ ss)

unfoldable pub convert_tuple : Parts → M Schema
unfolding tuple_schema
convert_tuple parts = do prefix_items ← sequence parts.elements; pure (tuple_schema prefix_items)
