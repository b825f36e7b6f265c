-- ===== src/Openapi/SchemaGen/Unions.antt =====
-- internal/openapi/schema.go: unions, intersections and enums of a SchemaGenerator.
use tsgonest.Common.{
  String, Bool, true, false, ◌&&◌, Option, none, some, List, [], ◌∷◌, ◌==◌, map, if◌then◌else◌,
}
use tsgonest.Common.Lists.{get_elem?, is_empty}
use tsgonest.Common.Maps.{Map, insert}
use tsgonest.Metadata.{ℤ, Kind, Facts, Discriminant}
use tsgonest.Openapi.Schema.{
  Schema, keywords, no_keywords, leaf, any_of, one_of, all_of, enum_schema,
}
use tsgonest.Openapi.SchemaGen.Action.{M, pure, ◌>>=◌, sequence, register, register_now}
use tsgonest.Openapi.SchemaGen.Objects.{Parts}

abbrev is_literal : Kind → Bool
is_literal Kind.literal = true
is_literal _ = false

unfoldable pub all_literals : List Facts → Bool
all_literals [] = true
all_literals (f ∷ fs) = is_literal f.kind && all_literals fs

-- `m.UnionMembers[idx]`, behind its bounds test.
abbrev pub target : List Facts → ℤ → Option Facts
target fs (ℤ.pos i) = get_elem? fs i
target fs (ℤ.negsuc i) = none

-- The inner loop of buildUnionSchema: the discriminant values that point at this member.
unfoldable pub map_values : List Facts → Facts → String → Map ℤ → Map String → Map String
map_values fs this ref [] acc = acc
map_values fs this ref ((val, idx) ∷ vs) acc = map_values fs this ref vs (elim (target fs idx) [
  | none ↦ acc
  | some t ↦ if t.ref == this.ref && t.name == this.name then insert val ref acc else acc
])

-- The outer loop, over the members and their schemas.
unfoldable pub map_members : List Facts → Map ℤ → List Facts → List Schema → Map String → Map String
unfolding map_values
map_members fs vs (this ∷ more) (s ∷ ss) acc =
    map_members fs vs more ss
      (if (keywords s).ref == "" then acc else map_values fs this (keywords s).ref vs acc)
map_members fs vs _ _ acc = acc

unfoldable pub discriminated : Discriminant → List Facts → List Schema → Schema
unfolding map_members
discriminated d fs ss =
    one_of
      (record no_keywords {
        discriminator =
            some
              (record { property_name = d.property; mapping = map_members fs d.mapping fs ss [] });
      })
      ss

unfoldable pub union_of : Option Discriminant → List Facts → List Schema → Schema
unfolding discriminated
union_of none fs ss = any_of ss
union_of (some d) fs ss = if d.property == "" then any_of ss else discriminated d fs ss

-- `buildUnionSchema`.
unfoldable pub build_union_schema : Facts → Parts → M Schema
unfolding union_of
build_union_schema f parts = do
  schemas ← sequence parts.unions
  pure (union_of f.discriminant parts.union_facts schemas)

abbrev literal_enum : Parts → Schema
literal_enum parts = enum_schema (map (λ f. f.literal_value) parts.union_facts)

-- `convertUnion`.
unfoldable pub convert_union : Facts → Parts → M Schema
unfolding all_literals
convert_union f parts =
    if is_empty parts.union_facts
    then pure (leaf no_keywords)
    else if all_literals parts.union_facts
    then (if f.name == ""
        then pure (literal_enum parts)
        else register_now f.name (literal_enum parts))
    else if f.name == ""
    then build_union_schema f parts
    else register f.name (build_union_schema f parts)

-- `buildUnionSchemaInline`.
unfoldable pub build_union_schema_inline : Facts → Parts → M Schema
unfolding all_literals
build_union_schema_inline f parts =
    if is_empty parts.union_facts
    then pure (leaf no_keywords)
    else if all_literals parts.union_facts
    then pure (literal_enum parts)
    else build_union_schema f parts

unfoldable pub build_intersection : Parts → M Schema
build_intersection parts = do schemas ← sequence parts.intersections; pure (all_of schemas)

-- `convertIntersection`.
unfoldable pub convert_intersection : Facts → Parts → M Schema
convert_intersection f parts =
    if is_empty parts.intersections
    then pure (leaf no_keywords)
    else if f.name == ""
    then build_intersection parts
    else register f.name (build_intersection parts)

abbrev pub enum_of : Facts → Schema
enum_of f = enum_schema (map (λ v. v.value) f.enum_values)

-- `convertEnum`.
unfoldable pub convert_enum : Facts → M Schema
convert_enum f = if f.name == "" then pure (enum_of f) else register_now f.name (enum_of f)
