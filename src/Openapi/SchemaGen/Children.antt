-- ===== src/Openapi/SchemaGen/Children.antt =====
-- internal/openapi/schema.go, MetadataToSchema: the recursion over a Metadata and its children,
-- and through the registry, where each step into a referenced type takes one unit of fuel.
use tsgonest.Common.{ℕ, zero, suc, Option, none, some, List, [], ◌∷◌}
use tsgonest.Metadata.{
  Facts, PropertyFacts, Metadata, metadata, Properties, no_property, property, Pointer, null, to,
  Elements, no_element, element, Members, no_member, member, Index, no_index, index, TypeRegistry,
  facts,
}
use tsgonest.Openapi.Schema.{Schema}
use tsgonest.Openapi.SchemaGen.Action.{M, pure, ◌>>=◌}
use tsgonest.Openapi.SchemaGen.Objects.{Parts}
use tsgonest.Openapi.SchemaGen.Convert.{convert_kind, build_ref_kind, complete}

unfoldable pub all_facts : Members → List Facts
all_facts no_member = []
all_facts (member m ms) = facts m ∷ all_facts ms

module _ (registry : TypeRegistry) (rec : Metadata → M Schema) where
  unfoldable mutual
    -- `MetadataToSchema`.
    pub to_schema : Metadata → M Schema
    to_schema (metadata f ps el els us is ts ix) = do
      s ← convert_kind registry rec f.kind f (record {
        properties = each_property ps;
        element = at_pointer el;
        elements = each_element els;
        union_facts = all_facts us;
        unions = each us;
        intersections = each is;
        arguments = each ts;
        index_value = at_index ix;
      })
      pure (complete f s)

    pub each_property : Properties → List (PropertyFacts × M Schema)
    each_property no_property = []
    each_property (property p m ps) = (p, to_schema m) ∷ each_property ps

    pub at_pointer : Pointer → Option (M Schema)
    at_pointer null = none
    at_pointer (to m) = some (to_schema m)

    pub each_element : Elements → List (M Schema)
    each_element no_element = []
    each_element (element _ _ _ m es) = to_schema m ∷ each_element es

    pub each : Members → List (M Schema)
    each no_member = []
    each (member m ms) = to_schema m ∷ each ms

    pub at_index : Index → Option (M Schema)
    at_index no_index = none
    at_index (index _ m) = some (to_schema m)

  unfoldable pub parts_of : Metadata → Parts
  unfolding to_schema all_facts
  parts_of (metadata f ps el els us is ts ix) = record {
    properties = each_property ps;
    element = at_pointer el;
    elements = each_element els;
    union_facts = all_facts us;
    unions = each us;
    intersections = each is;
    arguments = each ts;
    index_value = at_index ix;
  }

unfoldable pub build_ref_schema : TypeRegistry → ℕ → Metadata → M Schema
unfolding parts_of
build_ref_schema registry zero m = λ g. none
build_ref_schema registry (suc n) m =
    build_ref_kind registry (build_ref_schema registry n) (facts m).kind (facts m)
      (parts_of registry (build_ref_schema registry n) m)

unfoldable pub metadata_to_schema : TypeRegistry → ℕ → Metadata → M Schema
metadata_to_schema registry fuel = to_schema registry (build_ref_schema registry fuel)
