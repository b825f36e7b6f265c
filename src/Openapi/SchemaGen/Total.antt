-- ===== src/Openapi/SchemaGen/Total.antt =====
-- internal/openapi/schema.go, MetadataToSchema: how it ends.
use tsgonest.Common.{
  ℕ, zero, suc, ◌≤◌, ◌<◌, String, ◌≡◌, refl, inl, inr, true, Option, none, some, List, ◌==◌, arith,
  eq_iff,
}
use tsgonest.Common.Lists.{All, is_empty}
use tsgonest.Common.Maps.{is_some, lookup, Values, Values-lookup}
use tsgonest.Metadata.{
  Kind, Facts, Metadata, metadata, Properties, no_property, property, Pointer, null, to, Elements,
  no_element, element, Members, no_member, member, Index, no_index, index, TypeRegistry, facts,
}
use tsgonest.Openapi.Schema.{Schema, leaf, no_keywords, reference, convert_literal}
use tsgonest.Openapi.SchemaGen.Action.{Gen, M, pure, register}
use tsgonest.Openapi.SchemaGen.Objects.{Parts}
use tsgonest.Openapi.SchemaGen.Convert.{
  convert_ref, convert_kind, build_ref_kind, complete, schema_name,
}
use tsgonest.Openapi.SchemaGen.Children.{
  to_schema, each_property, at_pointer, each_element, each, at_index, parts_of, build_ref_schema,
  metadata_to_schema,
}
use tsgonest.Openapi.SchemaGen.Resolved.{Resolved, Has, Closed, Grows}
use tsgonest.Openapi.SchemaGen.Names.{missing, missing-insert, contains}
use tsgonest.Openapi.SchemaGen.Ends.{
  Ends, IsResolved, Ends-register, Ends-build_named, Good-map, Good-if,
}
use tsgonest.Openapi.SchemaGen.Shapes
use tsgonest.Openapi.SchemaGen.Methods.{Fine, FineOption, FineParts, Fine-pure, Fine-leaf}
use tsgonest.Openapi.SchemaGen.Methods
use tsgonest.Openapi.SchemaGen.Known.{
  RefKnown, Known, PropertiesKnown, PointerKnown, ElementsKnown, MembersKnown, IndexKnown,
}

module _ (registry : TypeRegistry) (names : List String) where
  -- What is asked of the conversion of a registered type: that many names may still be missing.
  abbrev FineBelow : ℕ → (Metadata → M Schema) → Type 0
  FineBelow fuel rec =
      (m : Metadata) (g : Gen)
      → Known registry names m
      → Closed g
      → missing names g < fuel
      → Ends IsResolved g (rec m g)

  module _ (fuel : ℕ) (rec : Metadata → M Schema) (below : FineBelow fuel rec)
      (registered : Values (Known registry names) registry) where
    Fine-found :
        (name : String) (reg_type : Metadata)
        → contains name names ≡ true
        → Known registry names reg_type
        → Fine names fuel (register name (rec reg_type))
    Fine-found name reg_type listed k g c m =
        Ends-register names fuel name (rec reg_type) g c λ new.
          Ends-build_named names fuel name (rec reg_type) g c λ g₀ c₀ e.
            below reg_type g₀ k c₀
              (rw e (omega (arith, missing-insert names name (leaf no_keywords) g listed new)))

    Fine-lookup :
        (name : String) (o : Option Metadata)
        → contains name names ≡ true
        → is_some o ≡ true
        → ((reg_type : Metadata) → o ≡ some reg_type → Known registry names reg_type)
        → Fine names fuel
            (elim o [ none ↦ pure (reference name) | some reg_type ↦ register name (rec reg_type) ])
    Fine-lookup name none listed h k = absurd (ground arith)
    Fine-lookup name (some reg_type) listed h k = Fine-found name reg_type listed (k reg_type refl)

    Fine-convert_ref :
        (f : Facts)
        → RefKnown registry names Kind.ref f
        → Fine names fuel (convert_ref registry rec f)
    unfolding convert_ref
    Fine-convert_ref f (inl e) = rw ((eq_iff f.ref "").1 e) (Fine-leaf names fuel)
    Fine-convert_ref f (inr (known, listed)) =
        Good-if names fuel IsResolved (f.ref == "") _ _ (Fine-leaf names fuel) (
          Fine-lookup (schema_name f) (lookup f.ref registry) listed known
            (λ t e. Values-lookup (Known registry names) f.ref registry t registered e))

    module _ (f : Facts) (parts : Parts) (fine : FineParts names fuel parts) where
      Fine-convert_kind :
          (k : Kind)
          → RefKnown registry names k f
          → Fine names fuel (convert_kind registry rec k f parts)
      unfolding convert_kind convert_literal
      Fine-convert_kind Kind.atomic _ =
          Fine-pure names fuel _ (λ P. Shapes.atomic-Resolved P f.atomic)
      Fine-convert_kind Kind.literal _ = Fine-pure names fuel _ (λ P. Shapes.leaf-Resolved P _ refl)
      Fine-convert_kind Kind.object _ = Methods.Fine-convert_object names fuel f parts fine
      Fine-convert_kind Kind.array _ = Methods.Fine-convert_array names fuel f parts fine
      Fine-convert_kind Kind.tuple _ = Methods.Fine-convert_tuple names fuel f parts fine
      Fine-convert_kind Kind.union _ = Methods.Fine-convert_union names fuel f parts fine
      Fine-convert_kind Kind.intersection _ =
          Methods.Fine-convert_intersection names fuel f parts fine
      Fine-convert_kind Kind.enum _ = Methods.Fine-convert_enum names fuel f parts fine
      Fine-convert_kind Kind.native _ = Methods.Fine-convert_native names fuel f parts fine
      Fine-convert_kind Kind.ref k = Fine-convert_ref f k
      Fine-convert_kind Kind.never _ = Fine-pure names fuel _ (λ P. Shapes.leaf-Resolved P _ refl)
      Fine-convert_kind _ _ = Fine-leaf names fuel

      Fine-build_ref_kind :
          (k : Kind)
          → RefKnown registry names k f
          → Fine names fuel (build_ref_kind registry rec k f parts)
      unfolding build_ref_kind
      Fine-build_ref_kind Kind.object _ = Methods.Fine-build_object names fuel f parts fine
      Fine-build_ref_kind Kind.union _ = Methods.Fine-build_union_inline names fuel f parts fine
      Fine-build_ref_kind Kind.intersection _ =
          Good-if names fuel IsResolved (is_empty parts.intersections) _ _ (Fine-leaf names fuel)
            (Methods.Fine-build_intersection names fuel f parts fine)
      Fine-build_ref_kind Kind.array _ = Methods.Fine-convert_array names fuel f parts fine
      Fine-build_ref_kind Kind.enum _ = Fine-pure names fuel _ (λ P. Shapes.leaf-Resolved P _ refl)
      Fine-build_ref_kind k h = Fine-convert_kind k h

    mutual
      unfolding to_schema Known

      fine : (m : Metadata) → Known registry names m → Fine names fuel (to_schema registry rec m)
      fine (metadata f ps el els us is ts ix) (k, a, b, c, d, e, h, i) =
          Good-map names fuel IsResolved IsResolved (complete f) _
            (λ g s r. Shapes.complete-Resolved (Has g) f s r)
            (Fine-convert_kind f _
              (record {
                properties = fine_properties ps a;
                element = fine_pointer el b;
                elements = fine_elements els c;
                unions = fine_members us d;
                intersections = fine_members is e;
                arguments = fine_members ts h;
                index_value = fine_index ix i;
              })
              f.kind k)

      fine_properties :
          (ps : Properties)
          → PropertiesKnown registry names ps
          → All (λ e. Fine names fuel e.1) (each_property registry rec ps)
      fine_properties no_property h = tt
      fine_properties (property p m ps) (k, h) = (fine m k, fine_properties ps h)

      fine_pointer :
          (p : Pointer)
          → PointerKnown registry names p
          → FineOption names fuel (at_pointer registry rec p)
      fine_pointer null h = tt
      fine_pointer (to m) h = fine m h

      fine_elements :
          (es : Elements)
          → ElementsKnown registry names es
          → All (Fine names fuel) (each_element registry rec es)
      fine_elements no_element h = tt
      fine_elements (element _ _ _ m es) (k, h) = (fine m k, fine_elements es h)

      fine_members :
          (ms : Members)
          → MembersKnown registry names ms
          → All (Fine names fuel) (each registry rec ms)
      fine_members no_member h = tt
      fine_members (member m ms) (k, h) = (fine m k, fine_members ms h)

      fine_index :
          (i : Index)
          → IndexKnown registry names i
          → FineOption names fuel (at_index registry rec i)
      fine_index no_index h = tt
      fine_index (index _ m) h = fine m h

    Fine-build_ref :
        (m : Metadata)
        → Known registry names m
        → Fine names fuel
            (build_ref_kind registry rec (facts m).kind (facts m) (parts_of registry rec m))
    unfolding parts_of Known
    Fine-build_ref (metadata f ps el els us is ts ix) (k, a, b, c, d, e, h, i) =
        Fine-build_ref_kind f _
          (record {
            properties = fine_properties ps a;
            element = fine_pointer el b;
            elements = fine_elements els c;
            unions = fine_members us d;
            intersections = fine_members is e;
            arguments = fine_members ts h;
            index_value = fine_index ix i;
          })
          f.kind k

  module _ (registered : Values (Known registry names) registry) where
    build_ref_schema-FineBelow : (fuel : ℕ) → FineBelow fuel (build_ref_schema registry fuel)
    unfolding build_ref_schema
    build_ref_schema-FineBelow zero m g k c h = absurd (omega arith)
    build_ref_schema-FineBelow (suc fuel) m g k c h =
        Fine-build_ref fuel (build_ref_schema registry fuel) (build_ref_schema-FineBelow fuel)
          registered m k g c (omega arith)

    pub metadata_to_schema-Fine :
        (fuel : ℕ) (m : Metadata)
        → Known registry names m
        → Fine names fuel (metadata_to_schema registry fuel m)
    unfolding metadata_to_schema
    metadata_to_schema-Fine fuel m k =
        fine fuel (build_ref_schema registry fuel) (build_ref_schema-FineBelow fuel) registered m k

-- Let every reference in the metadata and in the registry be registered, and let the component
-- names that they ask for be among `names`. From closed components, with fuel for those names that
-- are still missing, MetadataToSchema returns; no component is lost, and every reference in the
-- result and in the components then names a component and has no type beside it.
pub metadata_to_schema-Closed :
    (registry : TypeRegistry) (names : List String) (fuel : ℕ) (m : Metadata) (g : Gen)
    → Values (Known registry names) registry
    → Known registry names m
    → Closed g
    → missing names g ≤ fuel
    → (s : Schema) × (g' : Gen) × (metadata_to_schema registry fuel m g ≡ some (s, g'))
      × Closed g'
      × Grows g g'
      × Resolved (Has g') s
metadata_to_schema-Closed registry names fuel m g registered k c h =
    returned (metadata_to_schema registry fuel m g) refl
      (metadata_to_schema-Fine registry names registered fuel m k g c h)
  where
    returned :
        (r : Option (Schema × Gen))
        → metadata_to_schema registry fuel m g ≡ r
        → Ends IsResolved g r
        → (s : Schema) × (g' : Gen) × (metadata_to_schema registry fuel m g ≡ some (s, g'))
          × Closed g'
          × Grows g g'
          × Resolved (Has g') s
    returned none e h = absurd h
    returned (some (s, g')) e (closed, grows, r) = (s, g', e, closed, grows, r)
