-- ===== src/Openapi/SchemaGen/Methods.antt =====
-- How the convert… and build… methods of internal/openapi/schema.go end, by how the actions for the
-- children do.
use tsgonest.Common.{
  ℕ, ◌≤◌, String, ◌≡◌, refl, Option, none, some, List, [], ◌∷◌, ◌==◌, if◌then◌else◌,
}
use tsgonest.Common.Lists.{All, is_empty}
use tsgonest.Common.Maps.{Map, Values, Values-insert, insert}
use tsgonest.Metadata.{Facts, PropertyFacts, Value}
use tsgonest.Openapi.Schema.{
  Schema, Keywords, SchemaOrBool, no_keywords, leaf, typed, enum_schema, array_of, Pointer,
}
use tsgonest.Openapi.SchemaGen.Action.{Gen, M, pure, ◌>>=◌, sequence, register_now}
use tsgonest.Openapi.SchemaGen.Objects.{
  Parts, annotate, build_properties, index_schema, build_object_schema, strict, convert_object,
  convert_array, convert_tuple, tuple_schema, array_schema,
}
use tsgonest.Openapi.SchemaGen.Unions.{
  convert_union, build_union_schema, build_union_schema_inline, union_of, build_intersection,
  convert_intersection, convert_enum, all_literals,
}
use tsgonest.Openapi.SchemaGen.Convert.{
  convert_native, map_schema, set_schema, error_schema, is_typed_array, is_binary,
}
use tsgonest.Openapi.SchemaGen.Resolved.{Resolved, ExtraResolved, Has, Closed, Grows}
use tsgonest.Openapi.SchemaGen.Names.{missing}
use tsgonest.Openapi.SchemaGen.Ends.{
  Ends, IsResolved, AllResolved, IsResolved-Grows, Good, Good-if, Good-map, Good-sequence,
  Good-register, Good-register_now, Ends-bind,
}
use tsgonest.Openapi.SchemaGen.Shapes

module _ (names : List String) (fuel : ℕ) where
  abbrev pub Fine : M Schema → Type 0
  Fine = Good names fuel IsResolved

  abbrev pub FineOption : Option (M Schema) → Type 0
  FineOption none = Unit
  FineOption (some c) = Fine c

  pub record FineParts (parts : Parts) : Type 0 where
    pub properties : All (λ e. Fine e.1) parts.properties
    pub element : FineOption parts.element
    pub elements : All Fine parts.elements
    pub unions : All Fine parts.unions
    pub intersections : All Fine parts.intersections
    pub arguments : All Fine parts.arguments
    pub index_value : FineOption parts.index_value

  -- A schema that refers to nothing.
  pub Fine-pure : (s : Schema) → ((P : String → Type 0) → Resolved P s) → Fine (pure s)
  Fine-pure s r g c m = (c, λ n p. p, r (Has g))

  pub Fine-leaf : Fine (pure (leaf no_keywords))
  Fine-leaf = Fine-pure (leaf no_keywords) (λ P. Shapes.leaf-Resolved P no_keywords refl)

  abbrev FieldsFine : Gen → Map Schema → Type 0
  FieldsFine g fs = Values (IsResolved g) fs

  FieldsFine-Grows :
      (g g' : Gen) (fs : Map Schema) → Grows g g' → FieldsFine g fs → FieldsFine g' fs
  FieldsFine-Grows g g' [] h v = tt
  FieldsFine-Grows g g' ((n, s) ∷ fs) h (r, v) =
      (IsResolved-Grows g g' s h r, FieldsFine-Grows g g' fs h v)

  Ends-build_properties :
      (ps : List (PropertyFacts × M Schema)) (acc : Map Schema) (g : Gen)
      → All (λ e. Fine e.1) ps
      → Closed g
      → missing names g ≤ fuel
      → FieldsFine g acc
      → Ends FieldsFine g (build_properties ps acc g)
  unfolding build_properties
  Ends-build_properties [] acc g _ c m v = (c, λ n p. p, v)
  Ends-build_properties ((p, act) ∷ ps) acc g (h, hs) c m v =
      Ends-bind names fuel IsResolved FieldsFine _ g (act g) m
        (λ s g₁ c₁ m₁ grown r.
          Ends-build_properties ps (insert p.name (annotate p s) acc) g₁ hs c₁ m₁ (
            Values-insert (IsResolved g₁) p.name (annotate p s) acc
              (Shapes.annotate-Resolved (Has g₁) p s r) (FieldsFine-Grows g g₁ acc grown v)))
        (h g c m)

  abbrev ExtraFine : Gen → SchemaOrBool → Type 0
  ExtraFine g e = ExtraResolved (Has g) e

  Good-index_schema :
      (o : Option (M Schema)) → FineOption o → Good names fuel ExtraFine (index_schema o)
  unfolding index_schema
  Good-index_schema none h = λ g c m. (c, λ n p. p, Shapes.no_extra-Resolved (Has g))
  Good-index_schema (some act) h =
      Good-map names fuel IsResolved ExtraFine SchemaOrBool.is_schema act
        (λ g s r. Shapes.extra-Resolved (Has g) s r) h

  Fine-items :
      (act : M Schema)
      → Fine act
      → Fine
          (act >>= λ s. pure (array_of (record no_keywords { type = "array" }) (Pointer.to s) []))
  Fine-items act h =
      Good-map names fuel IsResolved IsResolved _ act
        (λ g s r.
          Shapes.array_of-Resolved (Has g) _ (Pointer.to s) [] refl
            (Shapes.items-Resolved (Has g) s r) tt)
        h

  Fine-typed : (k : Keywords) → k.ref ≡ "" → Fine (pure (leaf k))
  Fine-typed k e = Fine-pure (leaf k) (λ P. Shapes.leaf-Resolved P k e)

  Fine-array_schema : (o : Option (M Schema)) → FineOption o → Fine (array_schema o)
  unfolding array_schema
  Fine-array_schema none h = Fine-typed _ refl
  Fine-array_schema (some act) h = Fine-items act h

  Fine-set_schema : (cs : List (M Schema)) → All Fine cs → Fine (set_schema cs)
  unfolding set_schema
  Fine-set_schema [] h = Fine-typed _ refl
  Fine-set_schema (act ∷ cs) (h, hs) = Fine-items act h

  Fine-map_schema : (cs : List (M Schema)) → All Fine cs → Fine (map_schema cs)
  unfolding map_schema
  Fine-map_schema [] h = Fine-typed _ refl
  Fine-map_schema (_ ∷ []) h = Fine-typed _ refl
  Fine-map_schema (_ ∷ act ∷ cs) (_, (h, hs)) =
      Good-map names fuel IsResolved IsResolved _ act
        (λ g s r.
          Shapes.object_of-Resolved (Has g) _ [] _ refl tt (Shapes.extra-Resolved (Has g) s r))
        h

  Fine-error_schema : Fine (pure error_schema)
  unfolding error_schema
  Fine-error_schema = Fine-pure _ λ P.
      let name = Shapes.leaf-Resolved P (record no_keywords { type = "string" }) refl in
      Shapes.object_of-Resolved P _ (("message", typed "string") ∷ ("name", typed "string") ∷ []) _
        refl (name, (name, tt)) (Shapes.no_extra-Resolved P)

  module _ (f : Facts) (parts : Parts) (fine : FineParts parts) where
    pub Fine-build_object : Fine (build_object_schema f parts)
    unfolding build_object_schema
    Fine-build_object g c m =
        Ends-bind names fuel FieldsFine IsResolved _ g (build_properties parts.properties [] g) m
          (λ fs g₁ c₁ m₁ _ v.
            Ends-bind names fuel ExtraFine IsResolved _ g₁ (index_schema parts.index_value g₁) m₁
              (λ extra g₂ c₂ _ grown x. (
                c₂,
                λ n p. p,
                Shapes.object_of-Resolved (Has g₂) _ fs (strict f.strictness extra) refl
                    (FieldsFine-Grows g₁ g₂ fs grown v)
                    (Shapes.strict-Resolved (Has g₂) f.strictness extra x),
              ))
              (Good-index_schema parts.index_value fine.index_value g₁ c₁ m₁))
          (Ends-build_properties parts.properties [] g fine.properties c m tt)

    pub Fine-convert_object : Fine (convert_object f parts)
    unfolding convert_object
    Fine-convert_object =
        Good-if names fuel IsResolved (f.name == "") _ _ Fine-build_object
          (Good-register names fuel f.name (build_object_schema f parts) Fine-build_object)

    pub Fine-convert_tuple : Fine (convert_tuple parts)
    unfolding convert_tuple
    Fine-convert_tuple =
        Good-map names fuel AllResolved IsResolved tuple_schema (sequence parts.elements)
          (λ g ss h. Shapes.tuple-Resolved (Has g) ss h)
          (Good-sequence names fuel parts.elements fine.elements)

    pub Fine-build_union : Fine (build_union_schema f parts)
    unfolding build_union_schema
    Fine-build_union =
        Good-map names fuel AllResolved IsResolved (union_of f.discriminant parts.union_facts)
          (sequence parts.unions)
          (λ g ss h. Shapes.union_of-Resolved (Has g) f.discriminant parts.union_facts ss h)
          (Good-sequence names fuel parts.unions fine.unions)

    pub Fine-build_intersection : Fine (build_intersection parts)
    unfolding build_intersection
    Fine-build_intersection =
        Good-map names fuel AllResolved IsResolved _ (sequence parts.intersections)
          (λ g ss h. Shapes.all_of-Resolved (Has g) ss h)
          (Good-sequence names fuel parts.intersections fine.intersections)

    Fine-literal : (vs : List Value) → Fine (pure (enum_schema vs))
    Fine-literal vs = Fine-pure (enum_schema vs) (λ P. Shapes.leaf-Resolved P _ refl)

    Fine-literal_named :
        (vs : List Value)
        → Fine
            (if f.name == "" then pure (enum_schema vs) else register_now f.name (enum_schema vs))
    Fine-literal_named vs =
        Good-if names fuel IsResolved (f.name == "") _ _ (Fine-literal vs) (
          Good-register_now names fuel f.name (enum_schema vs) (λ P. Shapes.leaf-Resolved P _ refl))

    pub Fine-convert_union : Fine (convert_union f parts)
    unfolding convert_union
    Fine-convert_union = Good-if names fuel IsResolved (is_empty parts.union_facts) _ _ Fine-leaf (
        Good-if names fuel IsResolved (all_literals parts.union_facts) _ _ (Fine-literal_named _) (
          Good-if names fuel IsResolved (f.name == "") _ _ Fine-build_union
            (Good-register names fuel f.name (build_union_schema f parts) Fine-build_union)))

    pub Fine-build_union_inline : Fine (build_union_schema_inline f parts)
    unfolding build_union_schema_inline
    Fine-build_union_inline =
        Good-if names fuel IsResolved (is_empty parts.union_facts) _ _ Fine-leaf (
          Good-if names fuel IsResolved (all_literals parts.union_facts) _ _ (Fine-literal _)
            Fine-build_union)

    pub Fine-convert_intersection : Fine (convert_intersection f parts)
    unfolding convert_intersection
    Fine-convert_intersection =
        Good-if names fuel IsResolved (is_empty parts.intersections) _ _ Fine-leaf (
          Good-if names fuel IsResolved (f.name == "") _ _ Fine-build_intersection
            (Good-register names fuel f.name (build_intersection parts) Fine-build_intersection))

    pub Fine-convert_enum : Fine (convert_enum f)
    unfolding convert_enum
    Fine-convert_enum = Fine-literal_named _

    pub Fine-convert_array : Fine (convert_array parts)
    unfolding convert_array
    Fine-convert_array = Fine-array_schema parts.element fine.element

    Fine-number_array :
        Fine
          (pure (array_of (record no_keywords { type = "array" }) (Pointer.to (typed "number")) []))
    Fine-number_array = Fine-pure _ λ P.
        Shapes.array_of-Resolved P _ (Pointer.to (typed "number")) [] refl
          (Shapes.items-Resolved P (typed "number") (Shapes.leaf-Resolved P _ refl)) tt

    pub Fine-convert_native : Fine (convert_native f parts)
    unfolding convert_native
    Fine-convert_native =
        Good-if names fuel IsResolved (f.native_type == "Date") _ _ (Fine-typed _ refl) (
          Good-if names fuel IsResolved (f.native_type == "RegExp") _ _ (Fine-typed _ refl) (
            Good-if names fuel IsResolved (f.native_type == "URL") _ _ (Fine-typed _ refl) (
              Good-if names fuel IsResolved (f.native_type == "Map") _ _
                (Fine-map_schema parts.arguments fine.arguments)
                (Good-if names fuel IsResolved (f.native_type == "Set") _ _
                  (Fine-set_schema parts.arguments fine.arguments)
                  (Good-if names fuel IsResolved (is_typed_array f.native_type) _ _
                    Fine-number_array
                    (Good-if names fuel IsResolved (is_binary f.native_type) _ _ (Fine-typed _ refl)
                      (Good-if names fuel IsResolved (f.native_type == "Error") _ _
                        Fine-error_schema (Fine-typed _ refl))))))))
