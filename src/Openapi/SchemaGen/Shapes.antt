-- ===== src/Openapi/SchemaGen/Shapes.antt =====
-- The references in the schemas that internal/openapi/schema.go builds with no state.
use tsgonest.Common.{String, ◌≡◌, refl, inl, Option, none, some, List, [], ◌∷◌, ◌==◌, if_cases}
use tsgonest.Common.Lists.{All}
use tsgonest.Common.Maps.{Map, Values}
use tsgonest.Metadata.{Constraints, Facts, PropertyFacts, Discriminant}
use tsgonest.Openapi.Schema.{
  Schema, Keywords, Pointer, SchemaOrBool, keywords, leaf, typed, any_of, one_of, all_of, object_of,
  array_of, wrap_nullable, convert_atomic,
}
use tsgonest.Openapi.Schema.Constrain.{constrain, apply_constraints}
use tsgonest.Openapi.SchemaGen.Objects.{annotate, strict, tuple_schema}
use tsgonest.Openapi.SchemaGen.Unions.{union_of}
use tsgonest.Openapi.SchemaGen.Convert.{complete}
use tsgonest.Openapi.SchemaGen.Resolved.{
  Resolved, fields_of-FieldsResolved, schemas_of-SchemasResolved, Resolved-with_keywords,
  PointerResolved, ExtraResolved,
}

module _ (P : String → Type 0) where
  pub leaf-Resolved : (k : Keywords) → k.ref ≡ "" → Resolved P (leaf k)
  unfolding Resolved
  leaf-Resolved k e = (inl e, tt, tt, tt, tt, tt, tt, tt, tt)

  pub any_of-Resolved : (ss : List Schema) → All (Resolved P) ss → Resolved P (any_of ss)
  unfolding Resolved
  any_of-Resolved ss h = (inl refl, tt, tt, tt, schemas_of-SchemasResolved P ss h, tt, tt, tt, tt)

  pub one_of-Resolved :
      (k : Keywords) (ss : List Schema)
      → k.ref ≡ ""
      → All (Resolved P) ss
      → Resolved P (one_of k ss)
  unfolding Resolved
  one_of-Resolved k ss e h = (inl e, tt, tt, tt, tt, schemas_of-SchemasResolved P ss h, tt, tt, tt)

  pub all_of-Resolved : (ss : List Schema) → All (Resolved P) ss → Resolved P (all_of ss)
  unfolding Resolved
  all_of-Resolved ss h = (inl refl, tt, tt, tt, tt, tt, schemas_of-SchemasResolved P ss h, tt, tt)

  pub object_of-Resolved :
      (k : Keywords) (fs : Map Schema) (extra : SchemaOrBool)
      → k.ref ≡ ""
      → Values (Resolved P) fs
      → ExtraResolved P extra
      → Resolved P (object_of k fs extra)
  unfolding Resolved
  object_of-Resolved k fs extra e h x =
      (inl e, fields_of-FieldsResolved P fs h, tt, tt, tt, tt, tt, x, tt)

  pub array_of-Resolved :
      (k : Keywords) (items : Pointer) (ss : List Schema)
      → k.ref ≡ ""
      → PointerResolved P items
      → All (Resolved P) ss
      → Resolved P (array_of k items ss)
  unfolding Resolved
  array_of-Resolved k items ss e p h =
      (inl e, tt, p, schemas_of-SchemasResolved P ss h, tt, tt, tt, tt, tt)

  pub items-Resolved : (s : Schema) → Resolved P s → PointerResolved P (Pointer.to s)
  unfolding Resolved
  items-Resolved s h = h

  pub extra-Resolved : (s : Schema) → Resolved P s → ExtraResolved P (SchemaOrBool.is_schema s)
  unfolding Resolved
  extra-Resolved s h = h

  pub strict-Resolved :
      (t : String) (extra : SchemaOrBool) → ExtraResolved P extra → ExtraResolved P (strict t extra)
  unfolding strict Resolved
  strict-Resolved t SchemaOrBool.absent h =
      if_cases (ExtraResolved P) (t == "strict") _ _ (λ _. tt) (λ _. tt)
  strict-Resolved t (SchemaOrBool.is_schema s) h = h
  strict-Resolved t (SchemaOrBool.is_bool b) h = tt

  pub constraints-Resolved :
      (c : Option Constraints) (s : Schema) → Resolved P s → Resolved P (apply_constraints c s)
  unfolding apply_constraints constrain
  constraints-Resolved none s h = h
  constraints-Resolved (some c) s h = Resolved-with_keywords P s _ refl refl h

  pub annotate-Resolved :
      (p : PropertyFacts) (s : Schema) → Resolved P s → Resolved P (annotate p s)
  unfolding annotate
  annotate-Resolved p s h =
      Resolved-with_keywords P (apply_constraints p.constraints s) _ refl refl
        (constraints-Resolved p.constraints s h)

  null-Resolved : Resolved P (typed "null")
  null-Resolved = leaf-Resolved _ refl

  wrap_nullable-Resolved : (s : Schema) → Resolved P s → Resolved P (wrap_nullable s)
  unfolding wrap_nullable
  wrap_nullable-Resolved s h =
      let both = any_of-Resolved (s ∷ typed "null" ∷ []) (h, (null-Resolved, tt)) in
      if_cases (Resolved P) ((keywords s).ref == "") _ _ (λ _. both) (λ _. both)

  pub complete-Resolved : (f : Facts) (s : Schema) → Resolved P s → Resolved P (complete f s)
  unfolding complete
  complete-Resolved f s h =
      let c = constraints-Resolved f.constraints s h in
      if_cases (Resolved P) f.nullable _ _
        (λ _. wrap_nullable-Resolved (apply_constraints f.constraints s) c) (λ _. c)

  pub no_items-Resolved : PointerResolved P Pointer.null
  unfolding Resolved
  no_items-Resolved = tt

  pub no_extra-Resolved : ExtraResolved P SchemaOrBool.absent
  unfolding Resolved
  no_extra-Resolved = tt

  pub tuple-Resolved : (ss : List Schema) → All (Resolved P) ss → Resolved P (tuple_schema ss)
  unfolding tuple_schema
  tuple-Resolved [] h = leaf-Resolved _ refl
  tuple-Resolved (s ∷ ss) h = array_of-Resolved _ Pointer.null (s ∷ ss) refl no_items-Resolved h

  pub union_of-Resolved :
      (d : Option Discriminant) (fs : List Facts) (ss : List Schema)
      → All (Resolved P) ss
      → Resolved P (union_of d fs ss)
  unfolding union_of
  union_of-Resolved none fs ss h = any_of-Resolved ss h
  union_of-Resolved (some d) fs ss h =
      if_cases (Resolved P) (d.property == "") _ _ (λ _. any_of-Resolved ss h)
        (λ _. one_of-Resolved _ ss refl h)

  pub atomic-Resolved : (a : String) → Resolved P (convert_atomic a)
  unfolding convert_atomic
  atomic-Resolved a =
      if_cases (Resolved P) (a == "string") _ _ (λ _. leaf-Resolved _ refl)
        λ _.
          if_cases (Resolved P) (a == "number") _ _ (λ _. leaf-Resolved _ refl)
            λ _.
              if_cases (Resolved P) (a == "boolean") _ _ (λ _. leaf-Resolved _ refl)
                λ _.
                  if_cases (Resolved P) (a == "bigint") _ _ (λ _. leaf-Resolved _ refl)
                    λ _.
                      if_cases (Resolved P) (a == "null") _ _ (λ _. leaf-Resolved _ refl)
                        λ _.
                          if_cases (Resolved P) (a == "undefined") _ _ (λ _. leaf-Resolved _ refl)
                            λ _. leaf-Resolved _ refl
