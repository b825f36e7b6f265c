-- ===== src/Openapi/Generate/Events.antt =====
-- internal/openapi/generator.go: the references in the schemas of server-sent events.
use tsgonest.Common.{ℕ, String, refl, Bool, List, [], ◌∷◌, ◌++◌, ◌==◌, if_cases, inl}
use tsgonest.Common.Lists.{All, All-append}
use tsgonest.Common.Maps.{Values}
use tsgonest.Metadata.{Metadata, TypeRegistry}
use tsgonest.Analyzer.{SseEventVariant}
use tsgonest.Openapi.Schema.{Schema, no_keywords, typed, content_text}
use tsgonest.Openapi.SchemaGen.Action.{Gen, M}
use tsgonest.Openapi.SchemaGen.Children.{metadata_to_schema}
use tsgonest.Openapi.SchemaGen.Resolved.{Has, Resolved}
use tsgonest.Openapi.SchemaGen.Ends.{
  IsResolved, AllResolved, IsResolved-Grows, Good, Good-if, Good-map, Ends-bind,
}
use tsgonest.Openapi.SchemaGen.Methods.{Fine, Fine-pure}
use tsgonest.Openapi.SchemaGen.Shapes
use tsgonest.Openapi.SchemaGen.Known.{Known}
use tsgonest.Openapi.SchemaGen.Total.{metadata_to_schema-Fine}
use tsgonest.Openapi.Operation.Sse.{
  build_sse_event_schema, build_event_stream_schema, variant_schema, variant_schemas,
  error_variant_schema, event_object, data_schema, event_stream, event_name_schema, retry_schema,
}

content_text-Resolved :
    (P : String → Type 0) (s : Schema) → Resolved P s → Resolved P (content_text s)
unfolding Resolved
content_text-Resolved P s h = (inl refl, tt, tt, tt, tt, tt, tt, tt, h)

event_object-Resolved :
    (P : String → Type 0) (required : List String) (d e : Schema)
    → Resolved P d
    → Resolved P e
    → Resolved P (event_object required d e)
unfolding event_object retry_schema
event_object-Resolved P required d e hd he =
    let text = Shapes.leaf-Resolved P (record no_keywords { type = "string" }) refl in
    Shapes.object_of-Resolved P _
      (("data", d) ∷ ("event", e) ∷ ("id", typed "string") ∷ ("retry", retry_schema) ∷ []) _ refl
      (hd, (he, (text, (Shapes.leaf-Resolved P _ refl, tt)))) (Shapes.no_extra-Resolved P)

module _ (registry : TypeRegistry) (names : List String) (fuel : ℕ)
    (registered : Values (Known registry names) registry) where
  abbrev Well : {A : Type 0} → (Gen → A → Type 0) → M A → Type 0
  Well Q act = Good names fuel Q act

  converted :
      (m : Metadata) → Known registry names m → Fine names fuel (metadata_to_schema registry fuel m)
  converted m k = metadata_to_schema-Fine registry names registered fuel m k

  text-Resolved : (P : String → Type 0) → Resolved P (typed "string")
  text-Resolved P = Shapes.leaf-Resolved P _ refl

  Fine-data_schema :
      (b : Bool) (m : Metadata)
      → Known registry names m
      → Fine names fuel (data_schema registry fuel b m)
  unfolding data_schema
  Fine-data_schema b m k =
      Good-if names fuel IsResolved b _ _
        (Good-map names fuel IsResolved IsResolved content_text (metadata_to_schema registry fuel m)
          (λ g s r. content_text-Resolved (Has g) s r) (converted m k))
        (Fine-pure names fuel (typed "string") text-Resolved)

  pub Fine-sse_event :
      (m : Metadata)
      → Known registry names m
      → Fine names fuel (build_sse_event_schema registry fuel m)
  unfolding build_sse_event_schema
  Fine-sse_event m k =
      Good-map names fuel IsResolved IsResolved _ _
        (λ g s r.
          event_object-Resolved (Has g) ("data" ∷ []) s (typed "string") r (text-Resolved (Has g)))
        (Fine-data_schema _ m k)

  event_name-Resolved :
      (P : String → Type 0) (name : String) → Resolved P (event_name_schema registry fuel name)
  unfolding event_name_schema
  event_name-Resolved P name =
      if_cases (Resolved P) (name == "") _ _ (λ _. text-Resolved P)
        (λ _. Shapes.leaf-Resolved P _ refl)

  Fine-variant :
      (v : SseEventVariant)
      → Known registry names v.data_type
      → Fine names fuel (variant_schema registry fuel v)
  unfolding variant_schema
  Fine-variant v k =
      Good-map names fuel IsResolved IsResolved _ _
        (λ g s r.
          event_object-Resolved (Has g) ("data" ∷ "event" ∷ []) s _ r
            (event_name-Resolved (Has g) v.event_name))
        (Fine-data_schema _ v.data_type k)

  Well-variants :
      (vs : List SseEventVariant)
      → All (λ v. Known registry names v.data_type) vs
      → Well AllResolved (variant_schemas registry fuel vs)
  unfolding variant_schemas
  Well-variants [] k g c h = (c, λ n p. p, tt)
  Well-variants (v ∷ vs) (k, ks) g c h =
      Ends-bind names fuel IsResolved AllResolved _ g (variant_schema registry fuel v g) h
        (λ s g₁ c₁ h₁ _ r.
          Ends-bind names fuel AllResolved AllResolved _ g₁ (variant_schemas registry fuel vs g₁) h₁
            (λ ss g₂ c₂ _ grown rs. (c₂, λ n p. p, (IsResolved-Grows g₁ g₂ s grown r, rs)))
            (Well-variants vs ks g₁ c₁ h₁))
        (Fine-variant v k g c h)

  error_variant-Resolved : (P : String → Type 0) → Resolved P (error_variant_schema registry fuel)
  unfolding error_variant_schema
  error_variant-Resolved P =
      event_object-Resolved P ("data" ∷ "event" ∷ []) (typed "string") _ (text-Resolved P)
        (Shapes.leaf-Resolved P _ refl)

  pub Fine-event_stream :
      (vs : List SseEventVariant)
      → All (λ v. Known registry names v.data_type) vs
      → Fine names fuel (build_event_stream_schema registry fuel vs)
  unfolding build_event_stream_schema event_stream
  Fine-event_stream vs k =
      Good-map names fuel AllResolved IsResolved (event_stream registry fuel vs) _
        (λ g ss rs.
          Shapes.one_of-Resolved (Has g) _ (ss ++ error_variant_schema registry fuel ∷ []) refl (
            All-append (IsResolved g) ss (error_variant_schema registry fuel ∷ []) rs
              (error_variant-Resolved (Has g), tt)))
        (Well-variants vs k)
