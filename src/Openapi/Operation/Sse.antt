-- ===== src/Openapi/Operation/Sse.antt =====
-- internal/openapi/generator.go: the schemas of server-sent events.
use tsgonest.Common.{
  ℕ, String, Bool, not, ◌&&◌, ◌||◌, none, some, List, [], ◌∷◌, ◌++◌, ◌==◌, if◌then◌else◌,
}
use tsgonest.Common.Lists.{any}
use tsgonest.Metadata.{Kind, Metadata, Value, facts, is_kind, TypeRegistry}
use tsgonest.Analyzer.{SseEventVariant}
use tsgonest.Openapi.Schema.{
  Schema, SchemaOrBool, no_keywords, leaf, typed, object_of, one_of, content_text,
}
use tsgonest.Openapi.SchemaGen.Action.{M, pure, ◌>>=◌}
use tsgonest.Openapi.SchemaGen.Children.{metadata_to_schema}

-- `floatPtr(0)`: the bits of 0.0 are 0.
unfoldable pub retry_schema : Schema
retry_schema = leaf (record no_keywords { type = "integer"; minimum = some 0 })

unfoldable pub event_object : List String → Schema → Schema → Schema
unfolding retry_schema
event_object required data_prop event_prop =
    object_of (record no_keywords { type = "object"; required = required })
      (("data", data_prop)
        ∷ ("event", event_prop)
        ∷ ("id", typed "string")
        ∷ ("retry", retry_schema)
        ∷ [])
      SchemaOrBool.absent

-- `isMessageEventType`.
unfoldable pub is_message_event_type : Metadata → Bool
is_message_event_type m =
    (facts m).name == "MessageEvent"
    || (is_kind (facts m).kind Kind.ref && (facts m).ref == "MessageEvent")

-- The kind is none of any, void and "".
unfoldable pub has_payload : Metadata → Bool
has_payload m =
    not (is_kind (facts m).kind Kind.any)
    && not (is_kind (facts m).kind Kind.void)
    && not (is_kind (facts m).kind Kind.unset)

module _ (registry : TypeRegistry) (fuel : ℕ) where
  -- The property "data": JSON in a text if the payload is typed.
  unfoldable pub data_schema : Bool → Metadata → M Schema
  data_schema typed_data m =
      if typed_data
      then (do s ← metadata_to_schema registry fuel m; pure (content_text s))
      else pure (typed "string")

  -- `buildSSEEventSchema`.
  unfoldable pub build_sse_event_schema : Metadata → M Schema
  unfolding data_schema event_object has_payload
  build_sse_event_schema m = do
    data_prop ← data_schema (not (is_message_event_type m) && has_payload m) m
    pure (event_object ("data" ∷ []) data_prop (typed "string"))

  unfoldable pub event_name_schema : String → Schema
  event_name_schema name =
      if name == ""
      then typed "string"
      else leaf (record no_keywords { type = "string"; const = Value.text name })

  -- One round of the loop of buildEventStreamSchema.
  unfoldable pub variant_schema : SseEventVariant → M Schema
  unfolding data_schema event_object has_payload event_name_schema
  variant_schema v = do
    data_prop ← data_schema (has_payload v.data_type) v.data_type
    pure (event_object ("data" ∷ "event" ∷ []) data_prop (event_name_schema v.event_name))

  unfoldable pub variant_schemas : List SseEventVariant → M (List Schema)
  variant_schemas [] = pure []
  variant_schemas (v ∷ vs) = do s ← variant_schema v; ss ← variant_schemas vs; pure (s ∷ ss)

  -- `buildSSEErrorVariantSchema`.
  unfoldable pub error_variant_schema : Schema
  unfolding event_object
  error_variant_schema =
      event_object ("data" ∷ "event" ∷ []) (typed "string")
        (leaf (record no_keywords { type = "string"; const = Value.text "error" }))

  unfoldable pub event_stream : List SseEventVariant → List Schema → Schema
  event_stream vs ss =
      one_of
        (record no_keywords {
          discriminator =
              if any (λ v. not (v.event_name == "")) vs
              then some (record { property_name = "event"; mapping = [] })
              else none;
        })
        (ss ++ error_variant_schema ∷ [])

  -- `buildEventStreamSchema`.
  unfoldable pub build_event_stream_schema : List SseEventVariant → M Schema
  unfolding event_stream
  build_event_stream_schema vs = do ss ← variant_schemas vs; pure (event_stream vs ss)
