-- ===== src/Openapi/Operation/Responses.antt =====
-- internal/openapi/generator.go: the responses that buildOperation gives an operation.
use tsgonest.Common.{ℕ, String, ◌&&◌, not, Option, none, some, List, [], ◌∷◌, ◌==◌, if◌then◌else◌}
use tsgonest.Common.Lists.{is_empty}
use tsgonest.Common.Maps.{Map, insert, lookup}
use tsgonest.Common.Decimal.{decimal}
use tsgonest.Metadata.{Kind, Metadata, Value, facts, is_kind, TypeRegistry}
use tsgonest.Analyzer.{Route, AdditionalResponse, ErrorResponse, ResponseHeader, RedirectInfo}
use tsgonest.Openapi.Schema.{Schema, no_keywords, leaf}
use tsgonest.Openapi.Document.{Response, HeaderObject}
use tsgonest.Openapi.SchemaGen.Action.{M, pure, ◌>>=◌}
use tsgonest.Openapi.SchemaGen.Children.{metadata_to_schema}
use tsgonest.Openapi.Operation.Status.{status_code_string, describe}
use tsgonest.Openapi.Operation.Sse.{build_sse_event_schema, build_event_stream_schema}

abbrev pub Responses : Type 0
Responses = Map Response

abbrev pub bare : String → Response
bare description = record { description = description; headers = []; content = [] }

abbrev pub with_schema : String → String → Schema → Response
with_schema description content_type s = record {
  description = description;
  headers = [];
  content = (content_type, record { schema = some s; item_schema = none }) ∷ [];
}

abbrev pub event_stream_response : Schema → Response
event_stream_response s = record {
  description = "Server-Sent Events stream";
  headers = [];
  content = ("text/event-stream", record { schema = none; item_schema = some s }) ∷ [];
}

-- The content type, or that of JSON.
abbrev pub json_unless : String → String
json_unless given = if given == "" then "application/json" else given

module _ (registry : TypeRegistry) (fuel : ℕ) where
  unfoldable pub sse_schema : Route → M Schema
  sse_schema r =
      if r.is_event_stream && not (is_empty r.sse_event_variants)
      then build_event_stream_schema registry fuel r.sse_event_variants
      else build_sse_event_schema registry fuel r.return_type

  unfoldable pub typed_response : String → String → Metadata → M Response
  typed_response description content_type m = do
    s ← metadata_to_schema registry fuel m
    pure (with_schema description content_type s)

  -- The primary response, for the status code of the route.
  unfoldable pub success_response : Route → M Response
  unfolding sse_schema typed_response
  success_response r =
      if r.is_sse
      then (do s ← sse_schema r; pure (event_stream_response s))
      else if is_kind (facts r.return_type).kind Kind.void
      then pure (bare (describe r.response_description r.status_code))
      else typed_response (describe r.response_description r.status_code)
          (json_unless r.response_content_type) r.return_type

  unfoldable pub additional_response : AdditionalResponse → M Response
  unfolding typed_response
  additional_response a =
      if is_kind (facts a.return_type).kind Kind.void
      then pure (bare (describe a.description a.status_code))
      else typed_response (describe a.description a.status_code) (json_unless a.content_type)
          a.return_type

  unfoldable pub additional_responses : List AdditionalResponse → Responses → M Responses
  additional_responses [] rs = pure rs
  additional_responses (a ∷ more) rs = do
    r ← additional_response a
    additional_responses more (insert (decimal a.status_code) r rs)

  unfoldable pub error_response : ErrorResponse → M Response
  unfolding typed_response
  error_response e =
      if is_kind (facts e.type).kind Kind.unset
      then pure (bare (describe e.description e.status_code))
      else typed_response (describe e.description e.status_code) "application/json" e.type

  unfoldable pub error_responses : List ErrorResponse → Responses → M Responses
  error_responses [] rs = pure rs
  error_responses (e ∷ more) rs = do
    r ← error_response e
    error_responses more (insert (decimal e.status_code) r rs)

unfoldable pub add_headers : List ResponseHeader → Map HeaderObject → Map HeaderObject
add_headers [] hs = hs
add_headers (h ∷ more) hs = add_headers more (
    insert h.name
      (record {
        description = "";
        schema = leaf (record no_keywords { type = "string"; enum = Value.text h.value ∷ [] });
      })
      hs)

-- @Header() on the response that now stands under the primary status code.
unfoldable pub header_responses : Route → Responses → Responses
unfolding add_headers
header_responses r rs =
    if is_empty r.response_headers
    then rs
    else elim (lookup (status_code_string r.status_code) rs) [
      | none ↦ rs
      | some resp ↦
          insert (status_code_string r.status_code)
            (record resp { headers = add_headers r.response_headers resp.headers }) rs
    ]

unfoldable pub location_header : RedirectInfo → HeaderObject
location_header info = record {
  description = "Redirect target URL";
  schema = leaf (record no_keywords {
    type = "string";
    enum = if info.url == "" then [] else Value.text info.url ∷ [];
  });
}

-- @Redirect().
unfoldable pub redirect_response : Option RedirectInfo → Responses → Responses
unfolding location_header
redirect_response none rs = rs
redirect_response (some info) rs =
    insert (decimal info.status_code)
      (record {
        description = describe "" info.status_code;
        headers = ("Location", location_header info) ∷ [];
        content = [];
      })
      rs
