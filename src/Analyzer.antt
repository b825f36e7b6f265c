-- ===== src/Analyzer.antt =====
-- internal/analyzer/routes.go: the routes of the analysed controllers, which the OpenAPI generator
-- and the rewriter read. A status code is a natural number, a nil pointer is `none`.
use tsgonest.Common.{ℕ, String, Bool, Option, List}
use tsgonest.Common.Maps.{Map}
use tsgonest.Metadata.{Metadata}

pub record ResponseHeader : Type 0 where
  pub name : String
  pub value : String

pub record RedirectInfo : Type 0 where
  pub url : String
  pub status_code : ℕ

pub record AdditionalResponse : Type 0 where
  pub status_code : ℕ
  pub return_type : Metadata
  pub content_type : String
  pub description : String

pub record SseEventVariant : Type 0 where
  pub event_name : String
  pub data_type : Metadata

pub record SecurityRequirement : Type 0 where
  pub name : String
  pub scopes : List String

pub record ErrorResponse : Type 0 where
  pub status_code : ℕ
  pub type_name : String
  pub type : Metadata
  pub description : String

pub record RouteParameter : Type 0 where
  pub category : String
  pub name : String
  pub local_name : String
  pub type_name : String
  pub type : Metadata
  pub required : Bool
  pub content_type : String
  pub description : String

pub record Route : Type 0 where
  pub method : String
  pub path : String
  pub operation_id : String
  pub method_name : String
  pub parameters : List RouteParameter
  pub return_type_name : String
  pub return_type : Metadata
  pub status_code : ℕ
  pub summary : String
  pub description : String
  pub deprecated : Bool
  pub tags : List String
  pub security : List SecurityRequirement
  pub error_responses : List ErrorResponse
  pub version : String
  pub is_sse : Bool
  pub is_event_stream : Bool
  pub sse_event_variants : List SseEventVariant
  pub uses_raw_response : Bool
  pub response_content_type : String
  pub response_description : String
  pub is_public : Bool
  pub extensions : Map String
  pub additional_responses : List AdditionalResponse
  pub response_headers : List ResponseHeader
  pub redirect : Option RedirectInfo
  pub versions : List String

pub record ControllerInfo : Type 0 where
  pub name : String
  pub path : String
  pub routes : List Route
  pub source_file : String
  pub ignore_openapi : Bool
