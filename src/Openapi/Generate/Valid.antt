-- ===== src/Openapi/Generate/Valid.antt =====
-- What internal/openapi/generator.go makes of an operation, as one predicate: its parameters are
-- well formed, its responses described, and every reference in it names a component.
use tsgonest.Common.{◌≡◌, String, Bool, true, false, ◌||◌, Option, none, some, ◌==◌}
use tsgonest.Common.Lists.{All, All-mono, is_empty}
use tsgonest.Common.Maps.{Map, Values}
use tsgonest.Openapi.Schema.{Schema}
use tsgonest.Openapi.Document.{Operation, Parameter, RequestBody, MediaType, Response, PathItem}
use tsgonest.Openapi.SchemaGen.Action.{Gen}
use tsgonest.Openapi.SchemaGen.Resolved.{Grows}
use tsgonest.Openapi.SchemaGen.Ends.{IsResolved, IsResolved-Grows}
use tsgonest.Openapi.Paths.{path_params}
use tsgonest.Openapi.Paths.Declared.{requires, RequiredIfPath}

-- A location that the generator gives.
abbrev pub is_location : String → Bool
is_location l = l == "query" || l == "path" || l == "header"

pub record ParameterOk (g : Gen) (p : Parameter) : Type 0 where
  pub named : (p.name == "") ≡ false
  pub located : is_location p.location ≡ true
  pub required : RequiredIfPath p
  pub resolved : IsResolved g p.schema

abbrev pub SchemaOk : Gen → Option Schema → Type 0
SchemaOk g none = Unit
SchemaOk g (some s) = IsResolved g s

abbrev pub ContentOk : Gen → Map MediaType → Type 0
ContentOk g content = Values (λ m. SchemaOk g m.schema × SchemaOk g m.item_schema) content

abbrev pub BodyOk : Gen → Option RequestBody → Type 0
BodyOk g none = Unit
BodyOk g (some b) = ContentOk g b.content

pub record ResponseOk (g : Gen) (r : Response) : Type 0 where
  pub described : (r.description == "") ≡ false
  pub content : ContentOk g r.content
  pub headers : Values (λ h. IsResolved g h.schema) r.headers

-- What holds before the responses are there.
pub record DraftOk (g : Gen) (op : Operation) : Type 0 where
  pub parameters : All (ParameterOk g) op.parameters
  pub request_body : BodyOk g op.request_body

pub record OperationOk (g : Gen) (path : String) (op : Operation) : Type 0 where
  pub parameters : All (ParameterOk g) op.parameters
  pub request_body : BodyOk g op.request_body
  pub responses : Values (ResponseOk g) op.responses
  pub some_response : is_empty op.responses ≡ false
  pub placeholders : All (λ n. requires op.parameters n ≡ true) (path_params path)

abbrev pub SlotOk : Gen → String → Option Operation → Type 0
SlotOk g path none = Unit
SlotOk g path (some op) = OperationOk g path op

pub record PathItemOk (g : Gen) (path : String) (item : PathItem) : Type 0 where
  pub get : SlotOk g path item.get
  pub post : SlotOk g path item.post
  pub put : SlotOk g path item.put
  pub delete : SlotOk g path item.delete
  pub patch : SlotOk g path item.patch
  pub head : SlotOk g path item.head
  pub options : SlotOk g path item.options

-- All of it stays as the components grow.
module _ (g g' : Gen) (grown : Grows g g') where
  pub ParameterOk-Grows : (p : Parameter) → ParameterOk g p → ParameterOk g' p
  ParameterOk-Grows p h = record {
    named = h.named;
    located = h.located;
    required = h.required;
    resolved = IsResolved-Grows g g' p.schema grown h.resolved;
  }

  SchemaOk-Grows : (s : Option Schema) → SchemaOk g s → SchemaOk g' s
  SchemaOk-Grows none h = tt
  SchemaOk-Grows (some s) h = IsResolved-Grows g g' s grown h

  ContentOk-Grows : (c : Map MediaType) → ContentOk g c → ContentOk g' c
  ContentOk-Grows c h =
      All-mono c (λ e h. (SchemaOk-Grows e.1.schema h.0, SchemaOk-Grows e.1.item_schema h.1)) h

  pub BodyOk-Grows : (b : Option RequestBody) → BodyOk g b → BodyOk g' b
  BodyOk-Grows none h = tt
  BodyOk-Grows (some b) h = ContentOk-Grows b.content h

  pub ResponseOk-Grows : (r : Response) → ResponseOk g r → ResponseOk g' r
  ResponseOk-Grows r h = record {
    described = h.described;
    content = ContentOk-Grows r.content h.content;
    headers = All-mono r.headers (λ e h. IsResolved-Grows g g' e.1.schema grown h) h.headers;
  }

  pub ResponsesOk-Grows : (rs : Map Response) → Values (ResponseOk g) rs → Values (ResponseOk g') rs
  ResponsesOk-Grows rs h = All-mono rs (λ e h. ResponseOk-Grows e.1 h) h

  pub DraftOk-Grows : (op : Operation) → DraftOk g op → DraftOk g' op
  DraftOk-Grows op h = record {
    parameters = All-mono op.parameters ParameterOk-Grows h.parameters;
    request_body = BodyOk-Grows op.request_body h.request_body;
  }

  OperationOk-Grows :
      (path : String) (op : Operation) → OperationOk g path op → OperationOk g' path op
  OperationOk-Grows path op h = record {
    parameters = All-mono op.parameters ParameterOk-Grows h.parameters;
    request_body = BodyOk-Grows op.request_body h.request_body;
    responses = ResponsesOk-Grows op.responses h.responses;
    some_response = h.some_response;
    placeholders = h.placeholders;
  }

  SlotOk-Grows : (path : String) (o : Option Operation) → SlotOk g path o → SlotOk g' path o
  SlotOk-Grows path none h = tt
  SlotOk-Grows path (some op) h = OperationOk-Grows path op h

  pub PathItemOk-Grows : (path : String) (i : PathItem) → PathItemOk g path i → PathItemOk g' path i
  PathItemOk-Grows path i h = record {
    get = SlotOk-Grows path i.get h.get;
    post = SlotOk-Grows path i.post h.post;
    put = SlotOk-Grows path i.put h.put;
    delete = SlotOk-Grows path i.delete h.delete;
    patch = SlotOk-Grows path i.patch h.patch;
    head = SlotOk-Grows path i.head h.head;
    options = SlotOk-Grows path i.options h.options;
  }
