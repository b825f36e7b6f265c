-- ===== src/Openapi/Generate/Items.antt =====
-- internal/openapi/generator.go, GenerateWithOptions: what is done to a path and to an operation before
-- it stands in the document.
use tsgonest.Common.{String, ◌≡◌, refl, false, Option, none, some, [], ◌∷◌, ◌==◌, if_cases}
use tsgonest.Common.Lists.{All-append, All-mono, is_empty}
use tsgonest.Common.Maps.{Values}
use tsgonest.Common.Texts.{◌<>◌, trim}
use tsgonest.Analyzer.{Route}
use tsgonest.Openapi.Document.{Operation, Parameter, PathItem, GenerateOptions}
use tsgonest.Openapi.SchemaGen.Action.{Gen}
use tsgonest.Openapi.SchemaGen.Resolved.{Has}
use tsgonest.Openapi.SchemaGen.Shapes
use tsgonest.Openapi.Operation.Parameters.{add_parameter}
use tsgonest.Openapi.Paths.{path_param, path_params, ensure_path_params}
use tsgonest.Openapi.Paths.Declared.{
  requires-append_left, ensure_path_params-requires, ensure_path_params-All,
}
use tsgonest.Openapi.Paths.Rooted.{
  Rooted, slash-Rooted, Rooted-append, convert_path-Rooted, path_params-named,
}
use tsgonest.Openapi.Generate.{
  set_method, versioned, prefixed, openapi_path, with_version_header, or_default,
}
use tsgonest.Openapi.Generate.Valid.{ParameterOk, DraftOk, ResponseOk, OperationOk, PathItemOk}

versioned-Rooted :
    (o : Option GenerateOptions) (version path : String)
    → Rooted path
    → Rooted (versioned o version path)
unfolding versioned
versioned-Rooted none version path h = h
versioned-Rooted (some o) version path h =
    if_cases Rooted (o.versioning_type == "URI") _ path
      (λ _.
        if_cases Rooted (or_default o.default_version version == "") path _ (λ _. h)
          (λ _. slash-Rooted _))
      (λ _. h)

prefixed-Rooted :
    (o : Option GenerateOptions) (path : String) → Rooted path → Rooted (prefixed o path)
unfolding prefixed
prefixed-Rooted none path h = h
prefixed-Rooted (some o) path h =
    if_cases Rooted (o.global_prefix == "") path _ (λ _. h)
      (λ _. Rooted-append ("/" <> trim b'/' o.global_prefix) path (slash-Rooted _))

pub openapi_path-Rooted :
    (o : Option GenerateOptions) (version : String) (r : Route)
    → Rooted r.path
    → Rooted (openapi_path o version r)
unfolding openapi_path
openapi_path-Rooted o version r h =
    prefixed-Rooted o _ (versioned-Rooted o version _ (convert_path-Rooted r.path h))

path_param-ParameterOk : (g : Gen) (n : String) → (n == "") ≡ false → ParameterOk g (path_param n)
path_param-ParameterOk g n h = record {
  named = h;
  located = refl;
  required = λ _. refl;
  resolved = Shapes.leaf-Resolved (Has g) _ refl;
}

-- An operation as buildOperation leaves it.
pub record BuiltOk (g : Gen) (op : Operation) : Type 0 where
  pub draft : DraftOk g op
  pub responses : Values (ResponseOk g) op.responses
  pub some_response : is_empty op.responses ≡ false

pub ensured-OperationOk :
    (g : Gen) (path : String) (op : Operation)
    → BuiltOk g op
    → OperationOk g path (record op { parameters = ensure_path_params op.parameters path })
ensured-OperationOk g path op h = record {
  parameters =
      ensure_path_params-All (ParameterOk g) op.parameters path h.draft.parameters
        (All-mono (path_params path) (path_param-ParameterOk g) (path_params-named path));
  request_body = h.draft.request_body;
  responses = h.responses;
  some_response = h.some_response;
  placeholders =
      ensure_path_params-requires op.parameters path
        (All-mono op.parameters (λ p q. q.required) h.draft.parameters);
}

added-OperationOk :
    (g : Gen) (path : String) (op : Operation) (p : Parameter)
    → OperationOk g path op
    → ParameterOk g p
    → OperationOk g path (add_parameter op p)
added-OperationOk g path op p h q = record {
  parameters = All-append (ParameterOk g) op.parameters (p ∷ []) h.parameters (q, tt);
  request_body = h.request_body;
  responses = h.responses;
  some_response = h.some_response;
  placeholders =
      All-mono (path_params path) (λ n r. requires-append_left n op.parameters (p ∷ []) r)
        h.placeholders;
}

pub version_header-OperationOk :
    (g : Gen) (o : Option GenerateOptions) (path version : String) (op : Operation)
    → OperationOk g path op
    → OperationOk g path (with_version_header o version op)
unfolding with_version_header
version_header-OperationOk g none path version op h = h
version_header-OperationOk g (some o) path version op h =
    if_cases (OperationOk g path) (o.versioning_type == "HEADER") _ op
      (λ _.
        if_cases (OperationOk g path) (or_default o.default_version version == "") op _ (λ _. h)
          (λ _. added-OperationOk g path op _ h (record {
            named = refl;
            located = refl;
            required = λ _. refl;
            resolved = Shapes.leaf-Resolved (Has g) _ refl;
          })))
      (λ _. h)

-- The operation goes into one slot of its path item, or into none.
pub set_method-PathItemOk :
    (g : Gen) (path method : String) (op : Operation) (i : PathItem)
    → OperationOk g path op
    → PathItemOk g path i
    → PathItemOk g path (set_method method op i)
unfolding set_method
set_method-PathItemOk g path method op i o h =
    if_cases (PathItemOk g path) (method == "GET") _ _
      (λ _. record {
        get = o;
        post = h.post;
        put = h.put;
        delete = h.delete;
        patch = h.patch;
        head = h.head;
        options = h.options;
      })
      λ _.
        if_cases (PathItemOk g path) (method == "POST") _ _
          (λ _. record {
            get = h.get;
            post = o;
            put = h.put;
            delete = h.delete;
            patch = h.patch;
            head = h.head;
            options = h.options;
          })
          λ _.
            if_cases (PathItemOk g path) (method == "PUT") _ _
              (λ _. record {
                get = h.get;
                post = h.post;
                put = o;
                delete = h.delete;
                patch = h.patch;
                head = h.head;
                options = h.options;
              })
              λ _.
                if_cases (PathItemOk g path) (method == "DELETE") _ _
                  (λ _. record {
                    get = h.get;
                    post = h.post;
                    put = h.put;
                    delete = o;
                    patch = h.patch;
                    head = h.head;
                    options = h.options;
                  })
                  λ _.
                    if_cases (PathItemOk g path) (method == "PATCH") _ _
                      (λ _. record {
                        get = h.get;
                        post = h.post;
                        put = h.put;
                        delete = h.delete;
                        patch = o;
                        head = h.head;
                        options = h.options;
                      })
                      λ _.
                        if_cases (PathItemOk g path) (method == "HEAD") _ _
                          (λ _. record {
                            get = h.get;
                            post = h.post;
                            put = h.put;
                            delete = h.delete;
                            patch = h.patch;
                            head = o;
                            options = h.options;
                          })
                          λ _.
                            if_cases (PathItemOk g path) (method == "OPTIONS") _ _
                              (λ _. record {
                                get = h.get;
                                post = h.post;
                                put = h.put;
                                delete = h.delete;
                                patch = h.patch;
                                head = h.head;
                                options = o;
                              })
                              λ _. h
