-- ===== src/Openapi/Operation/Build.antt =====
-- internal/openapi/generator.go, buildOperation.
use tsgonest.Common.{ℕ, String, Option, none, some, List, [], ◌∷◌, map, if◌then◌else◌}
use tsgonest.Common.Lists.{is_empty}
use tsgonest.Common.Maps.{Map, insert}
use tsgonest.Metadata.{TypeRegistry}
use tsgonest.Analyzer.{Route}
use tsgonest.Openapi.Document.{Operation}
use tsgonest.Openapi.SchemaGen.Action.{M, pure, ◌>>=◌}
use tsgonest.Openapi.Operation.Status.{status_code_string}
use tsgonest.Openapi.Operation.Parameters.{all_parameters}
use tsgonest.Openapi.Operation.Responses.{
  Responses, success_response, additional_responses, error_responses, header_responses,
  redirect_response,
}

-- A public route has the empty list, a route with no annotation none at all.
unfoldable pub security_of : Route → Option (List (Map (List String)))
security_of r =
    if r.is_public
    then some []
    else if is_empty r.security
    then none
    else some (map (λ s. (s.name, s.scopes) ∷ []) r.security)

-- The fields that are copied.
unfoldable pub base_operation : Route → String → Operation
unfolding security_of
base_operation r controller_name = record {
  operation_id = r.operation_id;
  summary = r.summary;
  description = r.description;
  tags = r.tags;
  deprecated = r.deprecated;
  security = security_of r;
  parameters = [];
  request_body = none;
  responses = [];
  x_tsgonest_controller = controller_name;
  x_tsgonest_method = r.method_name;
  extensions = r.extensions;
}

module _ (registry : TypeRegistry) (fuel : ℕ) where
  unfoldable pub build_responses : Route → M Responses
  build_responses r = do
    primary ← success_response registry fuel r
    more ←
        additional_responses registry fuel r.additional_responses
          (insert (status_code_string r.status_code) primary [])
    errors ← error_responses registry fuel r.error_responses more
    pure (redirect_response r.redirect (header_responses r errors))

  unfoldable pub build_operation : Route → String → M Operation
  build_operation r controller_name = do
    op ← all_parameters registry fuel r.parameters (base_operation r controller_name)
    responses ← build_responses r
    pure (record op { responses = responses })
