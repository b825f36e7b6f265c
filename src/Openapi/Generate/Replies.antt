-- ===== src/Openapi/Generate/Replies.antt =====
-- internal/openapi/generator.go: the responses that buildOperation makes, and their references.
use tsgonest.Common.{
  ℕ, ◌≤◌, String, ◌≡◌, refl, false, ◌&&◌, not, Option, none, some, List, [], ◌∷◌, if_cases,
}
use tsgonest.Common.Lists.{All, is_empty}
use tsgonest.Common.Maps.{Map, Values, Values-insert, Values-lookup, insert, lookup}
use tsgonest.Common.Decimal.{decimal}
use tsgonest.Metadata.{Kind, Metadata, TypeRegistry, facts, is_kind}
use tsgonest.Analyzer.{Route, AdditionalResponse, ErrorResponse, ResponseHeader, RedirectInfo}
use tsgonest.Openapi.Document.{Response, HeaderObject}
use tsgonest.Openapi.SchemaGen.Action.{Gen, M, pure}
use tsgonest.Openapi.SchemaGen.Children.{metadata_to_schema}
use tsgonest.Openapi.SchemaGen.Resolved.{Closed, Grows, Has}
use tsgonest.Openapi.SchemaGen.Names.{missing}
use tsgonest.Openapi.SchemaGen.Ends.{Ends, IsResolved, Good, Good-if, Good-map, Ends-bind}
use tsgonest.Openapi.SchemaGen.Methods.{Fine}
use tsgonest.Openapi.SchemaGen.Shapes
use tsgonest.Openapi.SchemaGen.Known.{Known}
use tsgonest.Openapi.SchemaGen.Total.{metadata_to_schema-Fine}
use tsgonest.Openapi.Operation.Status.{status_code_string}
use tsgonest.Openapi.Operation.Responses.{
  Responses, bare, success_response, additional_response, additional_responses, error_response,
  error_responses, add_headers, header_responses, redirect_response, sse_schema, typed_response,
  event_stream_response,
}
use tsgonest.Openapi.Operation.Build.{build_responses}
use tsgonest.Openapi.Generate.Valid.{ResponseOk, ResponsesOk-Grows}
use tsgonest.Openapi.Generate.Routes.{RouteKnown}
use tsgonest.Openapi.Generate.Events.{Fine-sse_event, Fine-event_stream}
use tsgonest.Openapi.Generate.Described.{
  describe_named, bare-ResponseOk, schema-ResponseOk, is_empty-insert, IsNamed,
}

module _ (registry : TypeRegistry) (names : List String) (fuel : ℕ)
    (registered : Values (Known registry names) registry) where
  abbrev Replies : M Response → Type 0
  Replies act = Good names fuel ResponseOk act

  Replies-bare : (d : String) → IsNamed d → Replies (pure (bare d))
  Replies-bare d h g c m = (c, λ n p. p, bare-ResponseOk g d h)

  Replies-typed :
      (d content_type : String) (m : Metadata)
      → IsNamed d
      → Known registry names m
      → Replies (typed_response registry fuel d content_type m)
  unfolding typed_response
  Replies-typed d content_type m h k =
      Good-map names fuel IsResolved ResponseOk _ (metadata_to_schema registry fuel m)
        (λ g s r. schema-ResponseOk g d content_type s h r)
        (metadata_to_schema-Fine registry names registered fuel m k)

  Fine-sse_schema :
      (r : Route) → RouteKnown registry names r → Fine names fuel (sse_schema registry fuel r)
  unfolding sse_schema
  Fine-sse_schema r k =
      Good-if names fuel IsResolved (r.is_event_stream && not (is_empty r.sse_event_variants)) _ _
        (Fine-event_stream registry names fuel registered r.sse_event_variants k.variants)
        (Fine-sse_event registry names fuel registered r.return_type k.return_type)

  Replies-success :
      (r : Route) → RouteKnown registry names r → Replies (success_response registry fuel r)
  unfolding success_response
  Replies-success r k =
      Good-if names fuel ResponseOk r.is_sse _ _
        (Good-map names fuel IsResolved ResponseOk event_stream_response _
          (λ g s h. record { described = refl; content = ((tt, h), tt); headers = tt })
          (Fine-sse_schema r k))
        (Good-if names fuel ResponseOk (is_kind (facts r.return_type).kind Kind.void) _ _
          (Replies-bare _ (describe_named r.response_description r.status_code))
          (Replies-typed _ _ r.return_type (describe_named r.response_description r.status_code)
            k.return_type))

  Replies-additional :
      (a : AdditionalResponse)
      → Known registry names a.return_type
      → Replies (additional_response registry fuel a)
  unfolding additional_response
  Replies-additional a k =
      Good-if names fuel ResponseOk (is_kind (facts a.return_type).kind Kind.void) _ _
        (Replies-bare _ (describe_named a.description a.status_code))
        (Replies-typed _ _ a.return_type (describe_named a.description a.status_code) k)

  Replies-error :
      (e : ErrorResponse) → Known registry names e.type → Replies (error_response registry fuel e)
  unfolding error_response
  Replies-error e k =
      Good-if names fuel ResponseOk (is_kind (facts e.type).kind Kind.unset) _ _
        (Replies-bare _ (describe_named e.description e.status_code))
        (Replies-typed _ _ e.type (describe_named e.description e.status_code) k)

  -- What the loops keep: all responses are well formed, and there is one.
  abbrev pub Filled : Gen → Responses → Type 0
  Filled g rs = Values (ResponseOk g) rs × (is_empty rs ≡ false)

  Filled-insert :
      (g g' : Gen) (code : String) (r : Response) (rs : Responses)
      → Grows g g'
      → Filled g rs
      → ResponseOk g' r
      → Filled g' (insert code r rs)
  Filled-insert g g' code r rs grown (h, _) ok = (
    Values-insert (ResponseOk g') code r rs ok (ResponsesOk-Grows g g' grown rs h),
    is_empty-insert code r rs,
  )

  Ends-additional :
      (ars : List AdditionalResponse) (rs : Responses) (g : Gen)
      → All (λ a. Known registry names a.return_type) ars
      → Closed g
      → missing names g ≤ fuel
      → Filled g rs
      → Ends Filled g (additional_responses registry fuel ars rs g)
  unfolding additional_responses
  Ends-additional [] rs g k c h f = (c, λ n p. p, f)
  Ends-additional (a ∷ ars) rs g (k, ks) c h f =
      Ends-bind names fuel ResponseOk Filled _ g (additional_response registry fuel a g) h
        (λ r g₁ c₁ h₁ grown ok.
          Ends-additional ars _ g₁ ks c₁ h₁
            (Filled-insert g g₁ (decimal a.status_code) r rs grown f ok))
        (Replies-additional a k g c h)

  Ends-errors :
      (es : List ErrorResponse) (rs : Responses) (g : Gen)
      → All (λ e. Known registry names e.type) es
      → Closed g
      → missing names g ≤ fuel
      → Filled g rs
      → Ends Filled g (error_responses registry fuel es rs g)
  unfolding error_responses
  Ends-errors [] rs g k c h f = (c, λ n p. p, f)
  Ends-errors (e ∷ es) rs g (k, ks) c h f =
      Ends-bind names fuel ResponseOk Filled _ g (error_response registry fuel e g) h
        (λ r g₁ c₁ h₁ grown ok.
          Ends-errors es _ g₁ ks c₁ h₁ (Filled-insert g g₁ (decimal e.status_code) r rs grown f ok))
        (Replies-error e k g c h)

  headers-Resolved :
      (g : Gen) (more : List ResponseHeader) (hs : Map HeaderObject)
      → Values (λ h. IsResolved g h.schema) hs
      → Values (λ h. IsResolved g h.schema) (add_headers more hs)
  unfolding add_headers
  headers-Resolved g [] hs v = v
  headers-Resolved g (h ∷ more) hs v = headers-Resolved g more _ (
      Values-insert (λ h. IsResolved g h.schema) h.name _ hs (Shapes.leaf-Resolved (Has g) _ refl)
        v)

  header_found :
      (g : Gen) (r : Route) (rs : Responses) (o : Option Response)
      → lookup (status_code_string r.status_code) rs ≡ o
      → Filled g rs
      → Filled g (elim o [
        | none ↦ rs
        | some resp ↦
            insert
              (status_code_string r.status_code)
              (record resp { headers = add_headers r.response_headers resp.headers })
              rs
      ])
  header_found g r rs none e f = f
  header_found g r rs (some resp) e f =
      let ok = Values-lookup (ResponseOk g) _ rs resp f.0 e in
      Filled-insert g g (status_code_string r.status_code) _ rs (λ n p. p) f
        (record {
          described = ok.described;
          content = ok.content;
          headers = headers-Resolved g r.response_headers resp.headers ok.headers;
        })

  header-Filled :
      (g : Gen) (r : Route) (rs : Responses) → Filled g rs → Filled g (header_responses r rs)
  unfolding header_responses
  header-Filled g r rs f =
      if_cases (Filled g) (is_empty r.response_headers) _ _ (λ _. f)
        (λ _. header_found g r rs (lookup (status_code_string r.status_code) rs) refl f)

  redirect-Filled :
      (g : Gen) (o : Option RedirectInfo) (rs : Responses)
      → Filled g rs
      → Filled g (redirect_response o rs)
  unfolding redirect_response
  redirect-Filled g none rs f = f
  redirect-Filled g (some info) rs f =
      Filled-insert g g (decimal info.status_code) _ rs (λ n p. p) f
        (record {
          described = describe_named "" info.status_code;
          content = tt;
          headers = (Shapes.leaf-Resolved (Has g) _ refl, tt);
        })

  pub Good-build_responses :
      (r : Route)
      → RouteKnown registry names r
      → Good names fuel Filled (build_responses registry fuel r)
  unfolding build_responses insert
  Good-build_responses r k g c h =
      Ends-bind names fuel ResponseOk Filled _ g (success_response registry fuel r g) h
        (λ primary g₁ c₁ h₁ _ ok.
          Ends-bind names fuel Filled Filled _ g₁ _ h₁
            (λ more g₂ c₂ h₂ _ f.
              Ends-bind names fuel Filled Filled _ g₂ _ h₂
                (λ errors g₃ c₃ _ _ f₃.
                  (c₃, λ n p. p, redirect-Filled g₃ r.redirect _ (header-Filled g₃ r errors f₃)))
                (Ends-errors r.error_responses more g₂ k.errors c₂ h₂ f))
            (Ends-additional r.additional_responses _ g₁ k.additional c₁ h₁ ((ok, tt), refl)))
        (Replies-success r k g c h)
