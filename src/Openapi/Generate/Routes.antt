-- ===== src/Openapi/Generate/Routes.antt =====
-- Routes, as internal/analyzer/routes.go describes them, that the OpenAPI generator can document.
use tsgonest.Common.{String, ◌≡◌, true, false, List, ◌==◌}
use tsgonest.Common.Lists.{All}
use tsgonest.Common.Maps.{has}
use tsgonest.Common.Texts.{has_prefix}
use tsgonest.Metadata.{Kind, Properties, no_property, property, TypeRegistry, facts, is_kind}
use tsgonest.Analyzer.{RouteParameter, Route, ControllerInfo}
use tsgonest.Openapi.SchemaGen.Known.{Known}
use tsgonest.Openapi.Operation.Parameters.{properties}

-- No property has the empty name.
abbrev pub PropertiesNamed : Properties → Type 0
PropertiesNamed no_property = Unit
PropertiesNamed (property p m ps) = ((p.name == "") ≡ false) × PropertiesNamed ps

-- Where a parameter has no name, its type can be taken apart.
pub record Unpacks (registry : TypeRegistry) (p : RouteParameter) : Type 0 where
  pub named : (p.name == "") ≡ true → PropertiesNamed (properties p.type)
  pub registered :
      (p.name == "") ≡ true
      → is_kind (facts p.type).kind Kind.ref ≡ true
      → has (facts p.type).ref registry ≡ true

module _ (registry : TypeRegistry) (names : List String) where
  pub record ParameterKnown (p : RouteParameter) : Type 0 where
    pub type : Known registry names p.type
    pub unpacks : Unpacks registry p

  pub record RouteKnown (r : Route) : Type 0 where
    pub rooted : has_prefix "/" r.path ≡ true
    pub parameters : All ParameterKnown r.parameters
    pub return_type : Known registry names r.return_type
    pub variants : All (λ v. Known registry names v.data_type) r.sse_event_variants
    pub additional : All (λ a. Known registry names a.return_type) r.additional_responses
    pub errors : All (λ e. Known registry names e.type) r.error_responses

  abbrev pub ControllersKnown : List ControllerInfo → Type 0
  ControllersKnown cs = All (λ c. All RouteKnown c.routes) cs
