-- ===== src/Openapi/Generate/Drafts.antt =====
-- internal/openapi/generator.go: what buildOperation adds for the parameters of a route.
use tsgonest.Common.{
  ℕ, ◌≤◌, String, ◌≡◌, refl, Bool, true, false, ◌&&◌, Option, none, some, List, [], ◌∷◌, ◌==◌,
  eq_iff, arith, if_cases, if◌then◌else◌,
}
use tsgonest.Common.Lists.{All, All-append}
use tsgonest.Common.Maps.{Values, Values-lookup, lookup, is_some}
use tsgonest.Metadata.{
  Kind, Metadata, metadata, Properties, no_property, property, TypeRegistry, facts, is_kind,
}
use tsgonest.Analyzer.{RouteParameter}
use tsgonest.Openapi.Document.{Operation, Parameter}
use tsgonest.Openapi.SchemaGen.Action.{Gen, M}
use tsgonest.Openapi.SchemaGen.Children.{metadata_to_schema}
use tsgonest.Openapi.SchemaGen.Resolved.{Closed}
use tsgonest.Openapi.SchemaGen.Names.{missing}
use tsgonest.Openapi.SchemaGen.Ends.{Ends, IsResolved, Ends-if, Ends-bind}
use tsgonest.Openapi.SchemaGen.Known.{Known, PropertiesKnown}
use tsgonest.Openapi.SchemaGen.Total.{metadata_to_schema-Fine}
use tsgonest.Openapi.Operation.Parameters.{
  properties, add_parameter, parameter, exploded, decompose_query, decompose_header, plain,
  object_or_plain, body, one_parameter, all_parameters,
}
use tsgonest.Openapi.Generate.Valid.{is_location, ParameterOk, DraftOk, DraftOk-Grows}
use tsgonest.Openapi.Generate.Routes.{PropertiesNamed, ParameterKnown}

properties-Known :
    (registry : TypeRegistry) (names : List String) (m : Metadata)
    → Known registry names m
    → PropertiesKnown registry names (properties m)
unfolding Known
properties-Known registry names (metadata f ps el els us is ts ix) (_, k, _, _, _, _, _, _) = k

-- Only a path parameter must be required.
not_path : (l : String) (required : Bool) → (l == "path") ≡ false → l ≡ "path" → required ≡ true
not_path l required h e = absurd (ground (arith, eq_iff l "path"))

named_or :
    (default name : String)
    → (default == "") ≡ false
    → ((if name == "" then default else name) == "") ≡ false
named_or default name h =
    if_cases (λ n. (n == "") ≡ false) (name == "") default name (λ _. h) (λ e. e)

DraftOk-add :
    (g : Gen) (op : Operation) (p : Parameter)
    → DraftOk g op
    → ParameterOk g p
    → DraftOk g (add_parameter op p)
DraftOk-add g op p d h = record {
  parameters = All-append (ParameterOk g) op.parameters (p ∷ []) d.parameters (h, tt);
  request_body = d.request_body;
}

exploded-ParameterOk :
    (g : Gen) (m : Metadata) (p : Parameter) → ParameterOk g p → ParameterOk g (exploded m p)
exploded-ParameterOk g m p h =
    if_cases (ParameterOk g) (is_kind (facts m).kind Kind.array) _ p
      (λ _. record {
        named = h.named;
        located = h.located;
        required = h.required;
        resolved = h.resolved;
      })
      (λ _. h)

module _ (registry : TypeRegistry) (names : List String) (fuel : ℕ)
    (registered : Values (Known registry names) registry)
    (all_named : Values (λ m. PropertiesNamed (properties m)) registry) where
  -- What is asked of a step of the loop.
  abbrev Drafts : (Operation → M Operation) → Type 0
  Drafts act =
      (op : Operation) (g : Gen)
      → Closed g
      → missing names g ≤ fuel
      → DraftOk g op
      → Ends DraftOk g (act op g)

  converted :
      (m : Metadata) (g : Gen)
      → Known registry names m
      → Closed g
      → missing names g ≤ fuel
      → Ends IsResolved g (metadata_to_schema registry fuel m g)
  converted m g k c h = metadata_to_schema-Fine registry names registered fuel m k g c h

  Drafts-decompose_query :
      (ps : Properties)
      → PropertiesKnown registry names ps
      → PropertiesNamed ps
      → Drafts (decompose_query registry fuel ps)
  unfolding decompose_query Known
  Drafts-decompose_query no_property k n op g c h d = (c, λ n p. p, d)
  Drafts-decompose_query (property p m ps) (k, ks) (n, ns) op g c h d =
      Ends-bind names fuel IsResolved DraftOk _ g (metadata_to_schema registry fuel m g) h
        (λ s g₁ c₁ h₁ grown r. Drafts-decompose_query ps ks ns _ g₁ c₁ h₁ (
          DraftOk-add g₁ op _ (DraftOk-Grows g g₁ grown op d) (
            exploded-ParameterOk g₁ m (parameter p.name "query" "" p.required s) (record {
              named = n;
              located = refl;
              required = not_path "query" p.required refl;
              resolved = r;
            }))))
        (converted m g k c h)

  Drafts-decompose_header :
      (ps : Properties)
      → PropertiesKnown registry names ps
      → PropertiesNamed ps
      → Drafts (decompose_header registry fuel ps)
  unfolding decompose_header Known
  Drafts-decompose_header no_property k n op g c h d = (c, λ n p. p, d)
  Drafts-decompose_header (property p m ps) (k, ks) (n, ns) op g c h d =
      Ends-bind names fuel IsResolved DraftOk _ g (metadata_to_schema registry fuel m g) h
        (λ s g₁ c₁ h₁ grown r. Drafts-decompose_header ps ks ns _ g₁ c₁ h₁ (
          DraftOk-add g₁ op _ (DraftOk-Grows g g₁ grown op d) (record {
            named = n;
            located = refl;
            required = not_path "header" p.required refl;
            resolved = r;
          })))
        (converted m g k c h)

  Drafts-plain :
      (name location : String) (required : Bool) (p : RouteParameter)
      → (name == "") ≡ false
      → is_location location ≡ true
      → (location ≡ "path" → required ≡ true)
      → Known registry names p.type
      → Drafts (plain registry fuel name location required p)
  unfolding plain
  Drafts-plain name location required p n l q k op g c h d =
      Ends-bind names fuel IsResolved DraftOk _ g (metadata_to_schema registry fuel p.type g) h
        (λ s g₁ c₁ h₁ grown r. (
          c₁,
          λ n p. p,
          DraftOk-add g₁ op _ (DraftOk-Grows g g₁ grown op d)
              (record { named = n; located = l; required = q; resolved = r }),
        ))
        (converted p.type g k c h)

  Drafts-body : (p : RouteParameter) → Known registry names p.type → Drafts (body registry fuel p)
  unfolding body
  Drafts-body p k op g c h d =
      Ends-bind names fuel IsResolved DraftOk _ g (metadata_to_schema registry fuel p.type g) h
        (λ s g₁ c₁ h₁ grown r. (
          c₁,
          λ n p. p,
          record {
            parameters = (DraftOk-Grows g g₁ grown op d).parameters;
            request_body = ((r, tt), tt);
          },
        ))
        (converted p.type g k c h)

  -- A case that takes an object apart, if it has no name.
  module _ (decompose : Properties → Operation → M Operation)
      (works : (ps : Properties)
        → PropertiesKnown registry names ps
        → PropertiesNamed ps
        → Drafts (decompose ps))
      (location default : String) (place : is_location location ≡ true)
      (elsewhere : (location == "path") ≡ false) (given : (default == "") ≡ false) where
    Drafts-resolved :
        (p : RouteParameter) (o : Option Metadata)
        → lookup (facts p.type).ref registry ≡ o
        → is_some o ≡ true
        → Drafts (λ op. elim o [
          | some resolved ↦ decompose (properties resolved) op
          | none ↦ plain registry fuel p.name location p.required p op
        ])
    Drafts-resolved p none e h = absurd (ground arith)
    Drafts-resolved p (some m) e h =
        works (properties m)
          (properties-Known registry names m
            (Values-lookup (Known registry names) (facts p.type).ref registry m registered e))
          (Values-lookup (λ m. PropertiesNamed (properties m)) (facts p.type).ref registry m
            all_named e)

    Drafts-object_or_plain :
        (p : RouteParameter)
        → ParameterKnown registry names p
        → Drafts (object_or_plain registry fuel decompose location default p)
    unfolding object_or_plain
    Drafts-object_or_plain p k op g c h d =
        Ends-if DraftOk g (is_kind (facts p.type).kind Kind.object && p.name == "") _ _
          (λ e.
            works (properties p.type) (properties-Known registry names p.type k.type)
              (k.unpacks.named (ground arith)) op g c h d)
          λ _.
            Ends-if DraftOk g (is_kind (facts p.type).kind Kind.ref && p.name == "") _ _
              (λ e.
                Drafts-resolved p (lookup (facts p.type).ref registry) refl
                  (k.unpacks.registered (ground arith) (ground arith)) op g c h d)
              λ _.
                Drafts-plain _ location p.required p (named_or default p.name given) place
                  (not_path location p.required elsewhere) k.type op g c h d

  Drafts-one_parameter :
      (p : RouteParameter)
      → ParameterKnown registry names p
      → Drafts (one_parameter registry fuel p)
  unfolding one_parameter
  Drafts-one_parameter p k op g c h d =
      Ends-if DraftOk g (p.category == "body") _ _ (λ _. Drafts-body p k.type op g c h d)
        λ _.
          Ends-if DraftOk g (p.category == "query") _ _
            (λ _.
              Drafts-object_or_plain (decompose_query registry fuel) Drafts-decompose_query "query"
                "query" refl refl refl p k op g c h d)
            λ _.
              Ends-if DraftOk g (p.category == "param") _ _
                (λ _.
                  Drafts-plain _ "path" true p (named_or "id" p.name refl) refl (λ _. refl) k.type
                    op g c h d)
                λ _.
                  Ends-if DraftOk g (p.category == "headers") _ _
                    (λ _.
                      Drafts-object_or_plain (decompose_header registry fuel)
                        Drafts-decompose_header "header" "headers" refl refl refl p k op g c h d)
                    λ _. (c, λ n p. p, d)

  pub Drafts-all_parameters :
      (ps : List RouteParameter)
      → All (ParameterKnown registry names) ps
      → Drafts (all_parameters registry fuel ps)
  unfolding all_parameters
  Drafts-all_parameters [] k op g c h d = (c, λ n p. p, d)
  Drafts-all_parameters (p ∷ ps) (k, ks) op g c h d =
      Ends-bind names fuel DraftOk DraftOk _ g (one_parameter registry fuel p op g) h
        (λ op' g₁ c₁ h₁ _ d₁. Drafts-all_parameters ps ks op' g₁ c₁ h₁ d₁)
        (Drafts-one_parameter p k op g c h d)
