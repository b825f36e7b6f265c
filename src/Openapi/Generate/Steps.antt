-- ===== src/Openapi/Generate/Steps.antt =====
-- internal/openapi/generator.go: what a route does to the paths of the document.
use tsgonest.Common.{ℕ, ◌≤◌, String, ◌≡◌, refl, Option, none, some, List, [], ◌∷◌}
use tsgonest.Common.Lists.{All, All-mono}
use tsgonest.Common.Maps.{Map, Values, lookup}
use tsgonest.Metadata.{TypeRegistry}
use tsgonest.Analyzer.{Route, ControllerInfo}
use tsgonest.Openapi.Document.{PathItem, GenerateOptions}
use tsgonest.Openapi.SchemaGen.Action.{Gen}
use tsgonest.Openapi.SchemaGen.Resolved.{Closed, Grows}
use tsgonest.Openapi.SchemaGen.Names.{missing}
use tsgonest.Openapi.SchemaGen.Ends.{Ends, Ends-if, Good, Ends-bind}
use tsgonest.Openapi.SchemaGen.Known.{Known}
use tsgonest.Openapi.Operation.Parameters.{properties}
use tsgonest.Openapi.Operation.Build.{build_operation, build_responses, base_operation}
use tsgonest.Openapi.Paths.Rooted.{Rooted}
use tsgonest.Openapi.Generate.{
  no_path_item, openapi_path, Progress, finish_operation, add_version, add_versions, route_versions,
  add_routes, add_controllers,
}
use tsgonest.Openapi.Generate.Entries.{Entries, Entries-insert, Entries-lookup}
use tsgonest.Openapi.Generate.Valid.{DraftOk, DraftOk-Grows, PathItemOk, PathItemOk-Grows}
use tsgonest.Openapi.Generate.Routes.{PropertiesNamed, RouteKnown, ControllersKnown}
use tsgonest.Openapi.Generate.Drafts.{Drafts-all_parameters}
use tsgonest.Openapi.Generate.Replies.{Filled, Good-build_responses}
use tsgonest.Openapi.Generate.Items.{
  BuiltOk, openapi_path-Rooted, ensured-OperationOk, version_header-OperationOk,
  set_method-PathItemOk,
}

-- A path of the document, and what stands under it.
abbrev pub EntryOk : Gen → String → PathItem → Type 0
EntryOk g path item = Rooted path × PathItemOk g path item

item_found :
    (g : Gen) (path : String) (paths : Map PathItem) (o : Option PathItem)
    → lookup path paths ≡ o
    → Entries (EntryOk g) paths
    → PathItemOk g path (elim o [ none ↦ no_path_item | some item ↦ item ])
item_found g path paths none e h = record {
  get = tt;
  post = tt;
  put = tt;
  delete = tt;
  patch = tt;
  head = tt;
  options = tt;
}
item_found g path paths (some item) e h = (Entries-lookup (EntryOk g) path paths item h e).1

Entries-Grows :
    (g g' : Gen) (paths : Map PathItem)
    → Grows g g'
    → Entries (EntryOk g) paths
    → Entries (EntryOk g') paths
Entries-Grows g g' paths grown h =
    All-mono paths (λ e k. (k.0, PathItemOk-Grows g g' grown e.0 e.1 k.1)) h

module _ (registry : TypeRegistry) (names : List String) (fuel : ℕ) (opts : Option GenerateOptions)
    (registered : Values (Known registry names) registry)
    (all_named : Values (λ m. PropertiesNamed (properties m)) registry) where
  Good-build_operation :
      (r : Route) (controller_name : String)
      → RouteKnown registry names r
      → Good names fuel BuiltOk (build_operation registry fuel r controller_name)
  unfolding build_operation base_operation
  Good-build_operation r controller_name k g c h =
      Ends-bind names fuel DraftOk BuiltOk _ g _ h
        (λ op g₁ c₁ h₁ _ d.
          Ends-bind names fuel (Filled registry names fuel registered) BuiltOk _ g₁
            (build_responses registry fuel r g₁) h₁
            (λ rs g₂ c₂ _ grown f. (
              c₂,
              λ n p. p,
              record {
                draft =
                    let d' = DraftOk-Grows g₁ g₂ grown op d in
                    record { parameters = d'.parameters; request_body = d'.request_body };
                responses = f.0;
                some_response = f.1;
              },
            ))
            (Good-build_responses registry names fuel registered r k g₁ c₁ h₁))
        (Drafts-all_parameters registry names fuel registered all_named r.parameters k.parameters
          (base_operation r controller_name) g c h (record { parameters = tt; request_body = tt }))

  abbrev pub PathsOk : Gen → Progress → Type 0
  PathsOk g p = Entries (EntryOk g) p.paths

  Ends-add_version :
      (controller_name : String) (r : Route) (version : String) (p : Progress) (g : Gen)
      → RouteKnown registry names r
      → Closed g
      → missing names g ≤ fuel
      → PathsOk g p
      → Ends PathsOk g (add_version registry fuel opts controller_name r version p g)
  unfolding add_version finish_operation
  Ends-add_version controller_name r version p g k c h ok =
      Ends-bind names fuel BuiltOk PathsOk _ g (build_operation registry fuel r controller_name g) h
        (λ op g₁ c₁ _ grown b.
          let path = openapi_path opts version r in
          let paths_ok = Entries-Grows g g₁ p.paths grown ok in
          (
            c₁,
            λ n q. q,
            Entries-insert (EntryOk g₁) path _ p.paths
                (
                  openapi_path-Rooted opts version r k.rooted,
                  set_method-PathItemOk g₁ path r.method _ _
                      (version_header-OperationOk g₁ opts path version _
                        (ensured-OperationOk g₁ path op b))
                      (item_found g₁ path p.paths (lookup path p.paths) refl paths_ok),
                )
                paths_ok,
          ))
        (Good-build_operation r controller_name k g c h)

  Ends-add_versions :
      (controller_name : String) (r : Route) (versions : List String) (p : Progress) (g : Gen)
      → RouteKnown registry names r
      → Closed g
      → missing names g ≤ fuel
      → PathsOk g p
      → Ends PathsOk g (add_versions registry fuel opts controller_name r versions p g)
  unfolding add_versions
  Ends-add_versions controller_name r [] p g k c h ok = (c, λ n q. q, ok)
  Ends-add_versions controller_name r (v ∷ vs) p g k c h ok =
      Ends-bind names fuel PathsOk PathsOk _ g
        (add_version registry fuel opts controller_name r v p g) h
        (λ p' g₁ c₁ h₁ _ ok'. Ends-add_versions controller_name r vs p' g₁ k c₁ h₁ ok')
        (Ends-add_version controller_name r v p g k c h ok)

  Ends-add_routes :
      (controller_name : String) (rs : List Route) (p : Progress) (g : Gen)
      → All (RouteKnown registry names) rs
      → Closed g
      → missing names g ≤ fuel
      → PathsOk g p
      → Ends PathsOk g (add_routes registry fuel opts controller_name rs p g)
  unfolding add_routes
  Ends-add_routes controller_name [] p g k c h ok = (c, λ n q. q, ok)
  Ends-add_routes controller_name (r ∷ rs) p g (k, ks) c h ok =
      Ends-bind names fuel PathsOk PathsOk _ g _ h
        (λ p' g₁ c₁ h₁ _ ok'. Ends-add_routes controller_name rs p' g₁ ks c₁ h₁ ok')
        (Ends-add_versions controller_name r (route_versions registry fuel opts r) p g k c h ok)

  pub Ends-add_controllers :
      (cs : List ControllerInfo) (p : Progress) (g : Gen)
      → ControllersKnown registry names cs
      → Closed g
      → missing names g ≤ fuel
      → PathsOk g p
      → Ends PathsOk g (add_controllers registry fuel opts cs p g)
  unfolding add_controllers
  Ends-add_controllers [] p g k c h ok = (c, λ n q. q, ok)
  Ends-add_controllers (ctrl ∷ cs) p g (k, ks) c h ok =
      Ends-bind names fuel PathsOk PathsOk _ g _ h
        (λ p' g₁ c₁ h₁ _ ok'. Ends-add_controllers cs p' g₁ ks c₁ h₁ ok')
        (Ends-if PathsOk g ctrl.ignore_openapi _ _ (λ _. (c, λ n q. q, ok))
          (λ _. Ends-add_routes ctrl.name ctrl.routes p g k c h ok))
