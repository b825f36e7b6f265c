-- ===== src/Openapi/Generate/Complete.antt =====
-- internal/openapi/generator.go, GenerateWithOptions: the whole document.
use tsgonest.Common.{ℕ, ◌≤◌, String, ◌≡◌, refl, Option, none, some, List, []}
use tsgonest.Common.Maps.{Values}
use tsgonest.Metadata.{TypeRegistry}
use tsgonest.Analyzer.{ControllerInfo}
use tsgonest.Openapi.Document.{Document, GenerateOptions}
use tsgonest.Openapi.SchemaGen.Action.{Gen}
use tsgonest.Openapi.SchemaGen.Resolved.{Closed}
use tsgonest.Openapi.SchemaGen.Names.{missing}
use tsgonest.Openapi.SchemaGen.Ends.{Ends}
use tsgonest.Openapi.SchemaGen.Known.{Known}
use tsgonest.Openapi.Operation.Parameters.{properties}
use tsgonest.Openapi.Generate.{Progress, add_controllers, assemble, generate_with_options}
use tsgonest.Openapi.Generate.Entries.{Entries}
use tsgonest.Openapi.Generate.Routes.{PropertiesNamed, ControllersKnown}
use tsgonest.Openapi.Generate.Steps.{EntryOk, PathsOk, Ends-add_controllers}

abbrev start : Progress
start = record { paths = []; tag_set = [] }

-- The document that was made is well formed, and its components are those of the generator.
pub record DocumentOk (opts : Option GenerateOptions) (doc : Document) (g : Gen) : Type 0 where
  pub closed : Closed g
  pub progress : Progress
  pub entries : Entries (EntryOk g) progress.paths
  pub assembled : doc ≡ assemble opts progress g

-- Let the references of the routes and of the registry be registered, the component names that they
-- ask for be among `names`, no property and no parameter have an empty name, and each route's path
-- begin with a slash. With fuel for the names that are missing GenerateWithOptions returns a
-- document. Under each of its paths, which begins with a slash, every operation has described
-- responses, named parameters at known places, a required path parameter for each placeholder of
-- the path, and only references to components.
pub generate_with_options-DocumentOk :
    (registry : TypeRegistry) (names : List String) (fuel : ℕ) (opts : Option GenerateOptions)
    (cs : List ControllerInfo) (g : Gen)
    → Values (Known registry names) registry
    → Values (λ m. PropertiesNamed (properties m)) registry
    → ControllersKnown registry names cs
    → Closed g
    → missing names g ≤ fuel
    → (doc : Document) × (g' : Gen) × (generate_with_options registry fuel opts cs g
        ≡ some (doc, g'))
      × DocumentOk opts doc g'
unfolding generate_with_options
generate_with_options-DocumentOk registry names fuel opts cs g registered all_named k c h =
    returned (add_controllers registry fuel opts cs start g)
      (Ends-add_controllers registry names fuel opts registered all_named cs start g k c h tt)
  where
    returned :
        (r : Option (Progress × Gen))
        → Ends (PathsOk registry names fuel opts registered all_named) g r
        → (doc : Document) × (g' : Gen) × (elim r as (λ _. Option (Document × Gen)) [
          | none ↦ none
          | some (p, g') ↦ some (assemble opts p g', g')
        ]
            ≡ some (doc, g'))
          × DocumentOk opts doc g'
    returned none e = absurd e
    returned (some (p, g')) (closed, grown, ok) = (
      assemble opts p g',
      g',
      refl,
      record { closed = closed; progress = p; entries = ok; assembled = refl },
    )
