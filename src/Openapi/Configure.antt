-- ===== src/Openapi/Configure.antt =====
-- internal/openapi/generator.go, ApplyConfig: the configuration written over a document.
use tsgonest.Common.{String, Option, none, some, List, [], ◌∷◌, ◌++◌, ◌==◌, if◌then◌else◌, map}
use tsgonest.Common.Lists.{is_empty}
use tsgonest.Common.Maps.{Map, lookup, insert, delete}
use tsgonest.Openapi.Document.{Document, Info, Components, SecurityScheme, Tag, DocumentConfig}
use tsgonest.Openapi.Generate.{sort_tags}

-- `if given != "" { field = given }`.
abbrev pub override : String → String → String
override given old = if given == "" then old else given

-- `if given != nil { field = given }`.
abbrev pub override_pointer : {A : Type 0} → Option A → Option A → Option A
override_pointer none old = old
override_pointer (some given) old = some given

-- `if len(given) > 0 { field = given }`.
abbrev pub override_list : {A : Type 0} → List A → List A → List A
override_list given old = if is_empty given then old else given

unfoldable pub configured_info : DocumentConfig → Info → Info
configured_info cfg i = record i {
  title = override cfg.title i.title;
  description = override cfg.description i.description;
  version = override cfg.version i.version;
  terms_of_service = override cfg.terms_of_service i.terms_of_service;
  contact = override_pointer cfg.contact i.contact;
  license = override_pointer cfg.license i.license;
}

abbrev pub with_schemes : Map SecurityScheme → Option Components → Option Components
with_schemes schemes none = some (record { schemas = []; security_schemes = schemes })
with_schemes schemes (some c) = some (record c { security_schemes = schemes })

unfoldable pub configured_components : Map SecurityScheme → Option Components → Option Components
configured_components schemes components =
    if is_empty schemes then components else with_schemes schemes components

-- The loop that fills `tagDescMap`.
unfoldable pub tag_descriptions : List Tag → Map String → Map String
tag_descriptions [] m = m
tag_descriptions (t ∷ ts) m = tag_descriptions ts (insert t.name t.description m)

-- The body of the loop over the tags of the document, whose rest gives `kept` where the tag has no
-- description in `tagDescMap`, and `taken` where it has one, which is deleted.
abbrev pub describe_tag :
    Tag → Option String → List Tag × Map String → List Tag × Map String → List Tag × Map String
describe_tag t none kept taken = (t ∷ kept.0, kept.1)
describe_tag t (some desc) kept taken = (record t { description = desc } ∷ taken.0, taken.1)

-- The loop, with what it leaves in `tagDescMap`.
unfoldable pub describe_tags : List Tag → Map String → List Tag × Map String
describe_tags [] m = ([], m)
describe_tags (t ∷ ts) m =
    let kept = describe_tags ts m in
    let taken = describe_tags ts (delete t.name m) in describe_tag t (lookup t.name m) kept taken

abbrev pub tags_of : Map String → List Tag
tags_of m = map (λ e. record { name = e.0; description = e.1 }) m

-- The tags, with those of the configuration. Of tags with one name the sort keeps the order.
unfoldable pub configured_tags : List Tag → List Tag → List Tag
unfolding tag_descriptions describe_tags sort_tags
configured_tags given tags =
    let described = describe_tags tags (tag_descriptions given []) in
    if is_empty given then tags else sort_tags (described.0 ++ tags_of described.1)

-- `ApplyConfig`.
unfoldable pub apply_config : DocumentConfig → Document → Document
unfolding configured_info configured_components configured_tags
apply_config cfg doc = record doc {
  info = configured_info cfg doc.info;
  servers = override_list cfg.servers doc.servers;
  components = configured_components cfg.security_schemes doc.components;
  security = override_list cfg.security doc.security;
  tags = configured_tags cfg.tags doc.tags;
}
