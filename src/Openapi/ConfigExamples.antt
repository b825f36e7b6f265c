-- ===== src/Openapi/ConfigExamples.antt =====
-- A document of internal/openapi/generator.go with a configuration written over it.
use tsgonest.Common.{String, ◌≡◌, refl, ◌||◌, none, some, [], ◌∷◌}
use tsgonest.Common.Lists.{any}
use tsgonest.Common.Maps.{lookup, insert, delete}
use tsgonest.Common.Texts.{has_prefix}
use tsgonest.Openapi.Document.{Document, Tag, DocumentConfig}
use tsgonest.Openapi.Generate.{initial_info}
use tsgonest.Openapi.Compliance.{validate_document, validate_paths, validate_servers}
use tsgonest.Openapi.Configure.{apply_config, configured_tags}
use tsgonest.Openapi.Configured.{apply_config-validate_document}
use tsgonest.Openapi.ConfiguredTags.{named, any-configured_tags}

abbrev tag : String → String → Tag
tag name description = record { name = name; description = description }

abbrev config : DocumentConfig
config = record {
  title = "Shop";
  description = "";
  version = "";
  terms_of_service = "";
  contact = none;
  license = none;
  servers = record { url = "https://shop.example"; description = "" } ∷ [];
  security_schemes = [];
  security = [];
  tags = tag "users" "People" ∷ tag "admin" "Staff" ∷ [];
}

abbrev document : Document
document = record {
  openapi = "3.2.0";
  info = initial_info none;
  servers = [];
  paths = some [];
  components = none;
  tags = tag "orders" "" ∷ tag "users" "" ∷ [];
  security = [];
}

merged_tags :
    configured_tags config.tags document.tags
    ≡ tag "admin" "Staff" ∷ tag "orders" "" ∷ tag "users" "People" ∷ []
unfolding configured_tags lookup insert delete
merged_tags = refl

apply_config-validate_document_example : validate_document (apply_config config document) ≡ []
unfolding validate_document has_prefix validate_paths validate_servers
apply_config-validate_document_example =
    apply_config-validate_document config document (refl, tt) refl

any-configured_tags_example :
    any (named "admin") (apply_config config document).tags
    ≡ (any (named "admin") document.tags || any (named "admin") config.tags)
any-configured_tags_example = any-configured_tags config document "admin"
