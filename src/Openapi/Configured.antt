-- ===== src/Openapi/Configured.antt =====
-- internal/openapi/generator.go, ApplyConfig: the check of a configured document.
use tsgonest.Common.{
  ℕ, zero, ◌+◌, String, ◌≡◌, refl, false, Option, none, some, List, [], ◌∷◌, ◌++◌, ◌==◌, arith,
  if_cases,
}
use tsgonest.Common.Lists.{All, is_empty}
use tsgonest.Common.Maps.{Map}
use tsgonest.Openapi.Document.{Document, Server, Components, SecurityScheme, DocumentConfig}
use tsgonest.Openapi.Compliance.{
  Place, Message, ValidationError, error_if, validate_servers, validate_components,
  validate_schemas, validate_document,
}
use tsgonest.Openapi.Configure.{
  override, override_list, configured_info, with_schemes, configured_components, apply_config,
}

no_left : (xs ys : List ValidationError) → xs ++ ys ≡ [] → xs ≡ []
no_left [] ys h = refl
no_left (x ∷ xs) ys h = absurd (ground arith)

no_right : (xs ys : List ValidationError) → xs ++ ys ≡ [] → ys ≡ []
no_right [] ys h = h
no_right (x ∷ xs) ys h = absurd (ground arith)

none_at_all : (xs ys : List ValidationError) → xs ≡ [] → ys ≡ [] → xs ++ ys ≡ []
none_at_all xs ys h k = rw (h, k)

override_passes :
    (given old : String) (at : Place) (m : Message)
    → error_if (old == "") at m ≡ []
    → error_if (override given old == "") at m ≡ []
override_passes given old at m h =
    if_cases (λ s. error_if (s == "") at m ≡ []) (given == "") old given (λ _. h) (λ e. rw e refl)

servers_pass :
    (i : ℕ) (ss : List Server) → All (λ s. (s.url == "") ≡ false) ss → validate_servers i ss ≡ []
unfolding validate_servers
servers_pass i [] h = refl
servers_pass i (s ∷ ss) (e, h) = rw e (servers_pass (i + 1) ss h)

override_servers :
    (given old : List Server)
    → All (λ s. (s.url == "") ≡ false) given
    → validate_servers zero old ≡ []
    → validate_servers zero (override_list given old) ≡ []
override_servers given old h k =
    if_cases (λ ss. validate_servers zero ss ≡ []) (is_empty given) old given (λ _. k)
      (λ _. servers_pass zero given h)

schemes_pass :
    (schemes : Map SecurityScheme) (c : Option Components)
    → validate_components c ≡ []
    → validate_components (with_schemes schemes c) ≡ []
unfolding validate_schemas
schemes_pass schemes none h = refl
schemes_pass schemes (some c) h = h

components_pass :
    (schemes : Map SecurityScheme) (c : Option Components)
    → validate_components c ≡ []
    → validate_components (configured_components schemes c) ≡ []
unfolding configured_components
components_pass schemes c h =
    if_cases (λ o. validate_components o ≡ []) (is_empty schemes) c (with_schemes schemes c)
      (λ _. h) (λ _. schemes_pass schemes c h)

-- If ValidateDocument finds nothing in a document, it finds nothing after ApplyConfig, whatever the
-- configuration, as long as its servers have URLs.
pub apply_config-validate_document :
    (cfg : DocumentConfig) (doc : Document)
    → All (λ s. (s.url == "") ≡ false) cfg.servers
    → validate_document doc ≡ []
    → validate_document (apply_config cfg doc) ≡ []
unfolding validate_document apply_config configured_info
apply_config-validate_document cfg doc servers h =
    let version = no_left _ _ h in
    let after_version = no_right _ _ h in
    let title = no_left _ _ after_version in
    let after_title = no_right _ _ after_version in
    let info_version = no_left _ _ after_title in
    let after_info = no_right _ _ after_title in
    let paths = no_left _ _ after_info in
    let after_paths = no_right _ _ after_info in
    let components = no_left _ _ after_paths in
    let old_servers = no_right _ _ after_paths in
    none_at_all _ _ version (
      none_at_all _ _ (override_passes cfg.title doc.info.title _ _ title) (
        none_at_all _ _ (override_passes cfg.version doc.info.version _ _ info_version) (
          none_at_all _ _ paths (
            none_at_all _ _ (components_pass cfg.security_schemes doc.components components)
              (override_servers cfg.servers doc.servers servers old_servers)))))
