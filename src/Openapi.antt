-- ===== src/Openapi.antt =====
-- internal/openapi: the OpenAPI document, from analysed controllers to the checked document.
pub mod Schema
pub mod SchemaGen
pub mod Document
pub mod Paths
pub mod Operation
pub mod Generate
pub mod Compliance
pub mod Compliant
pub mod Configure
pub mod Configured
pub mod ConfiguredTags
mod ConfigExamples
mod Examples
