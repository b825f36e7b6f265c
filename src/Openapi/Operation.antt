-- ===== src/Openapi/Operation.antt =====
-- internal/openapi/generator.go, buildOperation: one route into one operation.
pub mod Status
pub mod Sse
pub mod Parameters
pub mod Responses
pub mod Build
