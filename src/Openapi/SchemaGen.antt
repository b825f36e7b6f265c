-- ===== src/Openapi/SchemaGen.antt =====
-- internal/openapi/schema.go, SchemaGenerator: metadata into schemas, with the named ones collected
-- under components/schemas. A method is an action on the map `schemas`. Children.antt is the
-- recursion over the metadata, Convert.antt what the methods do with the results.
pub mod Action
pub mod Objects
pub mod Unions
pub mod Convert
pub mod Children
pub mod Resolved
pub mod Names
pub mod Ends
pub mod Shapes
pub mod Methods
pub mod Known
pub mod Total
