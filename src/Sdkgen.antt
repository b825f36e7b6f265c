-- ===== src/Sdkgen.antt =====
-- internal/sdkgen: the TypeScript client, from an OpenAPI document.
pub mod Keys
pub mod Literals
pub mod Nodes
pub mod Types
pub mod Grammar
pub mod TypeOf
pub mod Readable
pub mod Interfaces
pub mod Comments
pub mod Refs
pub mod Fresh
pub mod Moves
pub mod Renaming
mod TypeExamples
mod Examples
