-- ===== src/Codegen/Correct.antt =====
-- internal/codegen/validate_is.go: what the generated test returns.
pub mod Steps
pub mod Constrained
pub mod Unions
pub mod Kinds
pub mod Members
pub mod Types
pub mod References
pub mod Function
