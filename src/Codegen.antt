-- ===== src/Codegen.antt =====
-- internal/codegen: the JavaScript checks that stand beside a type.
pub mod JsValue
pub mod Expr
pub mod Names
pub mod Regexes
pub mod Formats
pub mod IsExpr
pub mod Matches
pub mod Normal
pub mod Calls
pub mod Correct
mod Examples
