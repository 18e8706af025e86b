-- ===== src/TypeCheck.antt =====
-- src/TypeCheck: the decision tables by which a query gets its signature before it is evaluated.
pub mod Signature
pub mod Result
pub mod Generators
pub mod Rule
pub mod Decision
pub mod Tables
pub mod Unary
pub mod Typing
pub mod Cards
pub mod Variants
mod Examples
