-- ===== src/QueryExecutor.antt =====
-- src/QueryExecutor: the values that queries work with and the operators on them.
pub mod Doubles
pub mod Result
pub mod Compare
pub mod Arithmetic
pub mod Algebraic
pub mod Unary
pub mod NonAlgebraic
