-- ===== src/Indexes.antt =====
-- src/Indexes: which entries of an index a search reads, and which of them a transaction sees.
pub mod Resolver
pub mod Sieve
pub mod Comparator
pub mod Traveller
pub mod Constraints
pub mod Tree
pub mod Answers
mod Examples
