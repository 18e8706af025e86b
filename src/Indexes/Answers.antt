-- ===== src/Indexes/Answers.antt =====
-- A query to an index as a whole: BTree::find, the walk along the leaves, and the sieve.
use loxim_stats.Indexes.Constraints.{Constraints}
use loxim_stats.Indexes.Tree.{Tree}
