-- ===== src/QueryExecutor/NonAlgebraic/Examples.antt =====
-- Rows that are ints, looked at by whether they are above 3.
use loxim_stats.Base.{ℕ, ◌≡◌, refl, Bool, List, ltb}
use loxim_stats.Base.Int.{ℤ, pos, ltb_ℤ}
use loxim_stats.QueryExecutor.Doubles.{whole}
use loxim_stats.QueryExecutor.Result.{
  QueryResult, Results, int, boolean, bag, sequence, nil, cons, Answer, ok,
}
use loxim_stats.QueryExecutor.Compare.{tests}
use loxim_stats.QueryExecutor.NonAlgebraic.{order_by, non_alg_operate}

abbrev four : QueryResult ℤ
four = int (pos 4)

abbrev two : QueryResult ℤ
two = int (pos 2)

abbrev rows : Results ℤ
rows = cons four (cons two nil)

abbrev above : ℕ → QueryResult ℤ → Bool
above i (int v) = ltb_ℤ (pos 3) v
above i r = ltb 3 i

abbrev right : ℕ → QueryResult ℤ → Answer (QueryResult ℤ)
right i r = ok (boolean (above i r))

abbrev same : QueryResult ℤ → Answer (QueryResult ℤ)
same r = ok r

abbrev self_key : ℕ → QueryResult ℤ → QueryResult ℤ
self_key i r = r

abbrev own : ℕ → QueryResult ℤ → Answer (QueryResult ℤ)
own i r = ok r

ordered :
    non_alg_operate whole 3 same own order_by (bag rows) ≡ ok (sequence (cons two (cons four nil)))
unfolding non_alg_operate tests
ordered = refl
