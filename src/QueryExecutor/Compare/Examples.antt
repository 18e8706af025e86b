-- ===== src/QueryExecutor/Compare/Examples.antt =====
-- A number, a text and nested bags, compared.
use loxim_stats.Base.{◌≡◌, ◌&&◌, true, false, [], ◌∷◌}
use loxim_stats.Base.Int.{ℤ, pos}
use loxim_stats.Base.Compare.{IsCompare, is_lt, is_eq}
use mathlib.Core.List.{Perm}
use mathlib.Core.List.Perm
use loxim_stats.QueryExecutor.Doubles.{whole, whole_laws}
use loxim_stats.QueryExecutor.Result.{
  QueryResult, Results, string, int, binder, bag, nil, cons, to_list,
}
use loxim_stats.QueryExecutor.Compare.{tests}
use loxim_stats.QueryExecutor.Compare.Order.{order}
use loxim_stats.QueryExecutor.Compare.Levels.{outcome, tests-order, outcome-IsCompare}
use loxim_stats.QueryExecutor.Compare.Bags.{equal-bag_perm}

abbrev one : QueryResult ℤ
one = int (pos 1)

abbrev name : QueryResult ℤ
name = binder (110 ∷ []) (string (120 ∷ []))

abbrev forward : Results ℤ
forward = cons one (cons name nil)

abbrev backward : Results ℤ
backward = cons name (cons one nil)

backward_perm : Perm (to_list forward) (to_list backward)
backward_perm = Perm.swap name one []

tests-order_example :
    ((tests whole 3).equal (bag forward) one ≡ is_eq (order whole_laws 3 (bag forward) one))
    × ((tests whole 3).less_than (bag forward) one ≡ is_lt (order whole_laws 3 (bag forward) one))
tests-order_example = tests-order whole_laws 3 (bag forward) one

outcome-IsCompare_example :
    IsCompare (outcome (tests whole 3))
    × ((a b : QueryResult ℤ) → ((tests whole 3).equal a b && (tests whole 3).less_than a b) ≡ false)
outcome-IsCompare_example = outcome-IsCompare whole_laws 3

equal-bag_perm_example : (tests whole 3).equal (bag forward) (bag backward) ≡ true
equal-bag_perm_example = equal-bag_perm whole_laws 2 forward backward backward_perm
