-- ===== src/QueryExecutor/Algebraic/Examples.antt =====
-- Bags of two and three ints, and a few operands of + and /.
use loxim_stats.Base.{◌-◌, ◌≡◌, refl, [], ◌∷◌, min}
use loxim_stats.Base.Int.{ℤ, pos}
use loxim_stats.QueryExecutor.Doubles.{whole, whole_laws}
use loxim_stats.QueryExecutor.Result.{QueryResult, int, bag, nil, cons, is_nothing, add_to_bag}
use loxim_stats.QueryExecutor.Result.Access.{code}
use loxim_stats.QueryExecutor.Compare.{tests}
use loxim_stats.QueryExecutor.Compare.Order.{order}
use loxim_stats.QueryExecutor.Arithmetic.{divide}
use loxim_stats.QueryExecutor.Algebraic.{
  bag_intersect, bag_minus, arithmetic_operate, as_bag, bag_operate, pair_all,
}
use loxim_stats.QueryExecutor.Algebraic.Counts.{count}
use loxim_stats.QueryExecutor.Algebraic.Bags.{bag_operate-count}
use loxim_stats.QueryExecutor.Algebraic.Laws.{
  arithmetic_code, arithmetic_operate-code, product, comma-product,
}

abbrev one : QueryResult ℤ
one = int (pos 1)

abbrev two : QueryResult ℤ
two = int (pos 2)

abbrev left : QueryResult ℤ
left = bag (cons two (cons one (cons two nil)))

abbrev right : QueryResult ℤ
right = bag (cons one (cons two nil))

arithmetic_operate-code_example :
    code (arithmetic_operate whole divide one (int (pos 0)))
    ≡ arithmetic_code whole divide one (int (pos 0))
arithmetic_operate-code_example = arithmetic_operate-code whole divide one (int (pos 0))

comma-product_example :
    pair_all [] (one ∷ two ∷ []) (two ∷ []) ≡ product (one ∷ two ∷ []) (two ∷ [])
unfolding is_nothing
comma-product_example =
    comma-product (one ∷ two ∷ []) (two ∷ []) (((refl, refl), refl), (((refl, refl), refl), tt))
      (((refl, refl), refl), tt)

bag_operate-count_example :
    (count (order whole_laws 3) two (bag_operate (tests whole 3) bag_intersect left right)
      ≡ min
          (count (order whole_laws 3) two (as_bag left))
          (count (order whole_laws 3) two (as_bag right)))
    × (count (order whole_laws 3) two (bag_operate (tests whole 3) bag_minus left right)
        ≡ count (order whole_laws 3) two (as_bag left)
          - count (order whole_laws 3) two (as_bag right))
unfolding is_nothing add_to_bag
bag_operate-count_example =
    bag_operate-count whole_laws 3 two left right ((refl, refl), ((refl, refl), ((refl, refl), tt)))

-- One of the two is left.
difference : bag_operate (tests whole 3) bag_minus left right ≡ two ∷ []
unfolding bag_operate tests
difference = refl
