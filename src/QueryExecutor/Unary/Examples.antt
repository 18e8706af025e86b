-- ===== src/QueryExecutor/Unary/Examples.antt =====
-- A bag of two ints and a text, each its own value.
use loxim_stats.Base.{◌≡◌, refl, false, List, [], ◌∷◌, min, ◌⊎◌, ◌==◌, if◌then◌else◌}
use loxim_stats.Base.Int.{ℤ, pos}
use loxim_stats.QueryExecutor.Doubles.{whole, whole_laws}
use loxim_stats.QueryExecutor.Result.{
  QueryResult, Results, reference, unknown_node, err, string, int, bag, nothing, nil, cons, Answer,
  ok, is_nothing, add_to_bag,
}
use loxim_stats.QueryExecutor.Compare.{tests}
use loxim_stats.QueryExecutor.Compare.Order.{order}
use loxim_stats.QueryExecutor.Algebraic.{as_bag}
use loxim_stats.QueryExecutor.Algebraic.Counts.{count}
use loxim_stats.QueryExecutor.Unary.{
  Totals, sum, avg, distinct, minimum, sum_result, extreme, distinct_elements, un_operate,
}
use loxim_stats.QueryExecutor.Unary
use loxim_stats.QueryExecutor.Unary.Distinct.{distinct_elements-count}
use loxim_stats.QueryExecutor.Unary.Held.{Unbeaten}
use loxim_stats.QueryExecutor.Unary.Among.{Among}
use loxim_stats.QueryExecutor.Unary.Extremes.{extreme-Unbeaten}

abbrev three : QueryResult ℤ
three = int (pos 3)

abbrev five : QueryResult ℤ
five = int (pos 5)

abbrev label : QueryResult ℤ
label = string (120 ∷ [])

abbrev mixed : Results ℤ
mixed = cons five (cons three (cons label (cons five nil)))

abbrev labels : Results ℤ
labels = cons label nil

abbrev same : QueryResult ℤ → Answer (QueryResult ℤ)
same r = ok r

distinct_elements-count_example :
    count (order whole_laws 3) five (distinct_elements (tests whole 3) (bag mixed))
    ≡ min 1 (count (order whole_laws 3) five (as_bag (bag mixed)))
unfolding is_nothing add_to_bag
distinct_elements-count_example =
    distinct_elements-count whole_laws 3 five (bag mixed)
      ((refl, refl), ((refl, refl), ((refl, refl), ((refl, refl), tt))))

-- A dereference that finds a number behind 1 and fails on every other reference.
abbrev fetch : QueryResult ℤ → Answer (QueryResult ℤ)
fetch (reference n dir owner) = if n == 1 then ok three else err unknown_node
fetch r = ok r

abbrev referring : List (QueryResult ℤ)
referring = five ∷ reference 1 [] false ∷ label ∷ []

abbrev fetched : List (QueryResult ℤ)
fetched = five ∷ three ∷ label ∷ []

extreme-Unbeaten_example :
    (m : QueryResult ℤ) × (extreme whole fetch minimum referring ≡ ok m)
    × ((m ≡ nothing) ⊎ Among m fetched)
    × Unbeaten whole_laws minimum m fetched
extreme-Unbeaten_example =
    extreme-Unbeaten whole_laws fetch minimum referring fetched (refl, (refl, (refl, tt)))

-- The least number, and one of each element.
smallest : un_operate whole 3 same Unary.min (bag mixed) ≡ ok three
unfolding un_operate
smallest = refl

once :
    un_operate whole 3 same distinct (bag mixed)
    ≡ ok (bag (cons label (cons three (cons five nil))))
unfolding un_operate tests
once = refl
