-- ===== src/QueryExecutor/Unary/Sums.antt =====
-- sum and avg of a bag in which nothing is a number.
use loxim_stats.Base.{ℕ, ◌+◌, ◌≡◌, refl, List, [], ◌∷◌, map, arith}
use loxim_stats.Base.Int.{pos}
use loxim_stats.QueryExecutor.Doubles.{Doubles}
use loxim_stats.QueryExecutor.Result.{
  QueryResult, Results, int, double, bag, to_list, Answer, ok, add_to_bag,
}
use loxim_stats.QueryExecutor.Arithmetic.{zero_double}
use loxim_stats.QueryExecutor.Unary.{Totals, sum, avg, no_totals, add_number, sum_loop, un_operate}

module _ {D : Type 0} where
  -- How many of the results are numbers.
  abbrev pub numbers : List (QueryResult D) → ℕ
  numbers [] = 0
  numbers (int v ∷ rs) = 1 + numbers rs
  numbers (double v ∷ rs) = 1 + numbers rs
  numbers (r ∷ rs) = numbers rs

  abbrev totals_of : Doubles D → Totals D → List (QueryResult D) → Totals D
  totals_of d t [] = t
  totals_of d t (r ∷ rs) = totals_of d (add_number d t r) rs

module _ {D : Type 0} (d : Doubles D) (deref : QueryResult D → Answer (QueryResult D))
    (target : QueryResult D → QueryResult D)
    (dereferences : (r : QueryResult D) → deref r ≡ ok (target r)) where
  loop_totals :
      (t : Totals D) (rs : List (QueryResult D))
      → sum_loop d deref t rs ≡ ok (totals_of d t (map target rs))
  unfolding sum_loop
  loop_totals t [] = refl
  loop_totals t (r ∷ rs) = rw (dereferences r) (loop_totals (add_number d t (target r)) rs)

  unchanged : (t : Totals D) (rs : List (QueryResult D)) → numbers rs ≡ 0 → totals_of d t rs ≡ t
  unfolding add_number
  unchanged t [] h = refl
  unchanged t (int v ∷ rs) h = absurd (omega arith)
  unchanged t (double v ∷ rs) h = absurd (omega arith)
  unchanged t (r ∷ rs) h = unchanged t rs h

  -- Where no element has a number as its value, which an empty bag always satisfies, sum answers the int 0
  -- while avg divides a zero by the number 0.
  pub un_operate-without_numbers :
      (n : ℕ) (rs : Results D)
      → numbers (map target (to_list rs)) ≡ 0
      → (un_operate d n deref sum (bag rs) ≡ ok (int (pos 0)))
        × (un_operate d n deref avg (bag rs)
            ≡ ok (double (d.divide (d.plus (zero_double d) (d.of_int (pos 0))) (d.of_int (pos 0)))))
  unfolding un_operate add_to_bag
  un_operate-without_numbers n rs h =
      let same = unchanged (no_totals d) (map target (to_list rs)) h in
      (
        rw (loop_totals (no_totals d) (to_list rs), same) refl,
        rw (loop_totals (no_totals d) (to_list rs), same) refl,
      )
