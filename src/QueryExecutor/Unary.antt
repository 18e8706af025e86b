-- ===== src/QueryExecutor/Unary.antt =====
-- src/QueryExecutor/QueryExecutor.cpp, unOperate: negation and the operators on bags. `deref` is
-- derefQuery; where it fails in unMinus the source goes on with a pointer that was not set,
-- and the model ends with the error. deref, ref, nameof and delete read or change the store
-- and are not modelled.
pub mod Distinct
pub mod Held
pub mod Among
pub mod Extremes
pub mod Sums
mod Examples
use loxim_stats.Base.{
  ℕ, ◌+◌, Bool, true, false, not, ◌||◌, Option, none, some, List, [], ◌∷◌, length, if◌then◌else◌,
  ltb,
}
use loxim_stats.Base.Int.{ℤ, pos, ◌+ℤ◌, ◌-ℤ◌, ltb_ℤ}
use loxim_stats.QueryExecutor.Doubles.{Doubles}
use loxim_stats.QueryExecutor.Result.{
  QueryResult, Results, int, double, boolean, bag, nothing, from_list, Answer, ok, err, ◌>>=◌,
  number_expected, bool_expected, is_bool, get_bool_value, add_to_bag,
}
use loxim_stats.QueryExecutor.Compare.{Tests, sort, tests, not_equal}
use loxim_stats.QueryExecutor.Arithmetic.{zero_double}
use loxim_stats.QueryExecutor.Algebraic.{add, as_bag}

pub data UnOp : Type 0 where
  un_minus bool_not count sum avg min max distinct : UnOp

-- The accumulators of sum and avg.
pub record Totals (D : Type 0) : Type 0 where
  pub i_sum : ℤ
  pub i_count : ℕ
  pub d_sum : D
  pub d_count : ℕ

-- The accumulators of min and max: none is a flag i_counted or d_counted that is not set.
pub record Bests (D : Type 0) : Type 0 where
  pub i_best : Option ℤ
  pub d_best : Option D

-- min and max are written twice in the source, and differ in the direction of their tests.
pub data Extreme : Type 0 where
  minimum maximum : Extreme

module _ {D : Type 0} (d : Doubles D) where
  abbrev pub no_totals : Totals D
  no_totals = record { i_sum = pos 0; i_count = 0; d_sum = zero_double d; d_count = 0 }

  -- Other results are passed over.
  unfoldable pub add_number : Totals D → QueryResult D → Totals D
  add_number t (int v) = record t { i_sum = t.i_sum +ℤ v; i_count = t.i_count + 1 }
  add_number t (double v) = record t { d_sum = d.plus t.d_sum v; d_count = t.d_count + 1 }
  add_number t _ = t

  abbrev pub sum_result : Totals D → QueryResult D
  sum_result t = if ltb 0 t.d_count then double (d.plus t.d_sum (d.of_int t.i_sum)) else int t.i_sum

  abbrev pub avg_result : Totals D → QueryResult D
  avg_result t =
      double (d.divide (d.plus t.d_sum (d.of_int t.i_sum)) (d.of_int (pos (t.i_count + t.d_count))))

  abbrev pub beats_int : Extreme → ℤ → ℤ → Bool
  beats_int minimum v best = ltb_ℤ v best
  beats_int maximum v best = ltb_ℤ best v

  abbrev pub beats_double : Extreme → D → D → Bool
  beats_double minimum v best = d.less v best
  beats_double maximum v best = d.less best v

  abbrev pub better_int : Extreme → ℤ → Option ℤ → ℤ
  better_int e v none = v
  better_int e v (some best) = if beats_int e v best then v else best

  abbrev pub better_double : Extreme → D → Option D → D
  better_double e v none = v
  better_double e v (some best) = if beats_double e v best then v else best

  unfoldable pub try_number : Extreme → Bests D → QueryResult D → Bests D
  try_number e b (int v) = record b { i_best = some (better_int e v b.i_best) }
  try_number e b (double v) = record b { d_best = some (better_double e v b.d_best) }
  try_number e b _ = b

  -- i_min_res <= d_min_res, and >= for max.
  abbrev pub int_first : Extreme → ℤ → D → Bool
  int_first minimum v w = d.less (d.of_int v) w || d.equals (d.of_int v) w
  int_first maximum v w = d.less w (d.of_int v) || d.equals w (d.of_int v)

  abbrev pub best_of : Extreme → Option ℤ → Option D → QueryResult D
  best_of e none none = nothing
  best_of e (some v) none = int v
  best_of e none (some w) = double w
  best_of e (some v) (some w) = if int_first e v w then int v else double w

  module _ (deref : QueryResult D → Answer (QueryResult D)) where
    -- The loops, which take the elements from the front of the bag.
    unfoldable pub sum_loop : Totals D → List (QueryResult D) → Answer (Totals D)
    unfolding add_number
    sum_loop t [] = ok t
    sum_loop t (r ∷ rs) = deref r >>= λ x. sum_loop (add_number t x) rs

    unfoldable pub extreme_loop : Extreme → Bests D → List (QueryResult D) → Answer (Bests D)
    unfolding try_number
    extreme_loop e b [] = ok b
    extreme_loop e b (r ∷ rs) = deref r >>= λ x. extreme_loop e (try_number e b x) rs

    unfoldable pub extreme : Extreme → List (QueryResult D) → Answer (QueryResult D)
    unfolding extreme_loop
    extreme e rs = extreme_loop e (record { i_best = none; d_best = none }) rs >>= λ b.
        ok (best_of e b.i_best b.d_best)

  abbrev pub negate_number : QueryResult D → Answer (QueryResult D)
  negate_number (int v) = ok (int (pos 0 -ℤ v))
  negate_number (double v) = ok (double (d.negate v))
  negate_number _ = err number_expected

module _ {D : Type 0} where
  unfoldable pub negate_bool : QueryResult D → Answer (QueryResult D)
  unfolding is_bool get_bool_value
  negate_bool r =
      if is_bool r then (get_bool_value r >>= λ b. ok (boolean (not b))) else err bool_expected

  -- The loop over a sorted bag: an element that differs from the last one kept is kept.
  unfoldable pub distinct_loop :
      Tests D → List (QueryResult D) → QueryResult D → List (QueryResult D) → List (QueryResult D)
  unfolding add_to_bag
  distinct_loop t final current [] = final
  distinct_loop t final current (next ∷ rs) = elim (not_equal t next current) [
    | true ↦ distinct_loop t (add final next) next rs
    | false ↦ distinct_loop t final current rs
  ]

  abbrev pub distinct_sorted : Tests D → List (QueryResult D) → List (QueryResult D)
  distinct_sorted t [] = []
  distinct_sorted t (r ∷ rs) = distinct_loop t (add [] r) r rs

  unfoldable pub distinct_elements : Tests D → QueryResult D → List (QueryResult D)
  unfolding add_to_bag sort distinct_loop
  distinct_elements t r = distinct_sorted t (sort t.less_than (as_bag r))

unfoldable pub un_operate :
    {D : Type 0}
    → Doubles D
    → ℕ
    → (QueryResult D → Answer (QueryResult D))
    → UnOp
    → QueryResult D
    → Answer (QueryResult D)
unfolding negate_bool sum_loop extreme distinct_elements
un_operate d n deref un_minus r = deref r >>= negate_number d
un_operate d n deref bool_not r = negate_bool r
un_operate d n deref count r = ok (int (pos (length (as_bag r))))
un_operate d n deref sum r = sum_loop d deref (no_totals d) (as_bag r) >>= λ t. ok (sum_result d t)
un_operate d n deref avg r = sum_loop d deref (no_totals d) (as_bag r) >>= λ t. ok (avg_result d t)
un_operate d n deref min r = extreme d deref minimum (as_bag r)
un_operate d n deref max r = extreme d deref maximum (as_bag r)
un_operate d n deref distinct r = ok (bag (from_list (distinct_elements (tests d n) r)))
