-- ===== src/QueryExecutor/Arithmetic.antt =====
-- src/QueryExecutor/QueryResult.cpp: plus, minus, times, divide_by and the operations on booleans. An int
-- wraps around where it overflows, which C++ leaves open.
use loxim_stats.Base.{Bool, not, ◌&&◌, ◌||◌, if◌then◌else◌}
use loxim_stats.Base.Int.{ℤ, pos, ◌+ℤ◌, ◌-ℤ◌, ◌*ℤ◌, eqb_ℤ}
use loxim_stats.QueryExecutor.Doubles.{Doubles}
use loxim_stats.QueryExecutor.Result.{
  QueryResult, int, double, boolean, Answer, ok, err, number_expected, bool_expected, div_by_0,
}

-- The operands are those of + - * /.
pub data Arithmetic : Type 0 where
  plus minus times divide : Arithmetic

module _ {D : Type 0} (d : Doubles D) where
  abbrev pub zero_double : D
  zero_double = d.of_int (pos 0)

  unfoldable pub int_plus : ℤ → QueryResult D → Answer (QueryResult D)
  int_plus v (int w) = ok (int (v +ℤ w))
  int_plus v (double y) = ok (double (d.plus (d.of_int v) y))
  int_plus v _ = err number_expected

  unfoldable pub double_plus : D → QueryResult D → Answer (QueryResult D)
  double_plus x (int w) = ok (double (d.plus x (d.of_int w)))
  double_plus x (double y) = ok (double (d.plus x y))
  double_plus x _ = err number_expected

  unfoldable pub int_minus : ℤ → QueryResult D → Answer (QueryResult D)
  int_minus v (int w) = ok (int (v -ℤ w))
  int_minus v (double y) = ok (double (d.minus (d.of_int v) y))
  int_minus v _ = err number_expected

  unfoldable pub double_minus : D → QueryResult D → Answer (QueryResult D)
  double_minus x (int w) = ok (double (d.minus x (d.of_int w)))
  double_minus x (double y) = ok (double (d.minus x y))
  double_minus x _ = err number_expected

  unfoldable pub int_times : ℤ → QueryResult D → Answer (QueryResult D)
  int_times v (int w) = ok (int (v *ℤ w))
  int_times v (double y) = ok (double (d.times (d.of_int v) y))
  int_times v _ = err number_expected

  unfoldable pub double_times : D → QueryResult D → Answer (QueryResult D)
  double_times x (int w) = ok (double (d.times x (d.of_int w)))
  double_times x (double y) = ok (double (d.times x y))
  double_times x _ = err number_expected

  -- A quotient is a double, also of two ints.
  unfoldable pub int_divide_by : ℤ → QueryResult D → Answer (QueryResult D)
  int_divide_by v (int w) =
      if eqb_ℤ w (pos 0) then err div_by_0 else ok (double (d.divide (d.of_int v) (d.of_int w)))
  int_divide_by v (double y) =
      if d.equals y zero_double then err div_by_0 else ok (double (d.divide (d.of_int v) y))
  int_divide_by v _ = err number_expected

  unfoldable pub double_divide_by : D → QueryResult D → Answer (QueryResult D)
  double_divide_by x (int w) =
      if eqb_ℤ w (pos 0) then err div_by_0 else ok (double (d.divide x (d.of_int w)))
  double_divide_by x (double y) =
      if d.equals y zero_double then err div_by_0 else ok (double (d.divide x y))
  double_divide_by x _ = err number_expected

  unfoldable pub int_operate : Arithmetic → ℤ → QueryResult D → Answer (QueryResult D)
  unfolding int_plus int_minus int_times int_divide_by
  int_operate plus = int_plus
  int_operate minus = int_minus
  int_operate times = int_times
  int_operate divide = int_divide_by

  unfoldable pub double_operate : Arithmetic → D → QueryResult D → Answer (QueryResult D)
  unfolding double_plus double_minus double_times double_divide_by
  double_operate plus = double_plus
  double_operate minus = double_minus
  double_operate times = double_times
  double_operate divide = double_divide_by

unfoldable pub bool_and : {D : Type 0} → Bool → QueryResult D → Answer (QueryResult D)
bool_and v (boolean w) = ok (boolean (v && w))
bool_and v _ = err bool_expected

unfoldable pub bool_or : {D : Type 0} → Bool → QueryResult D → Answer (QueryResult D)
bool_or v (boolean w) = ok (boolean (v || w))
bool_or v _ = err bool_expected

unfoldable pub bool_not : {D : Type 0} → Bool → QueryResult D
bool_not v = boolean (not v)
