-- ===== src/TypeCheck/Typing/Values.antt =====
-- The operators on values of the types of atoms.
use loxim_stats.Base.{ℕ, ◌≡◌, refl, Bool, true, false, if◌then◌else◌, arith}
use loxim_stats.Base.Int.{ℤ}
use loxim_stats.QueryExecutor.Doubles.{Doubles}
use loxim_stats.QueryExecutor.Result.{QueryResult, int, double, Answer, ok, err, div_by_0}
use loxim_stats.QueryExecutor.Arithmetic.{
  Arithmetic, plus, minus, times, divide, int_operate, double_operate,
}
use loxim_stats.QueryExecutor.Algebraic.{
  AlgOp, arithmetic, comparison, connective, Connective, arithmetic_operate, connective_operate,
  alg_operate, bag_union, bag_operator, comma, semicolon,
}
use loxim_stats.TypeCheck.Signature.{AtomType, s_int, s_double, s_string, s_bool}
use loxim_stats.TypeCheck.Typing.{
  joined, result_type, is_scalar, is_exception, accepts, Yields, Value, value,
}

module _ {D : Type 0} (d : Doubles D) where
  pub quotient-Yields :
      (b : Bool) (z : D) → Yields (if b then err div_by_0 else ok (double z)) s_double
  quotient-Yields true z = refl
  quotient-Yields false z = refl

  int_int-Yields :
      (op : Arithmetic) (x y : ℤ)
      → is_exception (arithmetic op) s_int s_int ≡ false
      → Yields (int_operate d op x (int y)) s_int
  unfolding int_operate
  int_int-Yields plus x y e = refl
  int_int-Yields minus x y e = refl
  int_int-Yields times x y e = refl
  int_int-Yields divide x y e = ground arith

  int_double-Yields :
      (op : Arithmetic) (x : ℤ) (y : D) → Yields (int_operate d op x (double y)) s_double
  unfolding int_operate
  int_double-Yields plus x y = refl
  int_double-Yields minus x y = refl
  int_double-Yields times x y = refl
  int_double-Yields divide x y = quotient-Yields _ _

  double_int-Yields :
      (op : Arithmetic) (x : D) (y : ℤ) → Yields (double_operate d op x (int y)) s_double
  unfolding double_operate
  double_int-Yields plus x y = refl
  double_int-Yields minus x y = refl
  double_int-Yields times x y = refl
  double_int-Yields divide x y = quotient-Yields _ _

  double_double-Yields :
      (op : Arithmetic) (x y : D) → Yields (double_operate d op x (double y)) s_double
  unfolding double_operate
  double_double-Yields plus x y = refl
  double_double-Yields minus x y = refl
  double_double-Yields times x y = refl
  double_double-Yields divide x y = quotient-Yields _ _

  arithmetic-Yields :
      (op : Arithmetic) (a b : AtomType) (v : Value D a) (w : Value D b)
      → accepts (arithmetic op) a b ≡ true
      → is_exception (arithmetic op) a b ≡ false
      → Yields (arithmetic_operate d op (value a v) (value b w)) (joined a b)
  unfolding arithmetic_operate
  arithmetic-Yields op s_bool b v w c e = ground arith
  arithmetic-Yields op s_int s_bool v w c e = ground arith
  arithmetic-Yields op s_double s_bool v w c e = ground arith
  arithmetic-Yields op s_string s_bool v w c e = ground arith
  arithmetic-Yields op s_string s_int v w c e = refl
  arithmetic-Yields op s_string s_double v w c e = refl
  arithmetic-Yields op s_string s_string v w c e = refl
  arithmetic-Yields op s_int s_string v w c e = refl
  arithmetic-Yields op s_double s_string v w c e = refl
  arithmetic-Yields op s_int s_int v w c e = int_int-Yields op v w e
  arithmetic-Yields op s_int s_double v w c e = int_double-Yields op v w
  arithmetic-Yields op s_double s_int v w c e = double_int-Yields op v w
  arithmetic-Yields op s_double s_double v w c e = double_double-Yields op v w

  connective-Yields :
      (op : Connective) (a b : AtomType) (v : Value D a) (w : Value D b)
      → accepts (connective op) a b ≡ true
      → Yields (connective_operate op (value a v) (value b w)) s_bool
  unfolding connective_operate
  connective-Yields op s_bool s_bool v w c = refl
  connective-Yields op a b v w c = ground arith

  pub alg_operate-Yields :
      (n : ℕ) (deref : QueryResult D → Answer (QueryResult D)) (op : AlgOp) (a b : AtomType)
      (v : Value D a) (w : Value D b)
      → deref (value a v) ≡ ok (value a v)
      → deref (value b w) ≡ ok (value b w)
      → is_scalar op ≡ true
      → accepts op a b ≡ true
      → is_exception op a b ≡ false
      → Yields (alg_operate d n deref op (value a v) (value b w)) (result_type op a b)
  unfolding alg_operate
  alg_operate-Yields n deref (arithmetic op) a b v w h k s c e =
      rw (h, k) (arithmetic-Yields op a b v w c e)
  alg_operate-Yields n deref (comparison op) a b v w h k s c e = rw (h, k) refl
  alg_operate-Yields n deref (connective op) a b v w h k s c e = connective-Yields op a b v w c
  alg_operate-Yields n deref bag_union a b v w h k s c e = ground arith
  alg_operate-Yields n deref (bag_operator op) a b v w h k s c e = ground arith
  alg_operate-Yields n deref comma a b v w h k s c e = ground arith
  alg_operate-Yields n deref semicolon a b v w h k s c e = ground arith
