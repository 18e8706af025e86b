-- ===== src/TypeCheck/Typing/Sound.antt =====
-- What a type check says of an operator on atoms holds of its evaluation, but for two kinds of operands.
use loxim_stats.Base.{ℕ, ◌≡◌, refl, true, false, some}
use loxim_stats.Base.Int.{ℤ}
use loxim_stats.QueryExecutor.Doubles.{Doubles}
use loxim_stats.QueryExecutor.Result.{QueryResult, int, Answer, ok}
use loxim_stats.QueryExecutor.Arithmetic.{divide, int_operate}
use loxim_stats.QueryExecutor.Algebraic.{AlgOp, arithmetic, arithmetic_operate, alg_operate}
use loxim_stats.TypeCheck.Signature.{AtomType, s_int, s_double, Attributes}
use loxim_stats.TypeCheck.Result.{is_error}
use loxim_stats.TypeCheck.Generators.{SchemeChecks}
use loxim_stats.TypeCheck.Decision.Whole.{atom_of_sig}
use loxim_stats.TypeCheck.Typing.{result_type, is_scalar, is_exception, Yields, Value, value}
use loxim_stats.TypeCheck.Typing.Tables.{
  checked_operator, checked_operator-type, checked_atom, base_result,
}
use loxim_stats.TypeCheck.Typing.Values.{alg_operate-Yields, quotient-Yields}

-- Where the type check of an operator on atoms makes no error and leaves no check to the evaluation,
-- where the operator is not the division of ints or an arithmetic operator on Booleans, and where
-- derefQuery leaves the two values as they are, the evaluation answers a value of the type that was
-- computed, or that a division by zero was asked for.
pub alg_operate-typed :
    (k : SchemeChecks) {D : Type 0} (d : Doubles D) (n : ℕ)
    (deref : QueryResult D → Answer (QueryResult D)) (op : AlgOp) (a b : AtomType)
    (l r : Attributes) (v : Value D a) (w : Value D b)
    → deref (value a v) ≡ ok (value a v)
    → deref (value b w) ≡ ok (value b w)
    → is_scalar op ≡ true
    → is_exception op a b ≡ false
    → is_error (checked_operator k op a l b r) ≡ false
    → (checked_operator k op a l b r).dyn_ctrl ≡ false
    → (t : AtomType) × (atom_of_sig (checked_operator k op a l b r).result_sig ≡ some t)
      × Yields (alg_operate d n deref op (value a v) (value b w)) t
alg_operate-typed k d n deref op a b l r v w dv dw s e sound certain =
    let c = checked_operator-type k op a b l r s e sound certain in
    (result_type op a b, c.1, alg_operate-Yields d n deref op a b v w dv dw s c.0 e)

-- The quotient of two ints is typed as an int, and its evaluation answers a double or that a division by
-- zero was asked for.
pub divide-mistyped :
    (k : SchemeChecks) {D : Type 0} (d : Doubles D) (l r : Attributes) (x y : ℤ)
    → (atom_of_sig (checked_operator k (arithmetic divide) s_int l s_int r).result_sig ≡ some s_int)
      × Yields (arithmetic_operate d divide (int x) (int y)) s_double
unfolding arithmetic_operate int_operate base_result
divide-mistyped k d l r x y =
    (checked_atom k (arithmetic divide) s_int s_int l r refl, quotient-Yields d _ _)
