-- ===== src/TypeCheck/Typing.antt =====
-- What the tables say of operators on atoms and what the operators do: the types of values, and the typing
-- that the evaluation has.
pub mod Tables
pub mod Values
pub mod Sound
use loxim_stats.Base.{
  ℕ, ◌≡◌, refl, ◌∙◌, Bool, true, false, ◌||◌, ◌&&◌, not, Option, none, some, if◌then◌else◌, arith,
  ◌==◌, Bool-cases, ◌⊎◌, inl, inr,
}
use loxim_stats.Base.Int.{ℤ}
use loxim_stats.Base.Text.{Text}
use loxim_stats.QueryExecutor.Doubles.{Doubles}
use loxim_stats.QueryExecutor.Result.{
  QueryResult, string, int, double, boolean, Answer, ok, err, div_by_0, number_expected,
}
use loxim_stats.QueryExecutor.Arithmetic.{
  Arithmetic, plus, minus, times, divide, int_operate, double_operate,
}
use loxim_stats.QueryExecutor.Algebraic.{
  AlgOp, arithmetic, comparison, connective, Comparison, eq, neq, lt, gt, le, ge, Connective,
  bool_or, bool_and, arithmetic_operate, connective_operate, alg_operate, bag_union, bag_operator,
  comma, semicolon,
}
use loxim_stats.TypeCheck.Signature.{
  AtomType, s_int, s_double, s_string, s_bool, atom, Attributes, atom_number, init_attributes,
}
use loxim_stats.TypeCheck.Result.{TypeCheckResult, new_result, is_error}
use loxim_stats.TypeCheck.Generators.{SchemeChecks}
use loxim_stats.TypeCheck.Rule.{base}
use loxim_stats.TypeCheck.Decision.{get_result, apply_ruleset}
use loxim_stats.TypeCheck.Decision.Kept.{Kept}
use loxim_stats.TypeCheck.Decision.Whole.{atom_of_sig, get_result-Kept, attribute_rules}
use loxim_stats.TypeCheck.Tables.{init_alg_op_rules}

-- The type of a value that is an atom.
abbrev pub type_of_value : {D : Type 0} → QueryResult D → Option AtomType
type_of_value (int v) = some s_int
type_of_value (double v) = some s_double
type_of_value (string v) = some s_string
type_of_value (boolean v) = some s_bool
type_of_value r = none

abbrev pub eqb_atom : AtomType → AtomType → Bool
eqb_atom a b = atom_number a == atom_number b

-- The typing that the operators of the evaluation have: a text among the operands makes a text.
abbrev pub joined : AtomType → AtomType → AtomType
joined s_string b = s_string
joined a s_string = s_string
joined s_int s_int = s_int
joined a b = s_double

abbrev pub result_type : AlgOp → AtomType → AtomType → AtomType
result_type (arithmetic op) a b = joined a b
result_type op a b = s_bool

-- The operators that work on atoms.
abbrev pub is_scalar : AlgOp → Bool
is_scalar (arithmetic op) = true
is_scalar (comparison op) = true
is_scalar (connective op) = true
is_scalar op = false

-- Numbers are not made of Booleans, and a quotient of ints is a double.
abbrev pub is_exception : AlgOp → AtomType → AtomType → Bool
is_exception (arithmetic divide) s_int s_int = true
is_exception (arithmetic op) s_bool s_bool = true
is_exception op a b = false

-- The operands on which the evaluation has a result.
abbrev pub accepts : AlgOp → AtomType → AtomType → Bool
accepts (arithmetic op) a b = not (eqb_atom a s_bool) && not (eqb_atom b s_bool)
accepts (connective op) a b = eqb_atom a s_bool && eqb_atom b s_bool
accepts op a b = true

-- A value of a type, or a division by zero.
abbrev pub Yields : {D : Type 0} → Answer (QueryResult D) → AtomType → Type 0
Yields (ok v) t = type_of_value v ≡ some t
Yields (err e) t = e ≡ div_by_0

-- The values of a type, as results.
abbrev pub Value : Type 0 → AtomType → Type 0
Value D s_int = ℤ
Value D s_double = D
Value D s_string = Text
Value D s_bool = Bool

abbrev pub value : {D : Type 0} → (a : AtomType) → Value D a → QueryResult D
value s_int v = int v
value s_double v = double v
value s_string v = string v
value s_bool v = boolean v
