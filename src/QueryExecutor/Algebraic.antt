-- ===== src/QueryExecutor/Algebraic.antt =====
-- src/QueryExecutor/QueryExecutor.cpp, algOperate: the binary operators on two results. `deref` is
-- derefQuery, which replaces references by the values that the store holds; `n` bounds the
-- nesting of results that are compared. insert, assign and the operators on views change
-- the store and are not modelled.
pub mod Counts
pub mod Plain
pub mod Bags
pub mod Laws
pub mod Sizes
mod Examples
use loxim_stats.Base.{
  ℕ, zero, suc, ◌+◌, ◌/◌, ◌%◌, Bool, true, false, not, ◌&&◌, ◌||◌, List, [], ◌∷◌, ◌++◌, length,
  if◌then◌else◌, ◌==◌, ltb,
}
use loxim_stats.Base.Int.{ℤ, pos, negsuc}
use loxim_stats.Base.Text.{Text}
use loxim_stats.QueryExecutor.Doubles.{Doubles}
use loxim_stats.QueryExecutor.Result.{
  QueryResult, Results, reference, virtual, string, int, double, boolean, binder, structure, bag,
  sequence, nothing, from_list, type_of, Answer, ok, err, ◌>>=◌, number_expected, bool_expected,
  is_bool, get_bool_value, add_to_bag, add_to_structure,
}
use loxim_stats.QueryExecutor.Compare.{
  Tests, sort, tests, not_equal, greater_than, greater_eq, less_eq,
}
use loxim_stats.QueryExecutor.Arithmetic.{Arithmetic, int_operate, double_operate}

pub data Comparison : Type 0 where
  eq neq lt gt le ge : Comparison

pub data Connective : Type 0 where
  bool_or bool_and : Connective

pub data BagOperator : Type 0 where
  bag_intersect bag_minus : BagOperator

pub data AlgOp : Type 0 where
  arithmetic : Arithmetic → AlgOp
  comparison : Comparison → AlgOp
  connective : Connective → AlgOp
  bag_union : AlgOp
  bag_operator : BagOperator → AlgOp
  comma : AlgOp
  semicolon : AlgOp

-- A number of at most ten digits in decimal.
abbrev pub digits : ℕ → ℕ → Text
digits zero v = []
digits (suc places) v =
    let rest = digits places (v / 10) ++ (48 + v % 10) ∷ [] in
    if ltb v 10 then (48 + v) ∷ [] else rest

abbrev pub show_int : ℤ → Text
show_int (pos v) = digits 10 v
show_int (negsuc v) = 45 ∷ digits 10 (v + 1)

module _ {D : Type 0} (d : Doubles D) where
  abbrev pub as_string : QueryResult D → Text
  as_string (int v) = show_int v
  as_string (double v) = d.show v
  as_string (string v) = v
  as_string _ = []

  abbrev pub is_string : QueryResult D → Bool
  is_string r = type_of r == 3

  abbrev pub number_operate : Arithmetic → QueryResult D → QueryResult D → Answer (QueryResult D)
  number_operate op (int v) r = int_operate d op v r
  number_operate op (double v) r = double_operate d op v r
  number_operate op _ r = err number_expected

  -- With a text among the operands, each of the four operators joins texts.
  unfoldable pub arithmetic_operate :
      Arithmetic → QueryResult D → QueryResult D → Answer (QueryResult D)
  arithmetic_operate op l r =
      if is_string l || is_string r
      then ok (string (as_string l ++ as_string r))
      else number_operate op l r

abbrev pub connect : Connective → Bool → Bool → Bool
connect bool_or l r = l || r
connect bool_and l r = l && r

module _ {D : Type 0} where
  abbrev pub compare_results : Tests D → Comparison → QueryResult D → QueryResult D → Bool
  compare_results t eq l r = t.equal l r
  compare_results t neq l r = not_equal t l r
  compare_results t lt l r = t.less_than l r
  compare_results t gt l r = greater_than t l r
  compare_results t le l r = less_eq t l r
  compare_results t ge l r = greater_eq t l r

  unfoldable pub connective_operate :
      Connective → QueryResult D → QueryResult D → Answer (QueryResult D)
  unfolding is_bool get_bool_value
  connective_operate op l r =
      if is_bool l && is_bool r
      then (get_bool_value l >>= λ x. get_bool_value r >>= λ y. ok (boolean (connect op x y)))
      else err bool_expected

  -- The elements of a new bag to which the result is added.
  abbrev pub as_bag : QueryResult D → List (QueryResult D)
  as_bag r = (add_to_bag [] r).0

  abbrev pub add : List (QueryResult D) → QueryResult D → List (QueryResult D)
  add final r = (add_to_bag final r).0

  unfoldable pub union : QueryResult D → QueryResult D → List (QueryResult D)
  unfolding add_to_bag
  union l r = add (as_bag l) r

  -- The loop over two sorted bags.
  unfoldable pub merge_bags :
      Tests D
      → BagOperator
      → List (QueryResult D)
      → List (QueryResult D)
      → List (QueryResult D)
      → List (QueryResult D)
  unfolding add_to_bag
  merge_bags t op final [] rs = final
  merge_bags t bag_intersect final (l ∷ ls) [] = merge_bags t bag_intersect final ls []
  merge_bags t bag_minus final (l ∷ ls) [] = merge_bags t bag_minus (add final l) ls []
  merge_bags t bag_intersect final (l ∷ ls) (r ∷ rs) = elim (t.equal l r) [
    | true ↦ merge_bags t bag_intersect (add final l) ls rs
    | false ↦ elim (t.less_than l r) [
      | true ↦ merge_bags t bag_intersect final ls (r ∷ rs)
      | false ↦ merge_bags t bag_intersect final (l ∷ ls) rs
    ]
  ]
  merge_bags t bag_minus final (l ∷ ls) (r ∷ rs) = elim (t.equal l r) [
    | true ↦ merge_bags t bag_minus final ls rs
    | false ↦ elim (t.less_than l r) [
      | true ↦ merge_bags t bag_minus (add final l) ls (r ∷ rs)
      | false ↦ merge_bags t bag_minus final (l ∷ ls) rs
    ]
  ]

  abbrev pub either_empty : List (QueryResult D) → List (QueryResult D) → Bool
  either_empty ls rs = length ls == 0 || length rs == 0

  abbrev pub kept_of_empty : BagOperator → QueryResult D → List (QueryResult D)
  kept_of_empty bag_intersect l = []
  kept_of_empty bag_minus l = as_bag l

  unfoldable pub bag_operate :
      Tests D → BagOperator → QueryResult D → QueryResult D → List (QueryResult D)
  unfolding add_to_bag merge_bags sort
  bag_operate t op l r =
      if either_empty (as_bag l) (as_bag r)
      then kept_of_empty op l
      else merge_bags t op [] (sort t.less_than (as_bag l)) (sort t.less_than (as_bag r))

  -- A structure of two results, as comma and join build it.
  abbrev pub pair : QueryResult D → QueryResult D → QueryResult D
  pair l r = structure (from_list (add_to_structure (add_to_structure [] l).0 r).0)

  unfoldable pub pair_with :
      List (QueryResult D) → QueryResult D → List (QueryResult D) → List (QueryResult D)
  unfolding add_to_bag add_to_structure
  pair_with final l [] = final
  pair_with final l (r ∷ rs) = pair_with (add final (pair l r)) l rs

  unfoldable pub pair_all :
      List (QueryResult D) → List (QueryResult D) → List (QueryResult D) → List (QueryResult D)
  unfolding pair_with
  pair_all final [] rs = final
  pair_all final (l ∷ ls) rs = pair_all (pair_with final l rs) ls rs

unfoldable pub alg_operate :
    {D : Type 0}
    → Doubles D
    → ℕ
    → (QueryResult D → Answer (QueryResult D))
    → AlgOp
    → QueryResult D
    → QueryResult D
    → Answer (QueryResult D)
unfolding arithmetic_operate connective_operate union bag_operate pair_all
alg_operate d n deref (arithmetic op) l r =
    deref l >>= λ x. deref r >>= λ y. arithmetic_operate d op x y
alg_operate d n deref (comparison op) l r =
    deref l >>= λ x. deref r >>= λ y. ok (boolean (compare_results (tests d n) op x y))
alg_operate d n deref (connective op) l r = connective_operate op l r
alg_operate d n deref bag_union l r = ok (bag (from_list (union l r)))
alg_operate d n deref (bag_operator op) l r = ok (bag (from_list (bag_operate (tests d n) op l r)))
alg_operate d n deref comma l r = ok (bag (from_list (pair_all [] (as_bag l) (as_bag r))))
alg_operate d n deref semicolon l r = ok r
