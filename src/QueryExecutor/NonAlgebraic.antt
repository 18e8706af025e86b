-- ===== src/QueryExecutor/NonAlgebraic.antt =====
-- src/QueryExecutor: the operators that evaluate their right argument once for each row of the left one.
-- combine of QueryExecutor.cpp adds a row to the partial result, merge of CommonOperations.cpp
-- makes the final one of it, and executeRecQuery runs the loop. `right` evaluates the right
-- argument for a row and its position, with the environments that the row opens.
pub mod Quantifiers
pub mod Rows
mod Examples
use loxim_stats.Base.{
  ℕ, suc, ◌+◌, Bool, true, false, not, ◌&&◌, ◌||◌, List, [], ◌∷◌, length, if◌then◌else◌, ltb,
}
use loxim_stats.QueryExecutor.Doubles.{Doubles}
use loxim_stats.QueryExecutor.Result.{
  QueryResult, Results, reference, virtual, string, int, double, boolean, binder, structure, bag,
  sequence, nothing, nil, cons, to_list, from_list, elements, Answer, ok, err, ◌>>=◌, bool_expected,
  other_result_expected, unknown_node, is_bool, get_bool_value, add_to_sequence, add_to_structure,
  at,
}
use loxim_stats.QueryExecutor.Compare.{Tests, sort, tests, less_elements}
use loxim_stats.QueryExecutor.Algebraic.{add, as_bag, pair_all}

-- `other` stands for the operators that combine and merge refuse; executeRecQuery treats them elsewhere.
pub data NonAlgOp : Type 0 where
  dot join where_op order_by exists for_all for_each other : NonAlgOp

module _ {D : Type 0} where
  unfoldable pub add_bool : List (QueryResult D) → QueryResult D → Answer (List (QueryResult D))
  unfolding is_bool get_bool_value
  add_bool partial r =
      if is_bool r
      then (get_bool_value r >>= λ b. ok (add partial (boolean b)))
      else err bool_expected

  unfoldable pub select :
      List (QueryResult D) → QueryResult D → QueryResult D → Answer (List (QueryResult D))
  unfolding is_bool get_bool_value
  select partial curr r =
      if is_bool r
      then (get_bool_value r >>= λ b. ok (if b then add partial curr else partial))
      else err bool_expected

  -- The partial result, a bag, with a row and the value of the right argument for it.
  unfoldable pub combine :
      (QueryResult D → Answer (QueryResult D))
      → NonAlgOp
      → QueryResult D
      → QueryResult D
      → List (QueryResult D)
      → Answer (List (QueryResult D))
  unfolding add_bool select pair_all
  combine deref dot curr r partial = ok (add partial r)
  combine deref join curr r partial = ok (pair_all partial (as_bag curr) (as_bag r))
  combine deref where_op curr r partial = select partial curr r
  combine deref order_by curr r partial =
      deref r >>= λ x. ok (add partial (structure (cons curr (cons x nil))))
  combine deref exists curr r partial = add_bool partial r
  combine deref for_all curr r partial = add_bool partial r
  combine deref for_each curr r partial = ok partial
  combine deref other curr r partial = err unknown_node

  abbrev pub order_keys : QueryResult D → List (QueryResult D)
  order_keys x = (add_to_structure [] x).0

  abbrev pub compare_keys : Tests D → List (QueryResult D) → List (QueryResult D) → Bool
  compare_keys t ls rs =
      if ltb (length ls) (length rs)
      then true
      else if ltb (length rs) (length ls)
      then false
      else less_elements t ls rs

  abbrev pub sorting_keys : Tests D → Answer (QueryResult D) → Answer (QueryResult D) → Bool
  sorting_keys t (ok x) (ok y) = compare_keys t (order_keys x) (order_keys y)
  sorting_keys t (ok x) (err e) = false
  sorting_keys t (err e) y = false

  -- Rows of an order by are compared by their second element.
  unfoldable pub sorting_strict_less : Tests D → QueryResult D → QueryResult D → Bool
  unfolding add_to_structure less_elements at
  sorting_strict_less t a b = sorting_keys t (at (elements a) 1) (at (elements b) 1)

  -- The first elements of the rows.
  unfoldable pub post_sort :
      List (QueryResult D) → List (QueryResult D) → Answer (List (QueryResult D))
  unfolding add_to_sequence at
  post_sort f [] = ok f
  post_sort f (r ∷ rs) = at (elements r) 0 >>= λ x. post_sort (add_to_sequence f x).0 rs

  abbrev pub as_sequence : List (QueryResult D) → QueryResult D
  as_sequence rs = sequence (from_list rs)

  -- The loops of exists and of forAll over the partial result.
  unfoldable pub exists_loop : Bool → List (QueryResult D) → Answer Bool
  unfolding is_bool get_bool_value
  exists_loop found [] = ok found
  exists_loop found (r ∷ rs) =
      let rest = (get_bool_value r >>= λ b. exists_loop (if b then true else found) rs) in
      if is_bool r then rest else err bool_expected

  unfoldable pub for_all_loop : Bool → List (QueryResult D) → Answer Bool
  unfolding is_bool get_bool_value
  for_all_loop holds [] = ok holds
  for_all_loop holds (r ∷ rs) =
      let rest = (get_bool_value r >>= λ b. for_all_loop (if not b then false else holds) rs) in
      if is_bool r then rest else err bool_expected

  -- The final result; exists and forAll add theirs to the empty bag that they are given.
  unfoldable pub merge : Tests D → NonAlgOp → List (QueryResult D) → Answer (QueryResult D)
  unfolding sorting_strict_less post_sort exists_loop for_all_loop sort
  merge t dot partial = ok (bag (from_list partial))
  merge t join partial = ok (bag (from_list partial))
  merge t where_op partial = ok (bag (from_list partial))
  merge t order_by partial =
      post_sort [] (sort (sorting_strict_less t) partial) >>= λ rs. ok (as_sequence rs)
  merge t exists partial =
      exists_loop false partial >>= λ b. ok (bag (from_list (add [] (boolean b))))
  merge t for_all partial =
      for_all_loop true partial >>= λ b. ok (bag (from_list (add [] (boolean b))))
  merge t for_each partial = ok (bag (from_list partial))
  merge t other partial = err unknown_node

  -- The loop over the rows, from position `i` on.
  unfoldable pub row_loop :
      (QueryResult D → Answer (QueryResult D))
      → (ℕ → QueryResult D → Answer (QueryResult D))
      → NonAlgOp
      → ℕ
      → List (QueryResult D)
      → List (QueryResult D)
      → Answer (List (QueryResult D))
  unfolding combine
  row_loop deref right op i partial [] = ok partial
  row_loop deref right op i partial (row ∷ rows) = right i row >>= λ r.
      combine deref op row r partial >>= λ next. row_loop deref right op (suc i) next rows

  abbrev pub rows_of : QueryResult D → Answer (List (QueryResult D))
  rows_of (bag rs) = ok (to_list rs)
  rows_of (sequence rs) = ok (to_list rs)
  rows_of _ = err other_result_expected

  -- isIncluded of CommonOperations.cpp.
  unfoldable pub included_loop : Tests D → QueryResult D → Bool → List (QueryResult D) → Bool
  included_loop t elem found [] = found
  included_loop t elem found (r ∷ rs) =
      included_loop t elem (if t.equal elem r then true else found) rs

  unfoldable pub is_included : Tests D → QueryResult D → QueryResult D → Answer Bool
  unfolding included_loop
  is_included t elem (bag rs) = ok (included_loop t elem false (to_list rs))
  is_included t elem _ = err other_result_expected

unfoldable pub non_alg_operate :
    {D : Type 0}
    → Doubles D
    → ℕ
    → (QueryResult D → Answer (QueryResult D))
    → (ℕ → QueryResult D → Answer (QueryResult D))
    → NonAlgOp
    → QueryResult D
    → Answer (QueryResult D)
unfolding row_loop merge
non_alg_operate d n deref right op l = rows_of l >>= λ rows.
    row_loop deref right op 0 [] rows >>= λ partial. merge (tests d n) op partial
