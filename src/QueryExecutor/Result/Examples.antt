-- ===== src/QueryExecutor/Result/Examples.antt =====
-- A Boolean inside a binder inside a bag, and a bag with nothing in it.
use loxim_stats.Base.{◌≡◌, refl, true, false, [], ◌∷◌}
use loxim_stats.Base.Int.{ℤ, pos}
use loxim_stats.QueryExecutor.Result.{
  QueryResult, int, boolean, binder, bag, nothing, nil, cons, ref_expected, get_bool_value,
  get_reference_value, add_to_sequence, add_to_bag,
}
use loxim_stats.QueryExecutor.Result.Access.{code}

abbrev deep : QueryResult ℤ
deep = bag (cons (binder (98 ∷ []) (boolean true)) nil)

abbrev two : QueryResult ℤ
two = bag (cons (int (pos 2)) (cons (boolean false) nil))

-- The Boolean is found, and there is no reference.
deep_codes : (code (get_bool_value deep) ≡ 0) × (code (get_reference_value deep) ≡ ref_expected)
unfolding get_bool_value get_reference_value
deep_codes = (refl, refl)

-- A sequence does not take nothing, while an empty bag takes the vector that holds it.
takes_nothing :
    ((add_to_sequence {D = ℤ} [] (bag (cons nothing nil))).0 ≡ [])
    × ((add_to_bag {D = ℤ} [] (bag (cons nothing nil))).0 ≡ nothing ∷ [])
unfolding add_to_sequence add_to_bag
takes_nothing = (refl, refl)
