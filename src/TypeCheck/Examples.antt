-- ===== src/TypeCheck/Examples.antt =====
-- Runs of the type check.
use loxim_stats.Base.{◌≡◌, refl, false, none, some, [], length, inl, arith}
use loxim_stats.Base.Int.{ℤ, pos}
use loxim_stats.QueryExecutor.Doubles.{whole}
use loxim_stats.QueryExecutor.Result.{
  QueryResult, int, string, boolean, bag, ok, err, number_expected, add_to_bag, is_nothing,
}
use loxim_stats.QueryExecutor.Result
use loxim_stats.QueryExecutor.Arithmetic.{plus, divide}
use loxim_stats.QueryExecutor.Compare.{tests}
use loxim_stats.QueryExecutor.Algebraic.{
  arithmetic, alg_operate, arithmetic_operate, bag_union, bag_operator, bag_intersect, comma, union,
  bag_operate,
}
use loxim_stats.TypeCheck.Signature.{
  Signature, AtomType, Attributes, atom, coll, s_int, s_double, s_string, s_var, s_struct, text,
  init_attributes, set_card, clone, cons, nil,
}
use loxim_stats.TypeCheck.Result.{new_result}
use loxim_stats.TypeCheck.Generators.{SchemeChecks, create_var, first_only, append}
use loxim_stats.TypeCheck.Decision.{get_result}
use loxim_stats.TypeCheck.Decision.Whole.{atom_of_sig, card_of_sig}
use loxim_stats.TypeCheck.Tables.{init_alg_op_rules}
use loxim_stats.TypeCheck.Unary.{UnaryChecks}
use loxim_stats.TypeCheck.Unary
use loxim_stats.TypeCheck.Unary.Tables.{as_rules}
use loxim_stats.TypeCheck.Unary.Named.{as-card}
use loxim_stats.TypeCheck.Typing.{Yields}
use loxim_stats.TypeCheck.Typing.Tables.{checked_operator}
use loxim_stats.TypeCheck.Typing.Sound.{alg_operate-typed, divide-mistyped}
use loxim_stats.TypeCheck.Variants.{create_var-variants, variants, listed}
use loxim_stats.TypeCheck.Cards.{Within}
use loxim_stats.TypeCheck.Cards.Answers.{
  Accepted, card_of, structure-card, union-Within, bag_operate-Within,
}

abbrev scheme : SchemeChecks
scheme = record {
  insert_bnd_check = λ l r res. (none, res);
  insert_ref_check = λ l r res. (none, res);
  assign_check = λ l r res. (none, res);
  compare_rec = λ l r. pos 0;
}

abbrev one : Attributes
one = init_attributes

-- A bag of any number of ints.
abbrev many : Signature
many =
    atom s_int
      (record { card = text "0..*"; type_name = []; coll_kind = text "bag"; refed = false })

-- What a structure makes of it.
abbrev one_of : Signature
one_of = atom s_int init_attributes

abbrev two_numbers : QueryResult ℤ
two_numbers = bag (Result.cons (int (pos 1)) (Result.cons (int (pos 2)) Result.nil))

alg_operate-typed_example :
    (t : AtomType) × (atom_of_sig
        (checked_operator scheme (arithmetic plus) s_int one s_string one).result_sig
      ≡ some t)
    × Yields (alg_operate whole 3 (λ r. ok r) (arithmetic plus) (int (pos 2)) (string (text "x"))) t
unfolding checked_operator
alg_operate-typed_example =
    alg_operate-typed scheme whole 3 (λ r. ok r) (arithmetic plus) s_int s_string one one (pos 2)
      (text "x") refl refl refl refl refl refl

divide-mistyped_example :
    (atom_of_sig (checked_operator scheme (arithmetic divide) s_int one s_int one).result_sig
      ≡ some s_int)
    × Yields (arithmetic_operate whole divide (int (pos 6)) (int (pos 2))) s_double
divide-mistyped_example = divide-mistyped scheme whole one one (pos 6) (pos 2)

union-Accepted : Accepted scheme (init_alg_op_rules bag_union) many many many
unfolding get_result init_alg_op_rules clone
union-Accepted = record { answers = refl; sound = refl; gives = refl }

intersect-Accepted : Accepted scheme (init_alg_op_rules (bag_operator bag_intersect)) many many many
unfolding get_result init_alg_op_rules clone
intersect-Accepted = record { answers = refl; sound = refl; gives = refl }

union-Within_example : Within (length (union two_numbers two_numbers)) (text "0..*")
unfolding add_to_bag is_nothing
union-Within_example =
    union-Within scheme many many many two_numbers two_numbers (inl refl, inl refl)
      (inl refl, inl refl) (omega arith, inl refl) (omega arith, inl refl) (refl, (refl, tt))
      union-Accepted

bag_operate-Within_example :
    Within
      (length (bag_operate (tests whole 3) bag_intersect two_numbers two_numbers))
      (text "0..*")
unfolding add_to_bag is_nothing
bag_operate-Within_example =
    bag_operate-Within (tests whole 3) scheme bag_intersect many many many two_numbers two_numbers
      (inl refl, inl refl) (inl refl, inl refl) (omega arith, inl refl) (omega arith, inl refl)
      ((refl, refl), ((refl, refl), tt)) intersect-Accepted

abbrev pair_of : Signature
pair_of =
    coll s_struct (record init_attributes { coll_kind = text "bag" })
      (cons one_of (cons one_of nil))

structure-Accepted : Accepted scheme (init_alg_op_rules comma) many many pair_of
unfolding get_result init_alg_op_rules set_card
structure-Accepted = record { answers = refl; sound = refl; gives = refl }

structure-card_example : card_of pair_of ≡ text "1..1"
structure-card_example = structure-card scheme many many pair_of (inl structure-Accepted)

abbrev choice : Signature
choice = coll s_var init_attributes (cons (atom s_double one) (cons (atom s_string one) nil))

create_var-variants_example :
    listed (create_var (atom s_int one) choice)
    ≡ append (variants (atom s_int one)) (first_only (variants choice))
unfolding clone
create_var-variants_example = create_var-variants (atom s_int one) choice refl

no_scheme : UnaryChecks
no_scheme = record {
  ref_deref_sig = λ s. none;
  deref_sig = λ s. none;
  delete_check = λ s r. (none, s, r);
  create_check = λ s r. (none, s, r);
}

as-card_example :
    card_of_sig (Unary.get_result no_scheme as_rules (text "x") 0 many new_result).final.result_sig
    ≡ some (text "1..1")
as-card_example = as-card no_scheme (text "x") many refl
