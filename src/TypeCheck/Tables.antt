-- ===== src/TypeCheck/Tables.antt =====
-- src/TypeCheck/DecisionTable.cpp: the tables of the binary operators.
use Prim.Native.String.{String}
use loxim_stats.Base.{Bool, true, false, none, some, List, [], ◌∷◌, ◌++◌, if◌then◌else◌}
use loxim_stats.Base.Text.{Text, eqb_text}
use loxim_stats.QueryExecutor.Arithmetic.{Arithmetic, plus, minus}
use loxim_stats.QueryExecutor.Algebraic.{
  AlgOp, arithmetic, comparison, connective, bag_union, bag_operator, comma, semicolon, Comparison,
  eq, neq, bag_intersect, bag_minus,
}
use loxim_stats.QueryExecutor.NonAlgebraic.{
  NonAlgOp, dot, join, where_op, order_by, exists, for_all, for_each, other,
}
use loxim_stats.TypeCheck.Signature.{text}
use loxim_stats.TypeCheck.Result.{
  CoerceAction, CoerceArg, CoerceKind, card_to_11, bs_to_str, bs_to_int, bs_to_dbl, both, left,
  right, static, dynamic,
}
use loxim_stats.TypeCheck.Generators.{
  cd_addbands, cd_multbands, arg_copy_l, arg_copy_r, cd_copy_l_zr, cd_intst, bs_copy_l, bs_copy_r,
  bs_struct, bs_to_var, bs_ins_bnd, bs_ins_ref, bs_assign,
}
use loxim_stats.TypeCheck.Rule.{
  TcRule, RuleType, base, card, typename, collkind, SpecialArg, m_match, m_eq, m_l, m_r, m_b,
  m_else, m_ex, Generator, no_generator, sig_gen, attr_gen, m_0, tc_error,
}
use loxim_stats.TypeCheck.Decision.{DecisionTable}

abbrev pub is_dynamic : CoerceKind → Bool
is_dynamic static = false
is_dynamic dynamic = true

-- A rule with a given result.
abbrev pub tc_rule : RuleType → SpecialArg → Text → Text → Text → TcRule
tc_rule t spec l r res = record {
  rule_type = t;
  special_arg = spec;
  left_arg = l;
  right_arg = r;
  result = if eqb_text res m_0 then [] else res;
  generator = no_generator;
  action = none;
  dyn_ctrl = false;
}

-- One that also asks for a conversion.
abbrev pub coercing : TcRule → CoerceAction → CoerceArg → CoerceKind → TcRule
coercing rule act arg kind = record rule { action = some (act, arg); dyn_ctrl = is_dynamic kind }

abbrev pub generating : RuleType → SpecialArg → Text → Text → Generator → TcRule
generating t spec l r g = record {
  rule_type = t;
  special_arg = spec;
  left_arg = l;
  right_arg = r;
  result = [];
  generator = g;
  action = none;
  dyn_ctrl = false;
}

abbrev pub exactly : String → String → String → TcRule
exactly l r res = tc_rule base m_match (text l) (text r) (text res)

abbrev pub else_error : RuleType → TcRule
else_error t = tc_rule t m_else [] [] tc_error

abbrev pub x : Text
x = text "X"

abbrev pub y : Text
y = text "Y"

-- One result of two arguments that are single, with a check during the evaluation where they are not.
abbrev pub single_cards : List TcRule
single_cards =
    tc_rule card m_match (text "1..1") (text "1..1") (text "1..1")
    ∷ coercing (tc_rule card m_l [] (text "1..1") (text "1..1")) card_to_11 left dynamic
    ∷ coercing (tc_rule card m_r (text "1..1") [] (text "1..1")) card_to_11 right dynamic
    ∷ coercing (tc_rule card m_b [] [] (text "1..1")) card_to_11 both dynamic
    ∷ []

abbrev pub no_names : List TcRule
no_names = tc_rule typename m_b m_0 m_0 [] ∷ else_error typename ∷ []

-- The names of both types are empty, or the same.
abbrev pub same_names : List TcRule
same_names =
    tc_rule typename m_b m_0 m_0 [] ∷ tc_rule typename m_eq x x [] ∷ else_error typename ∷ []

abbrev pub kinds_of : String → List TcRule
kinds_of k =
    tc_rule collkind m_l m_0 (text k) (text k)
    ∷ tc_rule collkind m_r (text k) m_0 (text k)
    ∷ tc_rule collkind m_match (text k) (text k) (text k)
    ∷ []

abbrev pub bag_kinds : List TcRule
bag_kinds = (tc_rule collkind m_b m_0 m_0 (text "bag") ∷ kinds_of "bag") ++ else_error collkind ∷ []

abbrev pub arithmetic_base : Arithmetic → List TcRule
arithmetic_base plus =
    exactly "integer" "integer" "integer"
    ∷ exactly "double" "double" "double"
    ∷ exactly "string" "string" "string"
    ∷ exactly "boolean" "boolean" "boolean"
    ∷ exactly "integer" "double" "double"
    ∷ exactly "double" "integer" "double"
    ∷ coercing (exactly "integer" "string" "string") bs_to_str left static
    ∷ coercing (exactly "string" "integer" "string") bs_to_str right static
    ∷ coercing (exactly "double" "string" "string") bs_to_str left static
    ∷ coercing (exactly "string" "double" "string") bs_to_str right static
    ∷ else_error base
    ∷ []
arithmetic_base minus =
    exactly "integer" "integer" "integer"
    ∷ exactly "double" "double" "double"
    ∷ exactly "integer" "double" "double"
    ∷ coercing (exactly "string" "integer" "integer") bs_to_int left dynamic
    ∷ coercing (exactly "integer" "string" "integer") bs_to_int right dynamic
    ∷ coercing (exactly "string" "double" "double") bs_to_dbl left dynamic
    ∷ coercing (exactly "double" "string" "double") bs_to_dbl right dynamic
    ∷ else_error base
    ∷ []
arithmetic_base op =
    exactly "integer" "integer" "integer"
    ∷ exactly "double" "double" "double"
    ∷ exactly "integer" "double" "double"
    ∷ exactly "double" "integer" "double"
    ∷ exactly "boolean" "boolean" "boolean"
    ∷ coercing (exactly "string" "double" "double") bs_to_dbl left dynamic
    ∷ coercing (exactly "double" "string" "double") bs_to_dbl right dynamic
    ∷ else_error base
    ∷ []

abbrev pub equality_base : List TcRule
equality_base =
    exactly "double" "double" "ERROR"
    ∷ tc_rule base m_ex (text "variant") [] tc_error
    ∷ coercing (exactly "string" "integer" "boolean") bs_to_str right static
    ∷ coercing (exactly "integer" "string" "boolean") bs_to_str left static
    ∷ coercing (exactly "string" "double" "boolean") bs_to_str right static
    ∷ coercing (exactly "double" "string" "boolean") bs_to_str left static
    ∷ tc_rule base m_eq x x (text "boolean")
    ∷ else_error base
    ∷ []

abbrev pub order_base : List TcRule
order_base =
    exactly "integer" "integer" "boolean"
    ∷ exactly "string" "string" "boolean"
    ∷ exactly "double" "double" "boolean"
    ∷ coercing (exactly "string" "integer" "boolean") bs_to_int left dynamic
    ∷ coercing (exactly "integer" "string" "boolean") bs_to_int right dynamic
    ∷ coercing (exactly "string" "double" "boolean") bs_to_dbl left dynamic
    ∷ coercing (exactly "double" "string" "boolean") bs_to_dbl right dynamic
    ∷ else_error base
    ∷ []

abbrev pub equality_names : List TcRule
equality_names =
    tc_rule typename m_b m_0 m_0 [] ∷ tc_rule typename m_eq [] [] [] ∷ else_error typename ∷ []

abbrev pub table_of : List TcRule → List TcRule → List TcRule → List TcRule → DecisionTable
table_of tc cd tn ck = record {
  rules = tc;
  card_rules = cd;
  type_name_rules = tn;
  coll_kind_rules = ck;
}

abbrev pub comparison_table : Comparison → DecisionTable
comparison_table eq = table_of equality_base single_cards equality_names []
comparison_table neq = table_of equality_base single_cards equality_names []
comparison_table op = table_of order_base single_cards no_names []

abbrev pub no_variant : TcRule
no_variant = tc_rule base m_ex (text "variant") [] tc_error

abbrev pub multiplied : List TcRule
multiplied = generating card m_b x y (attr_gen cd_multbands) ∷ []

abbrev pub unnamed : List TcRule
unnamed = tc_rule typename m_b x y [] ∷ []

abbrev pub structures : List TcRule
structures = no_variant ∷ generating base m_b x y (sig_gen bs_struct) ∷ []

-- The table of intersection and of difference, which differ in the cardinality.
abbrev pub bag_table : TcRule → DecisionTable
bag_table cd =
    table_of (generating base m_b x x (sig_gen bs_copy_l) ∷ else_error base ∷ []) (cd ∷ [])
      same_names bag_kinds

-- initAlgOpRules.
unfoldable pub init_alg_op_rules : AlgOp → DecisionTable
init_alg_op_rules (bag_operator bag_intersect) =
    bag_table (generating card m_b x y (attr_gen cd_intst))
init_alg_op_rules (bag_operator bag_minus) =
    bag_table (generating card m_b x y (attr_gen cd_copy_l_zr))
init_alg_op_rules bag_union =
    table_of
      (generating base m_eq x x (sig_gen bs_copy_l)
        ∷ generating base m_else x y (sig_gen bs_to_var)
        ∷ [])
      (generating card m_b x y (attr_gen cd_addbands) ∷ []) same_names bag_kinds
init_alg_op_rules (arithmetic op) = table_of (arithmetic_base op) single_cards no_names []
init_alg_op_rules (comparison op) = comparison_table op
init_alg_op_rules (connective op) =
    table_of (exactly "boolean" "boolean" "boolean" ∷ else_error base ∷ []) single_cards [] []
init_alg_op_rules comma = table_of structures multiplied unnamed bag_kinds
init_alg_op_rules semicolon =
    table_of (generating base m_b x y (sig_gen bs_copy_r) ∷ [])
      (generating card m_b x y (attr_gen arg_copy_r) ∷ [])
      (generating typename m_b x y (attr_gen arg_copy_r) ∷ [])
      (generating collkind m_b x y (attr_gen arg_copy_r) ∷ [])

-- The tables for insert, := and ==, which are not among the operators that are evaluated here.
abbrev pub insert_rules : DecisionTable
insert_rules =
    table_of
      (generating base m_match (text "ref") (text "binder") (sig_gen bs_ins_bnd)
        ∷ generating base m_match (text "ref") (text "ref") (sig_gen bs_ins_ref)
        ∷ else_error base
        ∷ [])
      (tc_rule card m_r (text "1..1") (text "x..y") (text "1..1")
        ∷ coercing (tc_rule card m_else [] [] (text "1..1")) card_to_11 left dynamic
        ∷ [])
      [] []

abbrev pub assign_rules : DecisionTable
assign_rules =
    table_of
      (generating base m_r (text "ref") (text "match") (sig_gen bs_assign) ∷ else_error base ∷ [])
      single_cards [] []

abbrev pub refeq_rules : DecisionTable
refeq_rules =
    table_of (exactly "ref" "ref" "boolean" ∷ else_error base ∷ []) single_cards equality_names []

abbrev pub copied_left : RuleType → TcRule
copied_left t = generating t m_b x y (attr_gen arg_copy_l)

-- closeBy, closeUniqueBy, leavesBy and leavesUniqueBy.
abbrev pub closure_rules : DecisionTable
closure_rules =
    table_of (no_variant ∷ generating base m_b x y (sig_gen bs_copy_l) ∷ [])
      (generating card m_b x y (attr_gen cd_addbands) ∷ []) same_names bag_kinds

abbrev pub quantifier_rules : DecisionTable
quantifier_rules =
    table_of
      (no_variant ∷ tc_rule base m_l x (text "boolean") (text "boolean") ∷ else_error base ∷ [])
      (tc_rule card m_l (text "X..Y") (text "1..1") (text "1..1")
        ∷ coercing (tc_rule card m_else (text "X..Y") (text "a..b") (text "1..1")) card_to_11 right
            dynamic
        ∷ [])
      [] []

-- initNonAlgOpRules.
unfoldable pub init_non_alg_op_rules : NonAlgOp → DecisionTable
init_non_alg_op_rules dot =
    table_of (no_variant ∷ generating base m_b x y (sig_gen bs_copy_r) ∷ []) multiplied
      (generating typename m_b x y (attr_gen arg_copy_r) ∷ [])
      ((tc_rule collkind m_b m_0 m_0 (text "bag") ∷ kinds_of "bag")
        ++ kinds_of "list"
        ++ else_error collkind ∷ [])
init_non_alg_op_rules join = table_of structures multiplied unnamed bag_kinds
init_non_alg_op_rules where_op =
    table_of
      (no_variant
        ∷ generating base m_l x (text "boolean") (sig_gen bs_copy_l)
        ∷ else_error base
        ∷ [])
      (generating card m_l (text "X..Y") (text "1..1") (attr_gen cd_copy_l_zr)
        ∷ coercing (generating card m_else (text "X..Y") (text "a..b") (attr_gen cd_copy_l_zr))
            card_to_11 right dynamic
        ∷ [])
      (copied_left typename ∷ []) (copied_left collkind ∷ [])
init_non_alg_op_rules order_by =
    table_of (no_variant ∷ generating base m_b x y (sig_gen bs_copy_l) ∷ []) (copied_left card ∷ [])
      (generating typename m_b x m_0 (attr_gen arg_copy_l) ∷ else_error typename ∷ []) []
init_non_alg_op_rules exists = quantifier_rules
init_non_alg_op_rules for_all = quantifier_rules
init_non_alg_op_rules for_each =
    table_of (no_variant ∷ tc_rule base m_b x y (text "void") ∷ []) (copied_left card ∷ []) unnamed
      (generating collkind m_b [] [] (attr_gen arg_copy_l) ∷ [])
init_non_alg_op_rules other = closure_rules
