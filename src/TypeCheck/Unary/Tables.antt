-- ===== src/TypeCheck/Unary/Tables.antt =====
-- src/TypeCheck/DecisionTable.cpp, initUnOpRules: the tables of the unary operators.
use Prim.Native.String.{String}
use loxim_stats.Base.{true, false, none, some, List, [], ◌∷◌}
use loxim_stats.Base.Text.{Text}
use loxim_stats.QueryExecutor.Unary.{UnOp, un_minus, bool_not, count, sum, avg, min, max, distinct}
use loxim_stats.TypeCheck.Signature.{text}
use loxim_stats.TypeCheck.Result.{CoerceAction, bs_to_dbl, bs_to_bool, card_to_11, cd_can_del}
use loxim_stats.TypeCheck.Rule.{
  RuleType, base, card, typename, collkind, SpecialArg, m_match, meta, m_else, m_0,
}
use loxim_stats.TypeCheck.Unary.{
  UnOpRule, UnOpDecisionTable, UnaryGenerator, no_generator, arg_copy, bs_nameas, cd_nameas,
  ck_nameas, bs_ref_deref, bs_deref, bs_copy_ref, bs_delete, bs_create,
}

abbrev pub rule_of : RuleType → SpecialArg → Text → Text → UnaryGenerator → UnOpRule
rule_of t spec arg res g = record {
  rule_type = t;
  special_arg = spec;
  arg = arg;
  result = res;
  generator = g;
  action = none;
  dyn_ctrl = false;
}

abbrev pub simple : RuleType → SpecialArg → String → String → UnOpRule
simple t spec arg res = rule_of t spec (text arg) (text res) no_generator

abbrev pub generated : RuleType → SpecialArg → String → UnaryGenerator → UnOpRule
generated t spec arg g = rule_of t spec (text arg) [] g

-- A rule whose conversion is checked during the evaluation.
abbrev pub converting : UnOpRule → CoerceAction → UnOpRule
converting rule act = record rule { action = some act; dyn_ctrl = true }

abbrev pub keeps : String → UnOpRule
keeps t = simple base m_match t t

abbrev pub else_error : RuleType → UnOpRule
else_error t = simple t m_else "" "ERROR"

abbrev pub no_name : List UnOpRule
no_name = rule_of typename meta m_0 [] no_generator ∷ else_error typename ∷ []

abbrev pub one_card : List UnOpRule
one_card = simple card meta "" "1..1" ∷ []

abbrev pub checked_card : List UnOpRule
checked_card =
    simple card m_match "1..1" "1..1" ∷ converting (simple card meta "" "1..1") card_to_11 ∷ []

abbrev pub copied : RuleType → List UnOpRule
copied t = generated t meta "x" arg_copy ∷ []

abbrev pub table_of :
    List UnOpRule → List UnOpRule → List UnOpRule → List UnOpRule → UnOpDecisionTable
table_of tc cd tn ck = record {
  rules = tc;
  card_rules = cd;
  type_name_rules = tn;
  coll_kind_rules = ck;
}

abbrev pub sum_rules : UnOpDecisionTable
sum_rules =
    table_of (keeps "integer" ∷ keeps "double" ∷ keeps "string" ∷ else_error base ∷ []) one_card
      no_name []

abbrev pub extreme_rules : UnOpDecisionTable
extreme_rules =
    table_of
      (keeps "integer" ∷ keeps "double" ∷ keeps "string" ∷ keeps "boolean" ∷ else_error base ∷ [])
      one_card no_name []

abbrev pub no_variant : UnOpRule
no_variant = simple base m_match "variant" "ERROR"

abbrev pub to_boolean : String → UnOpRule
to_boolean t = converting (simple base m_match t "boolean") bs_to_bool

-- initUnOpRules for the operators that unOperate evaluates.
unfoldable pub init_un_op_rules : UnOp → UnOpDecisionTable
init_un_op_rules count =
    table_of (simple base meta "x" "integer" ∷ []) (simple card meta "x" "1..1" ∷ []) [] []
init_un_op_rules sum = sum_rules
init_un_op_rules avg = sum_rules
init_un_op_rules min = extreme_rules
init_un_op_rules max = extreme_rules
init_un_op_rules distinct =
    table_of (no_variant ∷ generated base meta "" bs_copy_ref ∷ []) (copied card) (copied typename)
      (rule_of collkind meta m_0 [] no_generator ∷ [])
init_un_op_rules un_minus =
    table_of
      (keeps "integer"
        ∷ keeps "double"
        ∷ converting (simple base m_match "string" "double") bs_to_dbl
        ∷ else_error base
        ∷ [])
      checked_card no_name []
init_un_op_rules bool_not =
    table_of
      (keeps "boolean"
        ∷ to_boolean "integer"
        ∷ to_boolean "double"
        ∷ to_boolean "string"
        ∷ else_error base
        ∷ [])
      checked_card no_name []

-- The tables of deref, ref, delete, as and create.
abbrev pub deref_rules : UnOpDecisionTable
deref_rules =
    table_of
      (generated base m_match "ref" bs_ref_deref
        ∷ keeps "string"
        ∷ keeps "integer"
        ∷ keeps "double"
        ∷ keeps "boolean"
        ∷ generated base m_else "" bs_deref
        ∷ [])
      (copied card) [] (copied collkind)

abbrev pub ref_rules : UnOpDecisionTable
ref_rules =
    table_of (no_variant ∷ generated base meta "" bs_copy_ref ∷ []) (copied card) (copied typename)
      (copied collkind)

abbrev pub delete_rules : UnOpDecisionTable
delete_rules =
    table_of (generated base m_match "ref" bs_delete ∷ else_error base ∷ [])
      (simple card m_match "1..1" "ERROR"
        ∷ converting (simple card m_match "1..*" "1..1") cd_can_del
        ∷ simple card m_else "" "1..1"
        ∷ [])
      [] []

abbrev pub as_rules : UnOpDecisionTable
as_rules =
    table_of (no_variant ∷ generated base meta "Base" bs_nameas ∷ [])
      (generated card meta "CD" cd_nameas ∷ []) (simple typename meta "TN" "" ∷ [])
      (generated collkind meta "CK" ck_nameas ∷ [])

abbrev pub create_rules : UnOpDecisionTable
create_rules =
    table_of (generated base m_match "binder" bs_create ∷ else_error base ∷ []) (copied card) []
      (copied collkind)
