-- ===== src/TypeCheck/Unary.antt =====
-- src/TypeCheck/DecisionTable.cpp and Rule.cpp: rules and tables for one argument. `name` and
-- `grouped` are the arguments of `as` and `groupas`. What the data scheme says is an argument.
pub mod Tables
pub mod Named
use loxim_stats.Base.{
  ℕ, Bool, true, false, not, ◌&&◌, ◌||◌, Option, none, some, List, [], ◌∷◌, ◌==◌, if◌then◌else◌,
}
use loxim_stats.Base.Int.{ℤ, pos, negsuc, ◌+ℤ◌, eqb_ℤ}
use loxim_stats.Base.Text.{Text, eqb_text}
use loxim_stats.QueryExecutor.Unary.{UnOp, un_minus, bool_not, count, sum, avg, min, max, distinct}
use loxim_stats.TypeCheck.Signature.{
  Signature, stat_binder, cons, nil, text, attributes, with_attributes, set_card, set_refed, clone,
  empty_text, text_type, init_attributes,
}
use loxim_stats.TypeCheck.Result.{
  TypeCheckResult, CoerceAction, CoerceKind, error, coerce, is_error, set_effect, set_dyn_ctrl,
  add_error_part, static, dynamic, single, bs_to_dbl, bs_to_bool, card_to_11, cd_can_del,
}
use loxim_stats.TypeCheck.Rule.{
  RuleType, base, card, typename, collkind, SpecialArg, m_match, meta, m_else, m_0, tc_error,
  get_simple_result, write_attr, attr_of, checked_sig, add_action,
}
use loxim_stats.TypeCheck.Decision.{part_name, argument, not_applicable}
use loxim_stats.TypeCheck.Tables.{is_dynamic}

-- none is −1; bs_copy is not used by a table.
pub data UnaryGenerator : Type 0 where
  no_generator arg_copy bs_nameas cd_nameas ck_nameas bs_ref_deref bs_deref : UnaryGenerator
  bs_copy_ref bs_delete bs_create : UnaryGenerator

pub record UnOpRule : Type 0 where
  pub rule_type : RuleType
  pub special_arg : SpecialArg
  pub arg : Text
  pub result : Text
  pub generator : UnaryGenerator
  pub action : Option CoerceAction
  pub dyn_ctrl : Bool

unfoldable pub applies_to : UnOpRule → Text → Bool
unfolding eqb_text
applies_to rule given = elim rule.special_arg [
  | m_else ↦ true
  | meta ↦ empty_text given || not (eqb_text rule.arg m_0)
  | m_match ↦ eqb_text given rule.arg
  | _ ↦ false
]

-- The number that is answered, the argument and the result as a rule leaves them.
pub record CheckedOne : Type 0 where
  pub status : ℤ
  pub arg_sig : Signature
  pub final : TypeCheckResult

abbrev pub Made : Type 0
Made = Option Signature × Signature × TypeCheckResult

-- refDerefSig, derefSig, deleteCheck, which writes the cardinality of its argument, and createCheck.
pub record UnaryChecks : Type 0 where
  pub ref_deref_sig : Signature → Option Signature
  pub deref_sig : Signature → Option Signature
  pub delete_check : Signature → TypeCheckResult → Made
  pub create_check : Signature → TypeCheckResult → Made

-- nameAsSig sets the cardinality of its argument unless it groups.
unfoldable pub name_as_sig : Signature → Text → ℕ → Option Signature × Signature
unfolding set_card
name_as_sig sig name grouped =
    let named = if grouped == 0 then with_attributes (set_card (text "1..1")) sig else sig in
    (some (stat_binder name init_attributes (cons named nil)), named)

abbrev pub cd_name_as : Text → ℕ → Text
cd_name_as arg grouped = if grouped == 1 then text "1..1" else arg

abbrev pub ck_name_as : Text → ℕ → Text
ck_name_as arg grouped = if grouped == 1 then [] else arg

module _ (k : UnaryChecks) (name : Text) (grouped : ℕ) where
  unfoldable pub do_sig : UnaryGenerator → Signature → TypeCheckResult → Made
  unfolding set_card clone name_as_sig
  do_sig bs_ref_deref sig res = (k.ref_deref_sig sig, sig, res)
  do_sig bs_deref sig res = (k.deref_sig sig, sig, res)
  do_sig bs_copy_ref sig res = (some (with_attributes set_refed (clone sig)), sig, res)
  do_sig bs_nameas sig res = let made = name_as_sig sig name grouped in (made.0, made.1, res)
  do_sig bs_delete sig res = k.delete_check sig res
  do_sig bs_create sig res = k.create_check sig res
  do_sig method sig res = (none, sig, res)

  abbrev pub do_attr : UnaryGenerator → Text → Text
  do_attr cd_nameas arg = cd_name_as arg grouped
  do_attr ck_nameas arg = ck_name_as arg grouped
  do_attr arg_copy arg = arg
  do_attr method arg = []

  unfoldable pub get_generated_result : UnOpRule → Signature → TypeCheckResult → CheckedOne
  unfolding do_sig write_attr
  get_generated_result rule sig res =
      let made = do_sig rule.generator sig res in
      let written =
        write_attr rule.rule_type (do_attr rule.generator (attr_of rule.rule_type sig)) res in
      elim rule.rule_type [
        | base ↦ record { status = pos 0; arg_sig = made.1; final = checked_sig made.0 made.2 }
        | _ ↦ record { status = pos 0; arg_sig = sig; final = written }
      ]

  abbrev pub add_single_action : Option CoerceAction → TypeCheckResult → TypeCheckResult
  add_single_action none r = r
  add_single_action (some act) r = add_action (some (act, single)) r

  abbrev pub needs_generator : UnaryGenerator → Bool
  needs_generator no_generator = false
  needs_generator g = true

  unfoldable pub get_rule_result : Text → UnOpRule → Signature → TypeCheckResult → CheckedOne
  unfolding eqb_text get_simple_result get_generated_result
  get_rule_result atr rule sig res =
      let failed = add_error_part atr (set_effect error res) in
      let acted = add_single_action rule.action res in
      let marked = set_dyn_ctrl (acted.dyn_ctrl || rule.dyn_ctrl) acted in
      if eqb_text rule.result tc_error
      then record { status = pos 0; arg_sig = sig; final = failed }
      else if needs_generator rule.generator
      then get_generated_result rule sig marked
      else record {
        status = pos 0;
        arg_sig = sig;
        final = get_simple_result rule.rule_type rule.result marked;
      }

  unfoldable pub first_rule :
      RuleType → List UnOpRule → Signature → TypeCheckResult → Option CheckedOne
  unfolding applies_to get_rule_result
  first_rule t [] sig res = none
  first_rule t (rule ∷ rest) sig res = elim (applies_to rule (argument t sig)) [
    | true ↦ some (get_rule_result (part_name t) rule sig res)
    | false ↦ first_rule t rest sig res
  ]

  abbrev pub or_none : List UnOpRule → Signature → TypeCheckResult → Option CheckedOne → CheckedOne
  or_none rules sig res (some c) = c
  or_none [] sig res none = record { status = pos 0; arg_sig = sig; final = res }
  or_none (rule ∷ rest) sig res none = record { status = negsuc 0; arg_sig = sig; final = res }

  unfoldable pub apply_ruleset : RuleType → List UnOpRule → Signature → TypeCheckResult → CheckedOne
  unfolding first_rule
  apply_ruleset t rules sig res = or_none rules sig res (first_rule t rules sig res)

  unfoldable pub then_apply : RuleType → List UnOpRule → CheckedOne → CheckedOne
  unfolding apply_ruleset ◌+ℤ◌
  then_apply t rules c =
      let next = apply_ruleset t rules c.arg_sig c.final in
      record next { status = c.status +ℤ next.status }

pub record UnOpDecisionTable : Type 0 where
  pub rules : List UnOpRule
  pub card_rules : List UnOpRule
  pub type_name_rules : List UnOpRule
  pub coll_kind_rules : List UnOpRule

unfoldable pub get_result :
    UnaryChecks → UnOpDecisionTable → Text → ℕ → Signature → TypeCheckResult → CheckedOne
unfolding apply_ruleset then_apply
get_result k table name grouped sig res =
    let c = apply_ruleset k name grouped base table.rules sig res in
    let cards = then_apply k name grouped card table.card_rules c in
    let names = then_apply k name grouped typename table.type_name_rules cards in
    if eqb_ℤ c.status (pos 0) && not (is_error c.final)
    then elim c.final.result_sig [
      | none ↦ record c { status = not_applicable }
      | some s ↦ then_apply k name grouped collkind table.coll_kind_rules names
    ]
    else c
