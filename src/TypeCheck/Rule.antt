-- ===== src/TypeCheck/Rule.antt =====
-- src/TypeCheck/Rule.cpp and Rule.h: a rule of a table for two arguments, the arguments to which it
-- applies and what it adds to the result. The tables always set dTable.
use loxim_stats.Base.{Bool, true, false, not, ◌&&◌, ◌||◌, Option, none, some, [], if◌then◌else◌}
use loxim_stats.Base.Int.{ℤ, pos}
use loxim_stats.Base.Text.{Text, eqb_text}
use loxim_stats.TypeCheck.Signature.{
  Signature, Attributes, text, empty_text, attributes, with_attributes, set_card, set_type_name,
  set_coll_kind, structurally_equal, all_structurally_equal_to,
}
use loxim_stats.TypeCheck.Result.{
  TypeCheckResult, CoerceAction, CoerceArg, error, coerce, is_error, set_effect, set_sig,
  set_dyn_ctrl, add_action_id, add_error_part, set_result_sig,
}
use loxim_stats.TypeCheck.Generators.{AttrGenerator, SigGenerator, SchemeChecks, do_attr, do_sig}

pub data RuleType : Type 0 where
  base card typename collkind : RuleType

-- M_MATCH and "", M_EQ, M_L, M_R, M_B, META, M_ELSE, M_EX.
pub data SpecialArg : Type 0 where
  m_match m_eq m_l m_r m_b meta m_else m_ex : SpecialArg

-- The generator of a rule of a table for two arguments; none is −1.
pub data Generator : Type 0 where
  no_generator : Generator
  sig_gen : SigGenerator → Generator
  attr_gen : AttrGenerator → Generator

-- M_0, the mark of an empty attribute.
abbrev pub m_0 : Text
m_0 = text "__N_N_"

abbrev pub tc_error : Text
tc_error = text "ERROR"

pub record TcRule : Type 0 where
  pub rule_type : RuleType
  pub special_arg : SpecialArg
  pub left_arg : Text
  pub right_arg : Text
  pub result : Text
  pub generator : Generator
  pub action : Option (CoerceAction × CoerceArg)
  pub dyn_ctrl : Bool

-- The mark of an empty attribute as the argument of a rule, and an attribute that is not empty.
abbrev pub wants_empty : Text → Text → Bool
wants_empty rule_arg given = eqb_text rule_arg m_0 && not (empty_text given)

unfoldable pub applies_to : TcRule → Text → Text → Bool
unfolding eqb_text
applies_to rule l r = elim rule.special_arg [
  | m_else ↦ true
  | m_b ↦ not (wants_empty rule.left_arg l || wants_empty rule.right_arg r)
  | m_eq ↦ eqb_text l r
  | m_l ↦ not (not (eqb_text r rule.right_arg) || wants_empty rule.left_arg l)
  | m_r ↦ not (not (eqb_text l rule.left_arg) || wants_empty rule.right_arg r)
  | m_ex ↦
      if eqb_text rule.left_arg m_0
      then empty_text l || empty_text r
      else eqb_text l rule.left_arg || eqb_text r rule.left_arg
  | m_match ↦ eqb_text l rule.left_arg && eqb_text r rule.right_arg
  | meta ↦ false
]

unfoldable pub applies_to_base : SchemeChecks → TcRule → Signature → Signature → Bool
unfolding all_structurally_equal_to
applies_to_base k rule l r = elim rule.special_arg [
  | m_eq ↦ structurally_equal k.compare_rec l r
  | _ ↦ true
]

-- The number that is answered, the arguments and the result as a rule leaves them.
pub record Checked : Type 0 where
  pub status : ℤ
  pub l_sig : Signature
  pub r_sig : Signature
  pub final : TypeCheckResult

abbrev pub change_sig : (Attributes → Attributes) → TypeCheckResult → TypeCheckResult
change_sig f r = elim r.result_sig [ none ↦ r | some s ↦ set_sig (some (with_attributes f s)) r ]

-- What a rule of each type writes into the signature of the result.
unfoldable pub written : RuleType → Text → Attributes → Attributes
unfolding set_card
written base t a = a
written card t a = set_card t a
written typename t a = set_type_name t a
written collkind t a = set_coll_kind t a

unfoldable pub write_attr : RuleType → Text → TypeCheckResult → TypeCheckResult
unfolding written
write_attr kind t r = change_sig (written kind t) r

unfoldable pub get_simple_result : RuleType → Text → TypeCheckResult → TypeCheckResult
unfolding eqb_text write_attr
get_simple_result base t r = set_result_sig t r
get_simple_result kind t r = write_attr kind t r

abbrev pub attr_of : RuleType → Signature → Text
attr_of base s = []
attr_of card s = (attributes s).card
attr_of typename s = (attributes s).type_name
attr_of collkind s = (attributes s).coll_kind

-- A generator that has no signature to give makes an error of the base.
abbrev pub checked_sig : Option Signature → TypeCheckResult → TypeCheckResult
checked_sig (some s) r = set_sig (some s) r
checked_sig none r =
    if is_error r
    then set_sig none r
    else add_error_part (text "base") (set_effect error (set_sig none r))

unfoldable pub get_generated_result :
    SchemeChecks → RuleType → Generator → Signature → Signature → TypeCheckResult → Checked
unfolding do_sig do_attr write_attr
get_generated_result k t no_generator l r res = record {
  status = pos 0;
  l_sig = l;
  r_sig = r;
  final = res;
}
get_generated_result k t (sig_gen g) l r res =
    let made = do_sig k g l r res in
    record {
      status = pos 0;
      l_sig = made.l_sig;
      r_sig = made.r_sig;
      final = checked_sig made.sig made.ret_result;
    }
get_generated_result k t (attr_gen g) l r res =
    let value = do_attr g (attr_of t l) (attr_of t r) in
    record { status = pos 0; l_sig = l; r_sig = r; final = write_attr t value res }

abbrev pub add_action : Option (CoerceAction × CoerceArg) → TypeCheckResult → TypeCheckResult
add_action none r = r
add_action (some (act, arg)) r =
    add_action_id (record { id = act; arg = arg }) (set_effect coerce r)

-- needsResultGenerator.
abbrev pub needs_generator : Generator → Bool
needs_generator no_generator = false
needs_generator g = true

unfoldable pub get_result :
    Text → SchemeChecks → TcRule → Signature → Signature → TypeCheckResult → Checked
unfolding eqb_text get_simple_result get_generated_result
get_result atr k rule l r res =
    let failed = add_error_part atr (set_effect error res) in
    let acted = add_action rule.action res in
    let marked = set_dyn_ctrl (acted.dyn_ctrl || rule.dyn_ctrl) acted in
    if eqb_text rule.result tc_error
    then record { status = pos 0; l_sig = l; r_sig = r; final = failed }
    else if needs_generator rule.generator
    then get_generated_result k rule.rule_type rule.generator l r marked
    else record {
      status = pos 0;
      l_sig = l;
      r_sig = r;
      final = get_simple_result rule.rule_type rule.result marked;
    }
