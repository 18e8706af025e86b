-- ===== src/TypeCheck/Decision.antt =====
-- src/TypeCheck/DecisionTable.cpp: a decision table for two arguments, the search for a rule and the
-- result of a table. The number that is answered is 0, an error code, or −1 for each table of
-- attributes that has rules, none of which applies.
pub mod Kept
pub mod Whole
use loxim_stats.Base.{
  ℕ, Bool, true, false, ◌&&◌, not, Option, none, some, List, [], ◌∷◌, if◌then◌else◌,
}
use loxim_stats.Base.Int.{ℤ, pos, negsuc, ◌+ℤ◌, eqb_ℤ}
use loxim_stats.Base.Text.{Text, eqb_text}
use loxim_stats.TypeCheck.Signature.{Signature, text, text_type, attributes}
use loxim_stats.TypeCheck.Result.{TypeCheckResult, is_error}
use loxim_stats.TypeCheck.Generators.{SchemeChecks}
use loxim_stats.TypeCheck.Rule.{
  TcRule, Checked, RuleType, base, card, typename, collkind, applies_to, applies_to_base, attr_of,
}
use loxim_stats.TypeCheck.Rule

pub record DecisionTable : Type 0 where
  pub rules : List TcRule
  pub card_rules : List TcRule
  pub type_name_rules : List TcRule
  pub coll_kind_rules : List TcRule

-- SIG_BASE, SIG_CARD, SIG_TN and SIG_CK.
abbrev pub part_name : RuleType → Text
part_name base = text "base"
part_name card = text "card"
part_name typename = text "typeName"
part_name collkind = text "collectionKind"

-- textType for the base, and an attribute for the others.
abbrev pub argument : RuleType → Signature → Text
argument base s = text_type s
argument t s = attr_of t s

abbrev pub is_base : RuleType → Bool
is_base base = true
is_base t = false

unfoldable pub matches : SchemeChecks → RuleType → TcRule → Signature → Signature → Bool
unfolding applies_to applies_to_base
matches k t rule l r =
    if applies_to rule (argument t l) (argument t r)
    then (if is_base t then applies_to_base k rule l r else true)
    else false

-- ErrTypeChecker | ETCNotApplicable.
abbrev pub not_applicable : ℤ
not_applicable = pos 0x4403340

module _ (k : SchemeChecks) (t : RuleType) (l r : Signature) (res : TypeCheckResult) where
  unfoldable pub first_rule : List TcRule → Option Checked
  unfolding matches Rule.get_result
  first_rule [] = none
  first_rule (rule ∷ rest) = elim (matches k t rule l r) [
    | true ↦ some (Rule.get_result (part_name t) k rule l r res)
    | false ↦ first_rule rest
  ]

  abbrev pub or_none : Bool → Option Checked → Checked
  or_none empty (some c) = c
  or_none true none = record { status = pos 0; l_sig = l; r_sig = r; final = res }
  or_none false none = record { status = negsuc 0; l_sig = l; r_sig = r; final = res }

  abbrev pub no_rules : List TcRule → Bool
  no_rules [] = true
  no_rules (rule ∷ rest) = false

  unfoldable pub apply_ruleset : List TcRule → Checked
  unfolding first_rule
  apply_ruleset rules = or_none (no_rules rules) (first_rule rules)

unfoldable pub then_apply : SchemeChecks → RuleType → List TcRule → Checked → Checked
unfolding apply_ruleset ◌+ℤ◌
then_apply k t rules c =
    let next = apply_ruleset k t c.l_sig c.r_sig c.final rules in
    record next { status = c.status +ℤ next.status }

-- The rules on attributes run where those on the base made no error, on the signature that they made.
unfoldable pub apply_rest :
    SchemeChecks → DecisionTable → Bool → Option Signature → Checked → Checked
unfolding then_apply
apply_rest k table false sig c = c
apply_rest k table true none c = record c { status = not_applicable }
apply_rest k table true (some sig) c =
    then_apply k collkind table.coll_kind_rules
      (then_apply k typename table.type_name_rules (then_apply k card table.card_rules c))

unfoldable pub get_result :
    SchemeChecks → DecisionTable → Signature → Signature → TypeCheckResult → Checked
unfolding apply_ruleset apply_rest
get_result k table l r res =
    let c = apply_ruleset k base l r res table.rules in
    apply_rest k table (eqb_ℤ c.status (pos 0) && not (is_error c.final)) c.final.result_sig c
