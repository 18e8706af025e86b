-- ===== src/TypeCheck/Result.antt =====
-- src/TypeCheck/TypeCheckResult.cpp: what a type check found out about a query.
use loxim_stats.Base.{Bool, true, false, Option, none, some, List, [], ◌∷◌, ◌++◌, if◌then◌else◌}
use loxim_stats.Base.Text.{Text, eqb_text}
use loxim_stats.TypeCheck.Signature.{
  Signature, atom, void, coll, nil, s_int, s_double, s_string, s_bool, s_bag, s_seq, text,
  init_attributes,
}

-- The texts "", "SUCCESS", "ERROR" and "COERCE".
pub data Effect : Type 0 where
  unset success error coerce : Effect

pub data CoerceAction : Type 0 where
  card_to_11 bs_to_str bs_to_bool bs_to_int bs_to_dbl ck_to_bag ck_to_seq cd_can_del : CoerceAction
  cd_can_crt cd_ext_crt cd_can_asgn cd_can_ins cd_ext_ins : CoerceAction

pub data CoerceArg : Type 0 where
  both left right single mark_node : CoerceArg

pub data CoerceKind : Type 0 where
  static dynamic : CoerceKind

pub record ActionStruct : Type 0 where
  pub id : CoerceAction
  pub arg : CoerceArg

pub record TypeCheckResult : Type 0 where
  pub result_sig : Option Signature
  pub effect : Effect
  pub dyn_ctrl : Bool
  pub action_ids : List ActionStruct
  pub coerce_sig : Option Signature
  pub error_parts : List Text

abbrev pub new_result : TypeCheckResult
new_result = record {
  result_sig = none;
  effect = unset;
  dyn_ctrl = false;
  action_ids = [];
  coerce_sig = none;
  error_parts = [];
}

abbrev pub is_error : TypeCheckResult → Bool
is_error r = elim r.effect [ error ↦ true | _ ↦ false ]

-- An error is never taken back, and a success is not written.
abbrev pub next_effect : Effect → Effect → Effect
next_effect error e = error
next_effect old success = old
next_effect old e = e

abbrev pub set_effect : Effect → TypeCheckResult → TypeCheckResult
set_effect e r = record r { effect = next_effect r.effect e }

abbrev pub set_sig : Option Signature → TypeCheckResult → TypeCheckResult
set_sig s r = record r { result_sig = s }

abbrev pub set_coerce_sig : Option Signature → TypeCheckResult → TypeCheckResult
set_coerce_sig s r = record r { coerce_sig = s }

abbrev pub set_dyn_ctrl : Bool → TypeCheckResult → TypeCheckResult
set_dyn_ctrl b r = record r { dyn_ctrl = b }

abbrev pub add_action_id : ActionStruct → TypeCheckResult → TypeCheckResult
add_action_id a r = record r { action_ids = r.action_ids ++ a ∷ [] }

abbrev pub add_error_part : Text → TypeCheckResult → TypeCheckResult
add_error_part t r = record r { error_parts = r.error_parts ++ t ∷ [] }

-- The signature that a text names; a text that names none leaves the one there is.
abbrev pub named_sig : Text → Option Signature → Option Signature
named_sig res old =
    if eqb_text res (text "integer")
    then some (atom s_int init_attributes)
    else if eqb_text res (text "double")
    then some (atom s_double init_attributes)
    else if eqb_text res (text "boolean")
    then some (atom s_bool init_attributes)
    else if eqb_text res (text "string")
    then some (atom s_string init_attributes)
    else if eqb_text res (text "void")
    then some (void init_attributes)
    else if eqb_text res (text "bag")
    then some (coll s_bag init_attributes nil)
    else if eqb_text res (text "list")
    then some (coll s_seq init_attributes nil)
    else old

abbrev pub set_result_sig : Text → TypeCheckResult → TypeCheckResult
set_result_sig res r = set_sig (named_sig res r.result_sig) r
