-- ===== src/TypeCheck/Decision/Kept.antt =====
-- What the rules on attributes leave of the result that the rules on the base made.
use loxim_stats.Base.{
  ◌≡◌, refl, ◌∙◌, Bool, true, false, ◌||◌, Option, none, some, List, [], ◌∷◌, arith, Bool-cases,
  Option-cases, inl, inr, ◌&&◌,
}
use loxim_stats.Base.Text.{Text, eqb_text}
use loxim_stats.TypeCheck.Signature.{Signature, with_attributes}
use loxim_stats.TypeCheck.Result.{
  TypeCheckResult, error, is_error, set_dyn_ctrl, set_effect, add_error_part, CoerceAction,
  CoerceArg,
}
use loxim_stats.TypeCheck.Generators.{SchemeChecks}
use loxim_stats.TypeCheck.Rule.{
  TcRule, Checked, RuleType, base, card, typename, collkind, Generator, no_generator, sig_gen,
  attr_gen, change_sig, write_attr, add_action, tc_error, SpecialArg, get_generated_result, written,
  get_simple_result, needs_generator,
}
use loxim_stats.TypeCheck.Rule
use loxim_stats.TypeCheck.Decision.{
  first_rule, apply_ruleset, then_apply, matches, or_none, no_rules, part_name,
}

-- The later result shows what the earlier one shows of its signature, and neither an error nor a check
-- left to the evaluation is taken back.
pub record Kept {X : Type 0} (see : Option Signature → X) (old new : TypeCheckResult) : Type 0 where
  pub same : see new.result_sig ≡ see old.result_sig
  pub same_error : is_error new ≡ false → is_error old ≡ false
  pub same_dynamic : new.dyn_ctrl ≡ false → old.dyn_ctrl ≡ false

abbrev pub no_signature : Generator → Bool
no_signature (sig_gen g) = false
no_signature g = true

-- Rules of some types, which do not make a signature.
abbrev pub all_attributes : (RuleType → Bool) → List TcRule → Bool
all_attributes kinds [] = true
all_attributes kinds (rule ∷ rest) =
    kinds rule.rule_type && no_signature rule.generator && all_attributes kinds rest

module _ {X : Type 0} (see : Option Signature → X) where
  pub Kept-refl : (r : TypeCheckResult) → Kept see r r
  Kept-refl r = record { same = refl; same_error = λ h. h; same_dynamic = λ h. h }

  pub Kept-trans : (p q r : TypeCheckResult) → Kept see p q → Kept see q r → Kept see p r
  Kept-trans p q r h k = record {
    same = k.same ∙ h.same;
    same_error = λ e. h.same_error (k.same_error e);
    same_dynamic = λ e. h.same_dynamic (k.same_dynamic e);
  }

  failed-Kept :
      (atr : Text) (r : TypeCheckResult) → Kept see r (add_error_part atr (set_effect error r))
  failed-Kept atr r = record { same = refl; same_error = λ h. ground arith; same_dynamic = λ h. h }

  marked-Kept :
      (act : Option (CoerceAction × CoerceArg)) (b : Bool) (r : TypeCheckResult)
      → Kept see r (set_dyn_ctrl ((add_action act r).dyn_ctrl || b) (add_action act r))
  marked-Kept none b r = record {
    same = refl;
    same_error = λ h. h;
    same_dynamic = λ h. ground arith;
  }
  marked-Kept (some (act, arg)) b r = record {
    same = refl;
    same_error = λ h. ground arith;
    same_dynamic = λ h. ground arith;
  }

-- `kinds` are types of rules that do not write what is shown.
module _ {X : Type 0} (see : Option Signature → X) (kinds : RuleType → Bool)
    (no_base : kinds base ≡ false)
    (stable : (t : RuleType) (a : Text) (s : Signature)
      → kinds t ≡ true
      → see (some (with_attributes (written t a) s)) ≡ see (some s)) where
  write_attr-Kept :
      (t : RuleType) (a : Text) (r : TypeCheckResult)
      → kinds t ≡ true
      → Kept see r (write_attr t a r)
  unfolding write_attr
  write_attr-Kept t a r h = elim (Option-cases r.result_sig) [
    | inl e ↦ rw e (Kept-refl see (record r { result_sig = none }))
    | inr (s, e) ↦
        rw e (record { same = stable t a s h; same_error = λ h. h; same_dynamic = λ h. h })
  ]

  module _ (k : SchemeChecks) (l r : Signature) where
    generated-Kept :
        (t : RuleType) (g : Generator) (res : TypeCheckResult)
        → kinds t ≡ true
        → no_signature g ≡ true
        → Kept see res (get_generated_result k t g l r res).final
    unfolding get_generated_result
    generated-Kept t no_generator res b h = Kept-refl see res
    generated-Kept t (sig_gen g) res b h = ground arith
    generated-Kept t (attr_gen g) res b h = write_attr-Kept t _ res b

    simple-Kept :
        (t : RuleType) (a : Text) (res : TypeCheckResult)
        → kinds t ≡ true
        → Kept see res (get_simple_result t a res)
    unfolding get_simple_result
    simple-Kept base a res h = ground (arith, no_base)
    simple-Kept card a res h = write_attr-Kept card a res h
    simple-Kept typename a res h = write_attr-Kept typename a res h
    simple-Kept collkind a res h = write_attr-Kept collkind a res h

    rule-Kept :
        (atr : Text) (rule : TcRule) (res : TypeCheckResult)
        → kinds rule.rule_type ≡ true
        → no_signature rule.generator ≡ true
        → Kept see res (Rule.get_result atr k rule l r res).final
    unfolding Rule.get_result
    rule-Kept atr rule res b n = elim (Bool-cases (eqb_text rule.result tc_error)) [
      | inl e ↦ rw e (failed-Kept see atr res)
      | inr e ↦ elim (Bool-cases (needs_generator rule.generator)) [
        | inl g ↦
            rw (e, g)
              (Kept-trans see res _ _ marked (generated-Kept rule.rule_type rule.generator _ b n))
        | inr g ↦
            rw (e, g) (Kept-trans see res _ _ marked (simple-Kept rule.rule_type rule.result _ b))
      ]
    ]
      where
        marked : Kept see res (
            set_dyn_ctrl
              ((add_action rule.action res).dyn_ctrl || rule.dyn_ctrl)
              (add_action rule.action res))
        marked = marked-Kept see rule.action rule.dyn_ctrl res

    -- What a search answers, and the result that was there where it answers nothing.
    abbrev found_final : TypeCheckResult → Option Checked → TypeCheckResult
    found_final res none = res
    found_final res (some c) = c.final

    first_rule-Kept :
        (t : RuleType) (rules : List TcRule) (res : TypeCheckResult)
        → all_attributes kinds rules ≡ true
        → Kept see res (found_final res (first_rule k t l r res rules))
    unfolding first_rule
    first_rule-Kept t [] res h = Kept-refl see res
    first_rule-Kept t (rule ∷ rest) res h = elim (Bool-cases (matches k t rule l r)) [
      | inl e ↦ rw (e, found_final) (rule-Kept (part_name t) rule res (ground arith) (ground arith))
      | inr e ↦ rw (e, found_final) (first_rule-Kept t rest res (ground arith))
    ]

    or_none-Kept :
        (t : RuleType) (res : TypeCheckResult) (b : Bool) (o : Option Checked)
        → Kept see res (found_final res o)
        → Kept see res (or_none k t l r res b o).final
    or_none-Kept t res b (some c) h = h
    or_none-Kept t res true none h = h
    or_none-Kept t res false none h = h

    apply_ruleset-Kept :
        (t : RuleType) (rules : List TcRule) (res : TypeCheckResult)
        → all_attributes kinds rules ≡ true
        → Kept see res (apply_ruleset k t l r res rules).final
    unfolding apply_ruleset
    apply_ruleset-Kept t rules res h =
        or_none-Kept t res (no_rules k t l r res rules) (first_rule k t l r res rules)
          (first_rule-Kept t rules res h)

  pub then_apply-Kept :
      (k : SchemeChecks) (t : RuleType) (rules : List TcRule) (c : Checked)
      → all_attributes kinds rules ≡ true
      → Kept see c.final (then_apply k t rules c).final
  unfolding then_apply
  then_apply-Kept k t rules c h = apply_ruleset-Kept k c.l_sig c.r_sig t rules c.final h
