-- ===== src/TypeCheck/Decision/Whole.antt =====
-- What a whole table makes: the atom comes from the rules on the base, and the cardinality from those on
-- cardinalities.
use loxim_stats.Base.{
  ◌≡◌, refl, ap, ◌∙◌, Bool, true, false, Option, none, some, List, [], ◌∷◌, arith, ◌&&◌, not, sym,
  subst, some_inj,
}
use loxim_stats.Base.Int.{ℤ, pos, eqb_ℤ}
use loxim_stats.Base.Text.{Text}
use loxim_stats.TypeCheck.Signature.{
  Signature, Attributes, AtomType, atom, coll, ref, void, stat_binder, attributes, with_attributes,
  set_card,
}
use loxim_stats.TypeCheck.Result.{TypeCheckResult, is_error}
use loxim_stats.TypeCheck.Generators.{SchemeChecks, AttrGenerator, do_attr}
use loxim_stats.TypeCheck.Rule.{
  TcRule, Checked, RuleType, base, card, typename, collkind, written, write_attr, m_b, attr_gen,
}
use loxim_stats.TypeCheck.Decision.{
  DecisionTable, apply_ruleset, then_apply, get_result, apply_rest,
}
use loxim_stats.TypeCheck.Decision.Kept.{
  Kept, Kept-refl, Kept-trans, all_attributes, then_apply-Kept,
}
use loxim_stats.TypeCheck.Tables.{generating, x, y}

-- The type of an atom, where a result has one.
abbrev pub atom_of_sig : Option Signature → Option AtomType
atom_of_sig (some (atom t a)) = some t
atom_of_sig s = none

abbrev pub card_of_sig : Option Signature → Option Text
card_of_sig none = none
card_of_sig (some s) = some (attributes s).card

abbrev on_attributes : RuleType → Bool
on_attributes base = false
on_attributes t = true

abbrev on_others : RuleType → Bool
on_others base = false
on_others card = false
on_others t = true

-- Those of a table behind its rules on the base.
abbrev pub attribute_rules : DecisionTable → Bool
attribute_rules table =
    all_attributes on_attributes table.card_rules
    && all_attributes on_attributes table.type_name_rules
    && all_attributes on_attributes table.coll_kind_rules

atom-change :
    (f : Attributes → Attributes) (s : Signature)
    → atom_of_sig (some (with_attributes f s)) ≡ atom_of_sig (some s)
atom-change f (coll k a s) = refl
atom-change f (atom t a) = refl
atom-change f (ref n a) = refl
atom-change f (void a) = refl
atom-change f (stat_binder n a v) = refl

pub attributes-change :
    (f : Attributes → Attributes) (s : Signature)
    → attributes (with_attributes f s) ≡ f (attributes s)
attributes-change f (coll k a s) = refl
attributes-change f (atom t a) = refl
attributes-change f (ref n a) = refl
attributes-change f (void a) = refl
attributes-change f (stat_binder n a v) = refl

card-written :
    (t : RuleType) (a : Text) (s : Signature)
    → on_others t ≡ true
    → card_of_sig (some (with_attributes (written t a) s)) ≡ card_of_sig (some s)
unfolding written
card-written base a s h = ground arith
card-written card a s h = ground arith
card-written typename a s h = ap (λ b. some b.card) (attributes-change _ s)
card-written collkind a s h = ap (λ b. some b.card) (attributes-change _ s)

module _ (k : SchemeChecks) (table : DecisionTable) (h : attribute_rules table ≡ true) where
  attributes_keep :
      (t : RuleType) (rules : List TcRule) (c : Checked)
      → all_attributes on_attributes rules ≡ true
      → Kept atom_of_sig c.final (then_apply k t rules c).final
  attributes_keep t rules c h =
      then_apply-Kept atom_of_sig on_attributes refl (λ t a s h. atom-change (written t a) s) k t
        rules c h

  apply_rest-Kept :
      (b : Bool) (s : Option Signature) (c : Checked)
      → Kept atom_of_sig c.final (apply_rest k table b s c).final
  unfolding apply_rest
  apply_rest-Kept false s c = Kept-refl atom_of_sig c.final
  apply_rest-Kept true none c = Kept-refl atom_of_sig c.final
  apply_rest-Kept true (some s) c =
      let cards = then_apply k card table.card_rules c in
      let names = then_apply k typename table.type_name_rules cards in
      Kept-trans atom_of_sig c.final names.final _
        (Kept-trans atom_of_sig c.final cards.final names.final
          (attributes_keep card table.card_rules c (ground arith))
          (attributes_keep typename table.type_name_rules cards (ground arith)))
        (attributes_keep collkind table.coll_kind_rules names (ground arith))

  -- Where a table has only rules on attributes behind those on the base, its result has the atom that the
  -- rules on the base made.
  pub get_result-Kept :
      (l r : Signature) (res : TypeCheckResult)
      → Kept atom_of_sig
          (apply_ruleset k base l r res table.rules).final
          (get_result k table l r res).final
  unfolding get_result
  get_result-Kept l r res =
      let c = apply_ruleset k base l r res table.rules in
      apply_rest-Kept (eqb_ℤ c.status (pos 0) && not (is_error c.final)) c.final.result_sig c

no_reason : (n : ℤ) (b : Bool) → n ≡ pos 0 → b ≡ false → (eqb_ℤ n (pos 0) && not b) ≡ true
no_reason n b h k = rw (h, k) refl

module _ (k : SchemeChecks) (g : AttrGenerator) where
  abbrev pub generated_card : Checked → Text
  generated_card c = do_attr g (attributes c.l_sig).card (attributes c.r_sig).card

  card_applied :
      (c : Checked) (s : Signature)
      → c.final.result_sig ≡ some s
      → card_of_sig
          (then_apply k card (generating card m_b x y (attr_gen g) ∷ []) c).final.result_sig
        ≡ some (generated_card c)
  unfolding then_apply write_attr written set_card
  card_applied c s h =
      rw h (ap (λ b. some b.card) (attributes-change (set_card (generated_card c)) s))

  module _ (table : DecisionTable)
      (cards : table.card_rules ≡ generating card m_b x y (attr_gen g) ∷ [])
      (names : all_attributes on_others table.type_name_rules ≡ true)
      (kinds : all_attributes on_others table.coll_kind_rules ≡ true) where
    others_keep :
        (t : RuleType) (rules : List TcRule) (c : Checked)
        → all_attributes on_others rules ≡ true
        → Kept card_of_sig c.final (then_apply k t rules c).final
    others_keep t rules c h = then_apply-Kept card_of_sig on_others refl card-written k t rules c h

    apply_rest-card :
        (b : Bool) (o : Option Signature) (c : Checked) (s : Signature)
        → (eqb_ℤ c.status (pos 0) && not (is_error c.final)) ≡ b
        → c.final.result_sig ≡ o
        → (apply_rest k table b o c).status ≡ pos 0
        → is_error (apply_rest k table b o c).final ≡ false
        → (apply_rest k table b o c).final.result_sig ≡ some s
        → (attributes s).card ≡ generated_card c
    unfolding apply_rest
    apply_rest-card false o c s b e z n h =
        ground (arith, no_reason c.status (is_error c.final) z n)
    apply_rest-card true none c s b e z n h = ground (arith, e, h)
    apply_rest-card true (some old) c s b e z n h =
        let first = then_apply k card table.card_rules c in
        let second = then_apply k typename table.type_name_rules first in
        some_inj (
          ap card_of_sig (sym h)
          ∙ (others_keep collkind table.coll_kind_rules second kinds).same
          ∙ (others_keep typename table.type_name_rules first names).same
          ∙ subst
              (λ rules.
                card_of_sig (then_apply k card rules c).final.result_sig ≡ some (generated_card c))
              (sym cards) (card_applied c old e))

    -- Where such a table answers 0 and makes no error, its result has the cardinality that its generator
    -- makes of those which the arguments have when the rules on the base are done.
    pub get_result-card :
        (l r : Signature) (res : TypeCheckResult) (s : Signature)
        → (get_result k table l r res).status ≡ pos 0
        → is_error (get_result k table l r res).final ≡ false
        → (get_result k table l r res).final.result_sig ≡ some s
        → (attributes s).card ≡ generated_card (apply_ruleset k base l r res table.rules)
    unfolding get_result
    get_result-card l r res s z n h =
        let c = apply_ruleset k base l r res table.rules in
        apply_rest-card (eqb_ℤ c.status (pos 0) && not (is_error c.final)) c.final.result_sig c s
          refl refl z n h
