-- ===== src/TypeCheck/Cards/Answers.antt =====
-- The cardinalities that the tables of the bag operators, of comma and of join answer.
use loxim_stats.Base.{
  ◌+◌, ◌≡◌, refl, sym, subst, ap, ap₂, ◌∙◌, false, some, arith, length, length-append, Bool-cases,
  ◌⊎◌, inl, inr,
}
use loxim_stats.Base.Int.{pos}
use loxim_stats.Base.Text.{Text}
use loxim_stats.QueryExecutor.Result.{QueryResult}
use loxim_stats.QueryExecutor.Result.Access.{AllSomething}
use loxim_stats.QueryExecutor.Compare.{Tests}
use loxim_stats.QueryExecutor.Algebraic.{
  bag_union, bag_operator, BagOperator, bag_intersect, bag_minus, comma, union, bag_operate, as_bag,
}
use loxim_stats.QueryExecutor.Algebraic.Plain.{AllPlain}
use loxim_stats.QueryExecutor.Algebraic.Laws.{union-append}
use loxim_stats.QueryExecutor.Algebraic.Sizes.{bag_operate-length}
use loxim_stats.QueryExecutor.NonAlgebraic.{join}
use loxim_stats.TypeCheck.Signature.{Signature, attributes, text, set_card, with_attributes}
use loxim_stats.TypeCheck.Result.{new_result, is_error}
use loxim_stats.TypeCheck.Generators.{
  SchemeChecks, cd_add_bands, do_attr, cd_addbands, cd_intst, cd_copy_l_zr, cd_multbands,
  AttrGenerator, bs_copy_l,
}
use loxim_stats.TypeCheck.Generators.{cd_multiply_bands}
use loxim_stats.TypeCheck.Rule.{Checked, base, m_eq, sig_gen}
use loxim_stats.TypeCheck.Decision.{DecisionTable, get_result, apply_ruleset, first_rule, matches}
use loxim_stats.TypeCheck.Decision.Whole.{get_result-card, get_result-Kept, attributes-change}
use loxim_stats.TypeCheck.Tables.{
  init_alg_op_rules, init_non_alg_op_rules, generating, x, no_variant,
}
use loxim_stats.TypeCheck.Cards.{
  IsCard, Within, add_bands-Within, intersect-Within, copy_left-Within,
}

-- The table answers 0 and no error, with a signature.
pub record Accepted (k : SchemeChecks) (table : DecisionTable) (l r s : Signature) : Type 0 where
  pub answers : (get_result k table l r new_result).status ≡ pos 0
  pub sound : is_error (get_result k table l r new_result).final ≡ false
  pub gives : (get_result k table l r new_result).final.result_sig ≡ some s

abbrev pub card_of : Signature → Text
card_of s = (attributes s).card

card_set : (q : Signature) → card_of (with_attributes (set_card (text "1..1")) q) ≡ text "1..1"
unfolding set_card
card_set q = ap (λ b. b.card) (attributes-change (set_card (text "1..1")) q)

module _ (k : SchemeChecks) (l r s : Signature) where
  SameSigs : Checked → Type 0
  SameSigs c = (c.l_sig ≡ l) × (c.r_sig ≡ r)

  base_checked : DecisionTable → Checked
  unfolding apply_ruleset
  base_checked table = apply_ruleset k base l r new_result table.rules

  union_sigs : SameSigs (base_checked (init_alg_op_rules bag_union))
  unfolding SameSigs base_checked apply_ruleset first_rule init_alg_op_rules
  union_sigs =
      elim (Bool-cases (matches k base (generating base m_eq x x (sig_gen bs_copy_l)) l r)) [
        | inl e ↦ rw (e, first_rule) (refl, refl)
        | inr e ↦ rw (e, first_rule) (refl, refl)
      ]

  bag_sigs : (op : BagOperator) → SameSigs (base_checked (init_alg_op_rules (bag_operator op)))
  unfolding SameSigs base_checked init_alg_op_rules
  bag_sigs bag_intersect = (refl, refl)
  bag_sigs bag_minus = (refl, refl)

  union-card :
      Accepted k (init_alg_op_rules bag_union) l r s
      → card_of s ≡ cd_add_bands (card_of l) (card_of r)
  unfolding base_checked SameSigs do_attr init_alg_op_rules
  union-card a =
      get_result-card k cd_addbands (init_alg_op_rules bag_union) refl refl refl l r new_result s
        a.answers a.sound a.gives
      ∙ ap₂ (λ p q. cd_add_bands (card_of p) (card_of q)) union_sigs.0 union_sigs.1

  bag_generator : BagOperator → AttrGenerator
  bag_generator bag_intersect = cd_intst
  bag_generator bag_minus = cd_copy_l_zr

  bag-card :
      (op : BagOperator)
      → Accepted k (init_alg_op_rules (bag_operator op)) l r s
      → card_of s ≡ do_attr (bag_generator op) (card_of l) (card_of r)
  unfolding base_checked SameSigs do_attr init_alg_op_rules bag_generator
  bag-card bag_intersect a =
      get_result-card k cd_intst (init_alg_op_rules (bag_operator bag_intersect)) refl refl refl l r
        new_result s a.answers a.sound a.gives
  bag-card bag_minus a =
      get_result-card k cd_copy_l_zr (init_alg_op_rules (bag_operator bag_minus)) refl refl refl l r
        new_result s a.answers a.sound a.gives

  error_before :
      Accepted k (init_alg_op_rules comma) l r s
      → is_error (base_checked (init_alg_op_rules comma)).final ≡ false
  unfolding base_checked init_alg_op_rules
  error_before a =
      (get_result-Kept k (init_alg_op_rules comma) refl l r new_result).same_error a.sound

  -- A structure is made of arguments whose cardinality was set.
  structure_sigs :
      is_error (base_checked (init_alg_op_rules comma)).final ≡ false
      → (card_of (base_checked (init_alg_op_rules comma)).l_sig ≡ text "1..1")
        × (card_of (base_checked (init_alg_op_rules comma)).r_sig ≡ text "1..1")
  unfolding base_checked init_alg_op_rules apply_ruleset first_rule
  structure_sigs = elim (Bool-cases (matches k base no_variant l r)) [
    | inl e ↦ rw (e, first_rule) (λ h. ground (arith, h))
    | inr e ↦ rw (e, first_rule) (λ h. (card_set l, card_set r))
  ]

  -- Where the table of comma or that of join accepts two signatures, the cardinality that it answers is
  -- "1..1", whatever the cardinalities of the two are.
  pub structure-card :
      Accepted k (init_alg_op_rules comma) l r s ⊎ Accepted k (init_non_alg_op_rules join) l r s
      → card_of s ≡ text "1..1"
  unfolding init_alg_op_rules init_non_alg_op_rules base_checked do_attr
  structure-card (inl a) =
      get_result-card k cd_multbands (init_alg_op_rules comma) refl refl refl l r new_result s
        a.answers a.sound a.gives
      ∙ ap₂ cd_multiply_bands (structure_sigs (error_before a)).0
          (structure_sigs (error_before a)).1
  structure-card (inr a) =
      get_result-card k cd_multbands (init_alg_op_rules comma) refl refl refl l r new_result s
        a.answers a.sound a.gives
      ∙ ap₂ cd_multiply_bands (structure_sigs (error_before a)).0
          (structure_sigs (error_before a)).1

-- Where the table of union accepts two signatures, where the numbers of elements of two bags are within
-- the cardinalities of these, and where no element on the right is nothing, the number of elements of
-- the union is within the cardinality that the table answers.
pub union-Within :
    {D : Type 0} (k : SchemeChecks) (l r s : Signature) (v w : QueryResult D)
    → IsCard (card_of l)
    → IsCard (card_of r)
    → Within (length (as_bag v)) (card_of l)
    → Within (length (as_bag w)) (card_of r)
    → AllSomething (as_bag w)
    → Accepted k (init_alg_op_rules bag_union) l r s
    → Within (length (union v w)) (card_of s)
union-Within k l r s v w p q f g n a =
    subst (λ m. Within m (card_of s))
      (sym (ap length (union-append v w n) ∙ length-append (as_bag v) (as_bag w)))
      (subst (Within (length (as_bag v) + length (as_bag w))) (sym (union-card k l r s a))
        (add_bands-Within (card_of l) (card_of r) _ _ p q f g))

-- Where the table of intersection or that of difference accepts two signatures, the numbers of
-- elements of two bags are within the cardinalities of these, and no element on the left is nothing
-- or a bag or a sequence itself, the number of elements of the operator's result is within the
-- cardinality that the table answers.
pub bag_operate-Within :
    {D : Type 0} (t : Tests D) (k : SchemeChecks) (op : BagOperator) (l r s : Signature)
    (v w : QueryResult D)
    → IsCard (card_of l)
    → IsCard (card_of r)
    → Within (length (as_bag v)) (card_of l)
    → Within (length (as_bag w)) (card_of r)
    → AllPlain (as_bag v)
    → Accepted k (init_alg_op_rules (bag_operator op)) l r s
    → Within (length (bag_operate t op v w)) (card_of s)
unfolding do_attr bag_generator
bag_operate-Within t k bag_intersect l r s v w p q f g n a =
    let b = bag_operate-length t bag_intersect v w n in
    subst (Within (length (bag_operate t bag_intersect v w)))
      (sym (bag-card k l r s bag_intersect a))
      (intersect-Within (card_of l) (card_of r) _ _ _ p q f g b.0 b.1)
bag_operate-Within t k bag_minus l r s v w p q f g n a =
    let b = bag_operate-length t bag_minus v w n in
    subst (Within (length (bag_operate t bag_minus v w))) (sym (bag-card k l r s bag_minus a))
      (copy_left-Within (card_of l) (card_of r) _ _ f b.0)
