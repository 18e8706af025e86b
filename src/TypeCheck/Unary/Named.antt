-- ===== src/TypeCheck/Unary/Named.antt =====
-- The cardinality of a signature that `as` names.
use loxim_stats.Base.{ℕ, [], ◌∷◌, ◌==◌, ◌≡◌, refl, false, Option, some, arith}
use loxim_stats.Base.Text.{Text}
use loxim_stats.TypeCheck.Signature.{
  Signature, coll, atom, ref, void, stat_binder, s_var, s_seq, s_bag, s_struct, Attributes, text,
  type_number, s_int, s_double, s_string, s_bool,
}
use loxim_stats.TypeCheck.Result.{new_result}
use loxim_stats.TypeCheck.Unary.{UnaryChecks, get_result}
use loxim_stats.TypeCheck.Decision.Whole.{card_of_sig}
use loxim_stats.TypeCheck.Unary.Tables.{as_rules}

module _ (k : UnaryChecks) (name : Text) where
  abbrev named : Signature → Option Signature
  named sig = (get_result k as_rules name 0 sig new_result).final.result_sig

  abbrev Single : Signature → Type 0
  Single sig = card_of_sig (named sig) ≡ some (text "1..1")

  abbrev with_name : Text → Attributes → Attributes
  with_name t a = record a { type_name = t }

  named_by :
      (make : Attributes → Signature) (a : Attributes) (t : Text)
      → Single (make (with_name [] a))
      → ((c : ℕ) (s : Text) → Single (make (with_name (c ∷ s) a)))
      → Single (make (with_name t a))
  named_by make a [] p q = p
  named_by make a (c ∷ s) p q = q c s

  -- `as` without grouping answers the cardinality "1..1" for every signature but a variant, also for one
  -- of many elements.
  pub as-card :
      (sig : Signature)
      → (type_number sig == 11) ≡ false
      → card_of_sig (named sig) ≡ some (text "1..1")
  unfolding get_result
  as-card (coll s_var a es) h = ground arith
  as-card (coll s_seq a es) h = named_by (λ b. coll s_seq b es) a a.type_name refl (λ c t. refl)
  as-card (coll s_bag a es) h = named_by (λ b. coll s_bag b es) a a.type_name refl (λ c t. refl)
  as-card (coll s_struct a es) h =
      named_by (λ b. coll s_struct b es) a a.type_name refl (λ c t. refl)
  as-card (atom s_int a) h = named_by (λ b. atom s_int b) a a.type_name refl (λ c t. refl)
  as-card (atom s_double a) h = named_by (λ b. atom s_double b) a a.type_name refl (λ c t. refl)
  as-card (atom s_string a) h = named_by (λ b. atom s_string b) a a.type_name refl (λ c t. refl)
  as-card (atom s_bool a) h = named_by (λ b. atom s_bool b) a a.type_name refl (λ c t. refl)
  as-card (ref n a) h = named_by (λ b. ref n b) a a.type_name refl (λ c t. refl)
  as-card (void a) h = named_by (λ b. void b) a a.type_name refl (λ c t. refl)
  as-card (stat_binder n a es) h =
      named_by (λ b. stat_binder n b es) a a.type_name refl (λ c t. refl)
